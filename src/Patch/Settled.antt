-- ===== src/Patch/Settled.antt =====
-- The block that `ensureBlockExact` puts in: `integration/patch_suricata_config.go`.
use integration_suricata_n_d.Base.{
  ℕ, suc, ◌+◌, ◌≤◌, Bool, true, false, Option, none, some, List, [], ◌∷◌, ◌++◌, ◌≡◌, refl, sym, ap,
  ◌∙◌, arith, Bytes, if◌then◌else◌, Bool-cases, inl, inr, All, length, take, drop, bytes_eq,
  append_assoc, append-nil, length-append, take-length-append, drop-length-append,
}
use integration_suricata_n_d.Text.{trim_space, has_prefix}
use integration_suricata_n_d.Text.Ascii.{All-append}
use integration_suricata_n_d.Line.{normalize_key, indent_width}
use integration_suricata_n_d.Patch.Blocks.{
  is_key, block_body, find_block, find_block_range, range_from, slice_equal, make_block_uncommented,
  lacks_blank_end, with_blank_end, ensure_block_exact,
}
use integration_suricata_n_d.Patch.Ranges.{
  range_from-cases, range_cuts, block_rest, block_end_lem, pieces_of,
}
use integration_suricata_n_d.Patch.Stops.{
  IsBlock, Stops, Stops-mono, block_body-append, block_rest-Stops, slice_equal_iff,
}

-- The answer where the key's block is found, and where it is not.
ensured_found :
    (lines tpl t : List Bytes) (key : Bytes) (start end base : ℕ)
    → range_from lines key 0 ≡ some (start, end, base)
    → make_block_uncommented tpl ≡ t
    → ensure_block_exact lines (some tpl) key ≡ (
        if slice_equal (drop start (take end lines)) t
        then (lines, false)
        else (take start lines ++ (t ++ drop end lines), true))
unfolding ensure_block_exact find_block_range
ensured_found lines tpl t key start end base r m =
    rw (r, ensure_block_exact, find_block_range) (rw (m, ensure_block_exact) refl)

ensured_new :
    (lines tpl t : List Bytes) (key : Bytes)
    → range_from lines key 0 ≡ none
    → make_block_uncommented tpl ≡ t
    → ensure_block_exact lines (some tpl) key ≡ (with_blank_end lines ++ t, true)
unfolding ensure_block_exact find_block_range
ensured_new lines tpl t key r m =
    rw (r, ensure_block_exact, find_block_range) (rw (m, ensure_block_exact) refl)

from_zero :
    (x : Option (ℕ × ℕ × ℕ)) (n m base : ℕ)
    → x ≡ some (0 + n, 0 + n + m, base)
    → x ≡ some (n, n + m, base)
from_zero x n m base e = e ∙ ap (λ (k : ℕ). some (k, k + m, base)) (omega arith)

-- A block between lines that are not the key's and lines that end it is the one that is found.
module _ (key : Bytes) (l : Bytes) (body rest : List Bytes) (block : IsBlock key (l ∷ body))
    (stops : Stops (indent_width l) rest) where
  find_block_placed :
      (before : List Bytes)
      → All (λ m. is_key key m ≡ false) before
      → find_block (before ++ ((l ∷ body) ++ rest)) key ≡ some (l ∷ body, indent_width l)
  unfolding find_block
  find_block_placed [] h = rw block.0 (
      ap (λ (t : List Bytes). some (l ∷ t, indent_width l))
        (block_body-append (indent_width l) body rest block.1 stops))
  find_block_placed (m ∷ before) h = rw h.0 (find_block_placed before h.1)

  range_placed :
      (before : List Bytes) (i : ℕ)
      → All (λ m. is_key key m ≡ false) before
      → range_from (before ++ ((l ∷ body) ++ rest)) key i
        ≡ some (i + length before, i + length before + suc (length body), indent_width l)
  unfolding range_from
  range_placed [] i h = rw block.0 (
      ground (
        arith,
        block_end_lem (indent_width l) (body ++ rest) (i + 1),
        ap length (block_body-append (indent_width l) body rest block.1 stops),
      ))
  range_placed (m ∷ before) i h = rw h.0 (ground (arith, range_placed before (i + 1) h.1))

  slice_placed :
      (before : List Bytes)
      → drop
          (length before)
          (take (length before + suc (length body)) (before ++ ((l ∷ body) ++ rest)))
        ≡ l ∷ body
  slice_placed before =
      let front = before ++ (l ∷ body) in
      rw (sym (length-append before (l ∷ body))) (
        ap (λ (t : List Bytes). drop (length before) (take (length front) t))
          (sym (append_assoc before (l ∷ body) rest))
        ∙ ap (drop (length before)) (take-length-append front rest)
        ∙ drop-length-append before (l ∷ body))

  ensure_placed :
      (before tpl : List Bytes)
      → All (λ m. is_key key m ≡ false) before
      → make_block_uncommented tpl ≡ l ∷ body
      → ensure_block_exact (before ++ ((l ∷ body) ++ rest)) (some tpl) key
        ≡ (before ++ ((l ∷ body) ++ rest), false)
  ensure_placed before tpl h t =
      ensured_found (before ++ ((l ∷ body) ++ rest)) tpl (l ∷ body) key (length before)
        (length before + suc (length body)) (indent_width l)
        (from_zero _ (length before) (suc (length body)) (indent_width l) (range_placed before 0 h))
        t
      ∙ (rw (slice_placed before, (slice_equal_iff (l ∷ body) (l ∷ body)).1 refl) refl)

is_key-nil : (key : Bytes) → is_key key [] ≡ false
unfolding normalize_key trim_space has_prefix bytes_eq
is_key-nil [] = refl
is_key-nil (c ∷ key) = refl

pub with_blank_end-others :
    (lines : List Bytes) (key : Bytes)
    → All (λ m. is_key key m ≡ false) lines
    → All (λ m. is_key key m ≡ false) (with_blank_end lines)
with_blank_end-others lines key h = elim (Bool-cases (lacks_blank_end lines)) [
  | inl e ↦ rw (e, with_blank_end) (All-append _ lines ([] ∷ []) h (is_key-nil key, tt))
  | inr e ↦ rw (e, with_blank_end) h
]

-- What the function makes of the lines: the block stands between lines that are not the key's and lines that end it.
record Placed (key : Bytes) (l : Bytes) (body : List Bytes) (result : List Bytes) : Type 0 where
  before : List Bytes
  rest : List Bytes
  result_is : result ≡ before ++ ((l ∷ body) ++ rest)
  others_differ : All (λ m. is_key key m ≡ false) before
  stops : Stops (indent_width l) rest

ensure_block_exact-Placed :
    (lines tpl : List Bytes) (key l : Bytes) (body : List Bytes)
    → make_block_uncommented tpl ≡ l ∷ body
    → ((block : List Bytes) (base : ℕ)
        → find_block lines key ≡ some (block, base)
        → base ≤ indent_width l)
    → Placed key l body (ensure_block_exact lines (some tpl) key).0
ensure_block_exact-Placed lines tpl key l body t shallow = elim (range_from-cases lines key 0) [
  | inl (r, f, o) ↦ record {
    before = with_blank_end lines;
    rest = [];
    result_is =
        ap (λ (x : List Bytes × Bool). x.0) (ensured_new lines tpl (l ∷ body) key r t)
        ∙ ap (λ (x : List Bytes). with_blank_end lines ++ x) (sym (append-nil (l ∷ body)));
    others_differ = with_blank_end-others lines key o;
    stops = tt;
  }
  | inr (b, r, f) ↦
      let base = indent_width b.line in
      let old = b.line ∷ block_body base b.after in
      let (taken, dropped, start) = range_cuts lines key b in
      let slice : drop (length b.before)
            (take (length b.before + suc (length (block_body base b.after))) lines)
          ≡ old =
        ap (drop (length b.before)) taken ∙ drop-length-append b.before old in
      record {
        before = b.before;
        rest = block_rest base b.after;
        result_is =
            ap (λ (x : List Bytes × Bool). x.0)
              (ensured_found lines tpl (l ∷ body) key (length b.before)
                (length b.before + suc (length (block_body base b.after))) base
                (from_zero _ (length b.before) (suc (length (block_body base b.after))) base r) t)
            ∙ elim (Bool-cases (slice_equal old (l ∷ body))) [
              | inl e ↦ rw slice (
                  rw e (
                    pieces_of lines key b
                    ∙ append_assoc b.before old (block_rest base b.after)
                    ∙ ap (λ (x : List Bytes). b.before ++ (x ++ block_rest base b.after))
                        ((slice_equal_iff old (l ∷ body)).0 e)))
              | inr e ↦ rw slice (
                  rw e (
                    ap
                      (λ (x : List Bytes).
                        x
                        ++ ((l ∷ body)
                            ++ drop (length b.before + suc (length (block_body base b.after)))
                                lines))
                      start
                    ∙ ap (λ (x : List Bytes). b.before ++ ((l ∷ body) ++ x)) dropped))
            ];
        others_differ = b.others_differ;
        stops =
            Stops-mono base (indent_width l) (block_rest base b.after) (shallow old base f)
              (block_rest-Stops base b.after);
      }
]

-- After the call the block that the key has is the template's, and a second call changes nothing: where the template's
-- block, uncommented, is a line of the key with lines that go on from it, and the block of the old lines, if there is one,
-- is not indented deeper than the template's.
pub ensure_block_exact_settles :
    (lines tpl : List Bytes) (key l : Bytes) (body : List Bytes)
    → make_block_uncommented tpl ≡ l ∷ body
    → IsBlock key (l ∷ body)
    → ((block : List Bytes) (base : ℕ)
        → find_block lines key ≡ some (block, base)
        → base ≤ indent_width l)
    → let result = (ensure_block_exact lines (some tpl) key).0 in
      (find_block result key ≡ some (l ∷ body, indent_width l))
      × (ensure_block_exact result (some tpl) key ≡ (result, false))
ensure_block_exact_settles lines tpl key l body t block shallow =
    let p = ensure_block_exact-Placed lines tpl key l body t shallow in
    (
      rw p.result_is (find_block_placed key l body p.rest block p.stops p.before p.others_differ),
      rw p.result_is (ensure_placed key l body p.rest block p.stops p.before tpl p.others_differ t),
    )
