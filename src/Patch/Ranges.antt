-- ===== src/Patch/Ranges.antt =====
-- `findBlock` and `findBlockRange` find the same block.
use Prim.Native.Nat.add
use integration_suricata_n_d.Base.{
  ℕ, suc, ◌+◌, true, false, Option, none, some, List, [], ◌∷◌, ◌++◌, ◌≡◌, ◌⊎◌, refl, sym, ap, ◌∙◌,
  arith, Bytes, if◌then◌else◌, Bool-cases, inl, inr, All, length, take, drop, append_assoc,
  length-append, take-length-append, drop-length-append,
}
use integration_suricata_n_d.Line.{indent_width}
use integration_suricata_n_d.Patch.Blocks.{
  is_key, goes_on, block_body, find_block, block_end, range_from, find_block_range,
}

-- The lines behind a block.
unfoldable pub block_rest : ℕ → List Bytes → List Bytes
block_rest base [] = []
block_rest base (l ∷ lines) = if goes_on base l then block_rest base lines else l ∷ lines

pub block_body-append-rest :
    (base : ℕ) (lines : List Bytes) → block_body base lines ++ block_rest base lines ≡ lines
unfolding block_body block_rest
block_body-append-rest base [] = refl
block_body-append-rest base (l ∷ lines) = ground (arith, block_body-append-rest base lines)

pub block_body_step :
    (base : ℕ) (l : Bytes) (lines : List Bytes)
    → block_body base (l ∷ lines) ≡ (if goes_on base l then l ∷ block_body base lines else [])
unfolding block_body
block_body_step base l lines = ground arith

pub block_body-All :
    (base : ℕ) (lines : List Bytes) → All (λ l. goes_on base l ≡ true) (block_body base lines)
block_body-All base [] = unfold block_body in tt
block_body-All base (l ∷ lines) = rw block_body_step (elim (Bool-cases (goes_on base l)) [
  | inl e ↦ rw e (e, block_body-All base lines)
  | inr e ↦ rw e tt
])

pub block_end_lem :
    (base : ℕ) (lines : List Bytes) (j : ℕ)
    → block_end base lines j ≡ j + length (block_body base lines)
unfolding block_end block_body
block_end_lem base [] j = omega arith
block_end_lem base (l ∷ lines) j = ground (arith, block_end_lem base lines (j + 1))

-- Where a key stands among the lines, with its block.
pub record BlockAt (lines : List Bytes) (key : Bytes) : Type 0 where
  pub before : List Bytes
  pub line : Bytes
  pub after : List Bytes
  pub lines_are : lines ≡ before ++ (line ∷ after)
  pub others_differ : All (λ l. is_key key l ≡ false) before
  pub is_it : is_key key line ≡ true

abbrev pub NotFound : List Bytes → Bytes → ℕ → Type 0
NotFound lines key i =
    (range_from lines key i ≡ none)
    × (find_block lines key ≡ none)
    × All (λ l. is_key key l ≡ false) lines

abbrev pub Found : List Bytes → Bytes → ℕ → Type 0
Found lines key i =
    (b : BlockAt lines key) × (range_from lines key i
      ≡ some (
        i + length b.before,
        i + length b.before + suc (length (block_body (indent_width b.line) b.after)),
        indent_width b.line,
      ))
    × (find_block lines key
        ≡ some (b.line ∷ block_body (indent_width b.line) b.after, indent_width b.line))

pub range_from-cases :
    (lines : List Bytes) (key : Bytes) (i : ℕ) → NotFound lines key i ⊎ Found lines key i
unfolding range_from find_block
range_from-cases [] key i = inl (refl, refl, tt)
range_from-cases (l ∷ lines) key i = elim (Bool-cases (is_key key l)) [
  | inl e ↦ inr (
    record {
      before = [];
      line = l;
      after = lines;
      lines_are = refl;
      others_differ = tt;
      is_it = e;
    },
    rw e (ground (arith, block_end_lem (indent_width l) lines (i + 1))),
    rw e refl,
  )
  | inr e ↦ elim (range_from-cases lines key (i + 1)) [
    | inl (r, f, o) ↦ inl (rw e r, rw e f, (e, o))
    | inr (b, r, f) ↦ inr (
      record {
        before = l ∷ b.before;
        line = b.line;
        after = b.after;
        lines_are = ap (◌∷◌ l) b.lines_are;
        others_differ = (e, b.others_differ);
        is_it = b.is_it;
      },
      rw e (ground (arith, r)),
      rw e f,
    )
  ]
]

-- `lines[start:end]` of what `findBlockRange` returns.
abbrev pub sliced : List Bytes → Option (ℕ × ℕ × ℕ) → Option (List Bytes × ℕ)
sliced lines none = none
sliced lines (some (start, end, base)) = some (drop start (take end lines), base)

-- The lines fall into those before the block, the block, and those behind it.
pub pieces_of :
    (lines : List Bytes) (key : Bytes) (b : BlockAt lines key)
    → let base = indent_width b.line in
      lines ≡ (b.before ++ (b.line ∷ block_body base b.after)) ++ block_rest base b.after
pieces_of lines key b =
    b.lines_are
    ∙ ap (λ (t : List Bytes). b.before ++ (b.line ∷ t))
        (sym (block_body-append-rest (indent_width b.line) b.after))
    ∙ sym (append_assoc b.before (b.line ∷ block_body (indent_width b.line) b.after) _)

-- How `findBlockRange` cuts the lines, in terms of those pieces.
pub range_cuts :
    (lines : List Bytes) (key : Bytes) (b : BlockAt lines key)
    → let base = indent_width b.line in
      let end = length b.before + suc (length (block_body base b.after)) in
      (take end lines ≡ b.before ++ (b.line ∷ block_body base b.after))
      × (drop end lines ≡ block_rest base b.after)
      × (take (length b.before) lines ≡ b.before)
range_cuts lines key b =
    let base = indent_width b.line in
    let front = b.before ++ (b.line ∷ block_body base b.after) in
    let size : length b.before + suc (length (block_body base b.after)) ≡ length front =
      sym (length-append b.before (b.line ∷ block_body base b.after)) in
    (
      rw size (
          ap (take (length front)) (pieces_of lines key b)
          ∙ take-length-append front (block_rest base b.after)),
      rw size (
          ap (drop (length front)) (pieces_of lines key b)
          ∙ drop-length-append front (block_rest base b.after)),
      ap (take (length b.before)) b.lines_are ∙ take-length-append b.before (b.line ∷ b.after),
    )

-- The lines between the start and the end that `findBlockRange` gives are the block that `findBlock` gives, with the same
-- indentation; and the two find nothing for the same lines.
pub find_block-find_block_range :
    (lines : List Bytes) (key : Bytes)
    → sliced lines (find_block_range lines key) ≡ find_block lines key
unfolding find_block_range
find_block-find_block_range lines key = elim (range_from-cases lines key 0) [
  | inl (r, f, o) ↦ rw (r, f)
  | inr (b, r, f) ↦
      let base = indent_width b.line in
      let (taken, dropped, start) = range_cuts lines key b in
      rw (r, f, add.zero)
        (ap (λ (t : List Bytes). some (drop (length b.before) t, base)) taken
          ∙ ap (λ (t : List Bytes). some (t, base))
              (drop-length-append b.before (b.line ∷ block_body base b.after)))
]
