-- ===== src/Patch/Listed.antt =====
-- The plugin under its key after `ensurePluginsNDPI`: `integration/patch_suricata_config.go`.
use integration_suricata_n_d.Base.{
  ℕ, ◌+◌, ◌<◌, Bool, true, false, Option, none, some, List, [], ◌∷◌, ◌++◌, ◌≡◌, ◌⊎◌, refl, ap, sym,
  ◌∙◌, subst, arith, Bytes, length, if◌then◌else◌, Bool-cases, inl, inr, All, bytes_eq,
  bytes_eq_iff,
}
use integration_suricata_n_d.Text.{has_prefix, contains}
use integration_suricata_n_d.Text.Ascii.{IsAscii, All-of_append}
use integration_suricata_n_d.Line.{hash, is_commented, uncomment_line, normalize_key, indent_width}
use integration_suricata_n_d.Line.Comment.{indent_width-uncomment_line}
use integration_suricata_n_d.Line.Pieces.{HasOneMark}
use integration_suricata_n_d.Line.Key.{normalize_key-uncomment_line, normalize_key-HasOneMark}
use integration_suricata_n_d.Patch.Blocks.{is_key, key_line}
use integration_suricata_n_d.Patch.Plugins.{
  plugins, ndpi_so, names_ndpi, spaces, insert_at, ensure_in_block, ensure_found,
}
use integration_suricata_n_d.Patch.Item.{IsItem, spaces-item}
use integration_suricata_n_d.Patch.Plain.{
  IsListed, NamesPlainly, Names, insert_at-length, scan_plugins-cases,
}

-- An ASCII line that does not name the plugin behind two comment marks.
abbrev pub IsSimple : Bytes → Type 0
IsSimple l = IsAscii l × (names_ndpi l ≡ true → HasOneMark l)

-- A line that names the plugin still does when it is made plain.
uncommented-Names :
    (indent : ℕ) (l : Bytes)
    → IsSimple l
    → names_ndpi l ≡ true
    → indent < indent_width l
    → Names indent (if is_commented l then uncomment_line l else l)
uncommented-Names indent l simple n w = elim (Bool-cases (is_commented l)) [
  | inr c ↦ rw c (n, c, w)
  | inl c ↦
      let (same, plain) = normalize_key-uncomment_line l simple.0 c (simple.1 n) in
      rw c (
        ap (λ k. contains k ndpi_so) same ∙ n,
        plain,
        subst (λ k. indent < k) (sym (indent_width-uncomment_line l)) w,
      )
]

-- The key's line stays one when it is made plain.
uncommented_header :
    (l : Bytes)
    → IsAscii l
    → is_key plugins l ≡ true
    → (is_key plugins (if is_commented l then uncomment_line l else l) ≡ true)
      × (is_commented (if is_commented l then uncomment_line l else l) ≡ false)
uncommented_header l ascii k = elim (Bool-cases (is_commented l)) [
  | inr c ↦ rw c (k, c)
  | inl c ↦
      let key : normalize_key l ≡ key_line plugins =
        (bytes_eq_iff (normalize_key l) (key_line plugins)).0 k in
      let one =
        normalize_key-HasOneMark l ascii
          (ap (λ s. has_prefix s hash) key ∙ unfold has_prefix in refl) in
      let (same, plain) = normalize_key-uncomment_line l ascii c one in
      rw c (ap (λ s. bytes_eq s (key_line plugins)) same ∙ k, plain)
]

ensure_in_block-IsListed :
    (indent : ℕ) (item : Bytes) (lines : List Bytes)
    → IsItem item
    → All IsSimple lines
    → IsListed indent (ensure_in_block indent item lines).0
unfolding ensure_in_block
ensure_in_block-IsListed indent item lines i simple = elim (scan_plugins-cases indent lines 0) [
  | inl (skipped, plugin, rest, a, p, n, w, s, f) ↦
      let own : IsSimple plugin =
        (All-of_append IsSimple skipped (plugin ∷ rest) (subst (All IsSimple) a simple)).1.0 in
      rw (f, ensure_in_block)
        (record {
          skipped = skipped;
          plugin = if is_commented plugin then uncomment_line plugin else plugin;
          rest = rest;
          lines_are = s;
          passed = p;
          names = uncommented-Names indent plugin own n w;
        })
  | inr (skipped, rest, a, p, s) ↦
      let new = spaces (indent + 2) ++ item in
      let (n, c, w) = spaces-item (indent + 2) item i in
      let count : 0 + length skipped ≡ length skipped = omega arith in
      rw (s, ensure_in_block)
        (record {
          skipped = skipped;
          plugin = new;
          rest = rest;
          lines_are =
              ap (λ (r : List Bytes × ℕ × Option Bool). insert_at r.1 new r.0) s
              ∙ (ap (λ m. insert_at m new lines) count
                  ∙ (ap (insert_at (length skipped) new) a ∙ insert_at-length skipped new rest));
          passed = p;
          names = (n, c, omega (arith, w));
        })
]

-- What the search for the key's line gives.
abbrev pub FoundOrNone : ℕ → Bytes → List Bytes → Type 0
FoundOrNone indent item lines =
    ((ensure_found indent item lines ≡ none) × All (λ l. is_key plugins l ≡ false) lines)
    ⊎ ((result : List Bytes) × (changed : Bool) × (ensure_found indent item lines
          ≡ some (result, changed))
        × NamesPlainly indent result)

NamesPlainly-behind :
    (indent : ℕ) (l : Bytes) (lines : List Bytes)
    → is_key plugins l ≡ false
    → NamesPlainly indent lines
    → NamesPlainly indent (l ∷ lines)
NamesPlainly-behind indent l lines k h = record {
  before = l ∷ h.before;
  header = h.header;
  after = h.after;
  lines_are = ap (◌∷◌ l) h.lines_are;
  others_differ = (k, h.others_differ);
  is_header = h.is_header;
  plain = h.plain;
  listed = h.listed;
}

pub ensure_found-FoundOrNone :
    (indent : ℕ) (item : Bytes) (lines : List Bytes)
    → IsItem item
    → All IsSimple lines
    → FoundOrNone indent item lines
unfolding ensure_found
ensure_found-FoundOrNone indent item [] i simple = inl (refl, tt)
ensure_found-FoundOrNone indent item (l ∷ lines) i simple = elim (Bool-cases (is_key plugins l)) [
  | inl k ↦
      let (header, plain) = uncommented_header l simple.0.0 k in
      let block = ensure_in_block indent item lines in
      inr (
        (if is_commented l then uncomment_line l else l) ∷ block.0,
        block.1,
        rw (k, ensure_found) refl,
        record {
          before = [];
          header = if is_commented l then uncomment_line l else l;
          after = block.0;
          lines_are = refl;
          others_differ = tt;
          is_header = header;
          plain = plain;
          listed = ensure_in_block-IsListed indent item lines i simple.1;
        },
      )
  | inr k ↦ elim (ensure_found-FoundOrNone indent item lines i simple.1) [
    | inl (n, o) ↦ inl (rw (k, ensure_found) (rw (n, ensure_found) refl), (k, o))
    | inr (result, changed, e, h) ↦ inr (
      l ∷ result,
      changed,
      rw (k, ensure_found) (rw (e, ensure_found) refl),
      NamesPlainly-behind indent l result k h,
    )
  ]
]
