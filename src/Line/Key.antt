-- ===== src/Line/Key.antt =====
-- What `normalizeKey` makes of a line once it is uncommented.
use integration_suricata_n_d.Base.{
  Bool-cases, inl, inr, true, false, [], ◌∷◌, ◌++◌, ◌≡◌, refl, ap, sym, ◌∙◌, subst, arith, Bytes,
  if◌then◌else◌, append-nil,
}
use integration_suricata_n_d.Text.{
  has_prefix, trim_prefix, trim_space, trim_left_blank, is_ascii_space,
}
use integration_suricata_n_d.Text.Ascii.{
  IsAscii, AllSpace, IsCore, trimmed, trim_space-trimmed, trim_space_core, All-append,
  All-of_append,
}
use integration_suricata_n_d.Text.Blanks.{
  leading_blanks, leading_blanks-append-trim, leading_blanks-AllBlank,
}
use integration_suricata_n_d.Line.{hash, is_commented, uncomment_line, normalize_key}
use integration_suricata_n_d.Line.Comment.{
  uncomment_line-behind_mark, is_commented-uncomment_line, behind_mark,
}
use integration_suricata_n_d.Line.Pieces.{
  searched, AllSpace-of_blank, trim_space_pieces, trim_space_marked, searched_marked,
  pieces-IsAscii, indent-IsAscii, trim_left_blank-solid, trim_left_blank-All, HasOneMark,
  first_not_hash, has_prefix_first, behind_mark_lem, hash_front, trim_prefix-hash,
}

pub normalize_plain :
    (line t : Bytes) → trim_space line ≡ t → has_prefix t hash ≡ false → normalize_key line ≡ t
unfolding normalize_key
normalize_plain line t e h = rw (e, h)

normalize_key_lem :
    (line : Bytes)
    → normalize_key line
      ≡ (if has_prefix (trim_space line) hash then searched line else trim_space line)
unfolding normalize_key
normalize_key_lem line = refl

pub normalize_marked :
    (line t : Bytes)
    → trim_space line ≡ t
    → has_prefix t hash ≡ true
    → normalize_key line ≡ searched line
normalize_marked line t e h =
    let marked : has_prefix (trim_space line) hash ≡ true = ap (λ s. has_prefix s hash) e ∙ h in
    normalize_key_lem line ∙ rw marked refl

not_hash : (s : Bytes) → AllSpace s → has_prefix s hash ≡ false
unfolding has_prefix is_ascii_space
not_hash [] h = refl
not_hash (x ∷ s) h = ground arith

-- What uncommenting makes of the pieces behind the mark.
normalize_pieces :
    (ind a core b : Bytes)
    → AllSpace ind × AllSpace a × AllSpace b × IsCore core
    → IsAscii ind × IsAscii a × IsAscii core × IsAscii b
    → HasOneMark (ind ++ (b'#' ∷ (a ++ (core ++ b))))
    → (normalize_key (ind ++ trim_left_blank (a ++ (core ++ b)))
        ≡ normalize_key (ind ++ (b'#' ∷ (a ++ (core ++ b)))))
      × (has_prefix (trim_left_blank (a ++ (core ++ b))) hash ≡ false)
normalize_pieces ind a [] b (si, sa, sb, sc) (ai, aa, ac, ab) one =
    let rest = trim_left_blank (a ++ b) in
    let spaces : AllSpace rest = trim_left_blank-All _ (a ++ b) (All-append _ a b sa sb) in
    let ascii : IsAscii rest = trim_left_blank-All _ (a ++ b) (All-append _ a b aa ab) in
    let marked =
      trim_space_core ind (b'#' ∷ []) (a ++ b)
        (All-append _ ind _ ai (omega arith, All-append _ a b aa ab)) si (All-append _ a b sa sb)
        (unfold is_ascii_space in (refl, refl)) in
    let before : normalize_key (ind ++ (b'#' ∷ (a ++ b))) ≡ [] =
      normalize_marked (ind ++ (b'#' ∷ (a ++ b))) (b'#' ∷ []) marked (unfold has_prefix in refl)
      ∙ ap (λ s. trim_space (trim_prefix s hash)) marked
      ∙ unfold trim_prefix in unfold has_prefix in unfold trim_space in refl in
    let after : normalize_key (ind ++ rest) ≡ [] =
      normalize_plain (ind ++ rest) []
        (trim_space_core ind [] rest (All-append _ ind rest ai ascii) si spaces (tt, tt))
        (unfold has_prefix in refl) in
    (after ∙ sym before, not_hash rest spaces)
normalize_pieces ind a (c ∷ k) b (si, sa, sb, sc) (ai, aa, ac, ab) one =
    let a' = trim_left_blank a in
    let found = searched_marked ind a b si sa sb ai aa ab c k ac sc in
    let plain : has_prefix (c ∷ k) hash ≡ false =
      subst (λ s. has_prefix s hash ≡ false) found one in
    let cut : trim_left_blank (a ++ ((c ∷ k) ++ b)) ≡ a' ++ ((c ∷ k) ++ b) =
      trim_left_blank-solid a c (k ++ b) sc.0 in
    let before =
      normalize_marked (ind ++ (b'#' ∷ (a ++ ((c ∷ k) ++ b)))) (b'#' ∷ (a ++ (c ∷ k)))
        (trim_space_marked ind a b si sa sb ai aa ab c k ac sc) (unfold has_prefix in refl) in
    let after =
      normalize_plain (ind ++ (a' ++ ((c ∷ k) ++ b))) (c ∷ k)
        (trim_space_pieces ind a' b si (trim_left_blank-All _ a sa) sb ai
          (trim_left_blank-All _ a aa) ab (c ∷ k) ac sc)
        plain in
    (
      ap (λ s. normalize_key (ind ++ s)) cut ∙ (after ∙ (sym found ∙ sym before)),
      rw cut
          (first_not_hash a' c (k ++ b) (trim_left_blank-All _ a sa) (has_prefix_first c k plain)),
    )

-- Uncommenting an ASCII line with one mark keeps its key, and leaves a line that is not commented.
pub normalize_key-uncomment_line :
    (line : Bytes)
    → IsAscii line
    → is_commented line ≡ true
    → HasOneMark line
    → (normalize_key (uncomment_line line) ≡ normalize_key line)
      × (is_commented (uncomment_line line) ≡ false)
normalize_key-uncomment_line line ascii e one =
    let ind = leading_blanks line in
    let (y, front) = hash_front line e in
    let t = trimmed y in
    let (ai, ar) = indent-IsAscii line ascii in
    let ay : IsAscii y = (subst IsAscii front ar).1 in
    let (aa, ac, ab) = pieces-IsAscii y t ay in
    let whole : line ≡ ind ++ (b'#' ∷ (t.before ++ (t.core ++ t.after))) =
      sym (leading_blanks-append-trim line) ∙ ap (◌++◌ ind) (front ∙ ap (◌∷◌ b'#') t.splits) in
    let rest : behind_mark line ≡ trim_left_blank (t.before ++ (t.core ++ t.after)) =
      behind_mark_lem line y front ∙ ap trim_left_blank t.splits in
    let (same, plain) =
      normalize_pieces ind t.before t.core t.after
        (
          AllSpace-of_blank ind (leading_blanks-AllBlank line),
          t.before_space,
          t.after_space,
          t.core_solid,
        )
        (ai, aa, ac, ab) (subst HasOneMark whole one) in
    (
      ap normalize_key (uncomment_line-behind_mark line e ∙ ap (◌++◌ ind) rest)
          ∙ (same ∙ ap normalize_key (sym whole)),
      is_commented-uncomment_line line ∙ rw (e, rest) plain,
    )

trim_prefix_same : (s : Bytes) → has_prefix s hash ≡ false → trim_prefix s hash ≡ s
unfolding trim_prefix
trim_prefix_same s h = rw h

pub trim_space_idem : (s : Bytes) → IsAscii s → trim_space (trim_space s) ≡ trim_space s
trim_space_idem s ascii =
    let t = trimmed s in
    let core_ascii = (pieces-IsAscii s t ascii).1 in
    ap trim_space (trim_space-trimmed s ascii ∙ sym (append-nil t.core))
    ∙ (trim_space_core [] t.core [] (subst IsAscii (sym (append-nil t.core)) core_ascii) tt tt
          t.core_solid
        ∙ sym (trim_space-trimmed s ascii))

-- An ASCII line whose key begins with no mark has one mark.
pub normalize_key-HasOneMark :
    (line : Bytes) → IsAscii line → has_prefix (normalize_key line) hash ≡ false → HasOneMark line
normalize_key-HasOneMark line ascii h = elim (Bool-cases (has_prefix (trim_space line) hash)) [
  | inl m ↦ ap (λ s. has_prefix s hash) (sym (normalize_marked line (trim_space line) refl m)) ∙ h
  | inr n ↦
      ap (λ s. has_prefix (trim_space s) hash) (trim_prefix_same (trim_space line) n)
      ∙ (ap (λ s. has_prefix s hash) (trim_space_idem line ascii) ∙ n)
]

-- An ASCII line with no second mark has a key that begins with none.
pub HasOneMark-key : (line : Bytes) → HasOneMark line → has_prefix (normalize_key line) hash ≡ false
HasOneMark-key line one = elim (Bool-cases (has_prefix (trim_space line) hash)) [
  | inl m ↦ ap (λ s. has_prefix s hash) (normalize_marked line (trim_space line) refl m) ∙ one
  | inr n ↦ ap (λ s. has_prefix s hash) (normalize_plain line (trim_space line) refl n) ∙ n
]

-- The key of a line is that of its trimmed text.
pub normalize_key-trim_space :
    (line : Bytes) → IsAscii line → normalize_key (trim_space line) ≡ normalize_key line
normalize_key-trim_space line ascii =
    normalize_key_lem (trim_space line)
    ∙ (ap (λ t. if has_prefix t hash then trim_space (trim_prefix t hash) else t)
          (trim_space_idem line ascii)
        ∙ sym (normalize_key_lem line))

uncomment_line-IsAscii :
    (line : Bytes) → IsAscii line → is_commented line ≡ true → IsAscii (uncomment_line line)
uncomment_line-IsAscii line ascii e =
    let (ai, ar) = indent-IsAscii line ascii in
    let (a, p) = trim_prefix-hash (trim_left_blank line) in
    let rest : IsAscii (trim_prefix (trim_left_blank line) hash) =
      (All-of_append _ a (trim_prefix (trim_left_blank line) hash) (subst IsAscii p ar)).1 in
    rw (uncomment_line-behind_mark line e) (
      All-append _ (leading_blanks line) (behind_mark line) ai
        (trim_left_blank-All _ (trim_prefix (trim_left_blank line) hash) rest))

-- An ASCII line with no second comment mark.
abbrev pub IsNormal : Bytes → Type 0
IsNormal line = IsAscii line × HasOneMark line

-- Such a line is one still when it is made plain.
pub uncommented-IsNormal :
    (line : Bytes)
    → IsNormal line
    → IsNormal (if is_commented line then uncomment_line line else line)
uncommented-IsNormal line h = elim (Bool-cases (is_commented line)) [
  | inr c ↦ rw c h
  | inl c ↦
      let ascii = uncomment_line-IsAscii line h.0 c in
      let (same, plain) = normalize_key-uncomment_line line h.0 c h.1 in
      rw c (
        ascii,
        normalize_key-HasOneMark (uncomment_line line) ascii
            (ap (λ s. has_prefix s hash) same ∙ HasOneMark-key line h.1),
      )
]
