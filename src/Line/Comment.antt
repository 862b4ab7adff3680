-- ===== src/Line/Comment.antt =====
-- What commenting and uncommenting do to a line.
use integration_suricata_n_d.Base.{
  true, false, ◌&&◌, [], ◌∷◌, ◌++◌, ◌≡◌, refl, ap, sym, ◌∙◌, arith, Bytes, Bool-cases, inl, inr,
  codes, length,
}
use integration_suricata_n_d.Text.{has_prefix, trim_prefix, trim_left_blank}
use integration_suricata_n_d.Text.Blanks.{
  leading_blanks, AllBlank, StartsInk, leading_blanks-append-trim, leading_blanks-AllBlank,
  trim_left_blank-StartsInk, trim_left_blank-append, take-trim_left_blank,
}
use integration_suricata_n_d.Line.{
  hash, is_commented, indent, comment_line, uncomment_line, indent_width,
}

pub indent_lem : (line : Bytes) → indent line ≡ leading_blanks line
unfolding indent
indent_lem line = take-trim_left_blank line

pub leading_blanks-append : (b s : Bytes) → AllBlank b → StartsInk s → leading_blanks (b ++ s) ≡ b
unfolding leading_blanks
leading_blanks-append [] [] h i = refl
leading_blanks-append [] (c ∷ s) h i = rw i
leading_blanks-append (c ∷ b) s h i = rw h.0 (ap (◌∷◌ c) (leading_blanks-append b s h.1 i))

pub is_commented-append :
    (b s : Bytes) → AllBlank b → StartsInk s → is_commented (b ++ s) ≡ has_prefix s hash
unfolding is_commented
is_commented-append b s blank ink = rw (trim_left_blank-append b s blank ink)

pub comment_line_fresh :
    (line : Bytes)
    → is_commented line ≡ false
    → comment_line line ≡ leading_blanks line ++ (codes "# " ++ trim_left_blank line)
unfolding comment_line
comment_line_fresh line h = rw h (rw indent_lem)

-- A commented line is commented, whatever it was before.
pub is_commented-comment_line : (line : Bytes) → is_commented (comment_line line) ≡ true
is_commented-comment_line line = elim (Bool-cases (is_commented line)) [
  | inl e ↦ unfold comment_line in rw e e
  | inr e ↦ rw (comment_line_fresh line e) (
      is_commented-append (leading_blanks line) _ (leading_blanks-AllBlank line) refl
      ∙ unfold has_prefix in refl)
]

uncomment_line_commented :
    (line s : Bytes)
    → trim_left_blank line ≡ b'#' ∷ s
    → uncomment_line line ≡ leading_blanks line ++ trim_left_blank s
unfolding uncomment_line
uncomment_line_commented line s h = rw (take-trim_left_blank line, h)

-- Commenting a line and uncommenting it gives the line back, byte for byte.
pub uncomment_line-comment_line :
    (line : Bytes) → is_commented line ≡ false → uncomment_line (comment_line line) ≡ line
uncomment_line-comment_line line h =
    let b = leading_blanks line in
    let rest = trim_left_blank line in
    let blank = leading_blanks-AllBlank line in
    rw (comment_line_fresh line h) (
      uncomment_line_commented (b ++ (codes "# " ++ rest)) (b' ' ∷ rest)
        (trim_left_blank-append b (codes "# " ++ rest) blank refl)
      ∙ ap (λ t. t ++ trim_left_blank (b' ' ∷ rest))
          (leading_blanks-append b (codes "# " ++ rest) blank refl)
      ∙ ap (λ t. b ++ t)
          (trim_left_blank-append (b' ' ∷ []) rest (refl, tt) (trim_left_blank-StartsInk line))
      ∙ leading_blanks-append-trim line)

-- What stands behind the first comment mark of a line, with the blanks around the mark gone.
abbrev pub behind_mark : Bytes → Bytes
behind_mark line = trim_left_blank (trim_prefix (trim_left_blank line) hash)

pub uncomment_line-behind_mark :
    (line : Bytes)
    → is_commented line ≡ true
    → uncomment_line line ≡ leading_blanks line ++ behind_mark line
unfolding uncomment_line
uncomment_line-behind_mark line h = rw h (rw (take-trim_left_blank line))

-- A line stays commented only where a second mark follows the first.
pub is_commented-uncomment_line :
    (line : Bytes)
    → is_commented (uncomment_line line) ≡ (is_commented line && has_prefix (behind_mark line) hash)
is_commented-uncomment_line line = elim (Bool-cases (is_commented line)) [
  | inl e ↦
      rw (uncomment_line-behind_mark line e, e)
        (is_commented-append (leading_blanks line) (behind_mark line) (leading_blanks-AllBlank line)
          (trim_left_blank-StartsInk _))
  | inr e ↦ rw e (unfold uncomment_line in rw e e)
]

pub indent_width-leading_blanks : (s : Bytes) → indent_width s ≡ length (leading_blanks s)
unfolding indent_width leading_blanks
indent_width-leading_blanks [] = refl
indent_width-leading_blanks (c ∷ s) = ground (arith, indent_width-leading_blanks s)

-- Uncommenting keeps the indentation.
pub indent_width-uncomment_line :
    (line : Bytes) → indent_width (uncomment_line line) ≡ indent_width line
indent_width-uncomment_line line = elim (Bool-cases (is_commented line)) [
  | inl e ↦
      rw (uncomment_line-behind_mark line e, indent_width-leading_blanks)
        (ap length (
            leading_blanks-append (leading_blanks line) (behind_mark line)
              (leading_blanks-AllBlank line) (trim_left_blank-StartsInk _))
          ∙ sym (indent_width-leading_blanks line))
  | inr e ↦ unfold uncomment_line in rw e
]
