-- ===== src/Patch/Kept.antt =====
-- The bytes of the lines that the patch makes: `integration/patch_suricata_config.go`.
use integration_suricata_n_d.Base.{
  ℕ, zero, suc, ◌+◌, Bool, false, some, Option-cases, List, [], ◌∷◌, ◌++◌, ◌≡◌, refl, sym, subst,
  arith, Bytes, codes, if◌then◌else◌, Bool-cases, inl, inr, All, ◌==◌,
}
use integration_suricata_n_d.Text.{has_prefix, trim_space, trim_prefix, trim_left_blank}
use integration_suricata_n_d.Text.Ascii.{
  IsAscii, All-append, All-of_append, trimmed, trim_space-trimmed,
}
use integration_suricata_n_d.Text.Blanks.{leading_blanks, leading_blanks-append-trim}
use integration_suricata_n_d.Text.Joined.{IsLine}
use integration_suricata_n_d.Line.{hash, is_commented, uncomment_line}
use integration_suricata_n_d.Line.Comment.{uncomment_line-behind_mark, behind_mark}
use integration_suricata_n_d.Line.Pieces.{trim_prefix-hash, trim_left_blank-All}
use integration_suricata_n_d.Patch.Blocks.{is_key, with_blank_end}
use integration_suricata_n_d.Patch.Plugins.{
  plugins, spaces, as_item, insert_at, scan_plugins, ensure_in_block, ensure_found,
  ensure_plugins_ndpi,
}
use integration_suricata_n_d.Patch.Whole.{with_blank_end-All}

module _ (Q : ℕ → Type 0) where
  -- Uncommenting a line leaves none but bytes of it.
  pub uncomment_line-All : (line : Bytes) → All Q line → All Q (uncomment_line line)
  uncomment_line-All line h = elim (Bool-cases (is_commented line)) [
    | inr e ↦ unfold uncomment_line in rw e h
    | inl e ↦
        let (front, back) =
          All-of_append Q (leading_blanks line) (trim_left_blank line)
            (subst (All Q) (sym (leading_blanks-append-trim line)) h) in
        let (a, p) = trim_prefix-hash (trim_left_blank line) in
        let rest =
          (All-of_append Q a (trim_prefix (trim_left_blank line) hash) (subst (All Q) p back)).1 in
        rw (uncomment_line-behind_mark line e) (
          All-append Q (leading_blanks line) (behind_mark line) front
            (trim_left_blank-All Q (trim_prefix (trim_left_blank line) hash) rest))
  ]

  pub trim_space-All : (line : Bytes) → IsAscii line → All Q line → All Q (trim_space line)
  trim_space-All line ascii h =
      let t = trimmed line in
      rw (trim_space-trimmed line ascii)
        (All-of_append Q t.core t.after
          (All-of_append Q t.before (t.core ++ t.after) (subst (All Q) t.splits h)).1).0

  scan_plugins-All :
      (indent : ℕ) (lines : List Bytes) (k : ℕ)
      → All (All Q) lines
      → All (All Q) (scan_plugins indent lines k).0
  unfolding scan_plugins
  scan_plugins-All indent [] k h = tt
  scan_plugins-All indent (l ∷ lines) k h =
      ground (arith, h, scan_plugins-All indent lines (k + 1) h.1, uncomment_line-All l h.0)

  insert_at-All :
      (n : ℕ) (l : Bytes) (lines : List Bytes)
      → All Q l
      → All (All Q) lines
      → All (All Q) (insert_at n l lines)
  unfolding insert_at
  insert_at-All zero l lines h hs = (h, hs)
  insert_at-All (suc n) l [] h hs = (h, tt)
  insert_at-All (suc n) l (m ∷ lines) h hs = (hs.0, insert_at-All n l lines h hs.1)

spaces-IsLine : (n : ℕ) → IsLine (spaces n)
unfolding spaces
spaces-IsLine zero = tt
spaces-IsLine (suc n) = ((refl, refl), spaces-IsLine n)

as_item-IsLine : (line : Bytes) → IsAscii line → IsLine line → IsLine (as_item line)
unfolding as_item
as_item-IsLine line ascii h =
    let trimmed_line =
      trim_space-All (λ c. ((c == b'\r') ≡ false) × ((c == b'\n') ≡ false)) line ascii h in
    elim (Bool-cases (has_prefix (trim_space (trim_space line)) (codes "-"))) [
      | inl e ↦ rw e trimmed_line
      | inr e ↦ rw e ((refl, refl), ((refl, refl), trimmed_line))
    ]

ensure_in_block-IsLine :
    (indent : ℕ) (item : Bytes) (lines : List Bytes)
    → IsLine item
    → All IsLine lines
    → All IsLine (ensure_in_block indent item lines).0
unfolding ensure_in_block
ensure_in_block-IsLine indent item lines i h =
    let after =
      scan_plugins-All (λ c. ((c == b'\r') ≡ false) × ((c == b'\n') ≡ false)) indent lines 0 h in
    elim (Option-cases (scan_plugins indent lines 0).2) [
      | inr (changed, e) ↦ rw (e, ensure_in_block) after
      | inl e ↦
          rw (e, ensure_in_block)
            (insert_at-All _ (scan_plugins indent lines 0).1 (spaces (indent + 2) ++ item)
              (scan_plugins indent lines 0).0
              (All-append _ (spaces (indent + 2)) item (spaces-IsLine (indent + 2)) i) after)
    ]

ensure_found-IsLine :
    (indent : ℕ) (item : Bytes) (lines result : List Bytes) (changed : Bool)
    → IsLine item
    → All IsLine lines
    → ensure_found indent item lines ≡ some (result, changed)
    → All IsLine result
unfolding ensure_found
ensure_found-IsLine indent item [] result changed i h e = absurd (ground (arith, e))
ensure_found-IsLine indent item (l ∷ lines) result changed i h e =
    elim (Bool-cases (is_key plugins l)) [
      | inl k ↦
          let first = if is_commented l then uncomment_line l else l in
          let block = ensure_in_block indent item lines in
          let is : first ∷ block.0 ≡ result = ground (arith, rw (k, ensure_found) at e) in
          subst (All IsLine) is (header_line l h.0, ensure_in_block-IsLine indent item lines i h.1)
      | inr k ↦ elim (Option-cases (ensure_found indent item lines)) [
        | inl n ↦ absurd (ground (arith, rw (n, ensure_found) at (rw (k, ensure_found) at e)))
        | inr ((after, c), f) ↦
            let is : l ∷ after ≡ result =
              ground (arith, rw (f, ensure_found) at (rw (k, ensure_found) at e)) in
            subst (All IsLine) is (h.0, ensure_found-IsLine indent item lines after c i h.1 f)
      ]
    ]
  where
    header_line : (l : Bytes) → IsLine l → IsLine (if is_commented l then uncomment_line l else l)
    header_line l h = elim (Bool-cases (is_commented l)) [
      | inl c ↦ rw c (uncomment_line-All (λ c. ((c == b'\r') ≡ false) × ((c == b'\n') ≡ false)) l h)
      | inr c ↦ rw c h
    ]

-- The plugin's step makes lines of lines.
pub ensure_plugins_ndpi-IsLine :
    (lines : List Bytes) (indent : ℕ) (line : Bytes)
    → All IsLine lines
    → IsAscii line
    → IsLine line
    → All IsLine (ensure_plugins_ndpi lines indent line).0
unfolding ensure_plugins_ndpi
ensure_plugins_ndpi-IsLine lines indent line h ascii i =
    let item = as_item-IsLine line ascii i in
    elim (Option-cases (ensure_found indent (as_item line) lines)) [
      | inr ((result, changed), e) ↦
          rw (e, ensure_plugins_ndpi)
            (ensure_found-IsLine indent (as_item line) lines result changed item h e)
      | inl e ↦
          rw (e, ensure_plugins_ndpi)
            (All-append IsLine (with_blank_end lines)
              (codes "plugins:" ∷ (codes "  " ++ as_item line) ∷ [])
              (with_blank_end-All IsLine lines tt h)
              (key_line_IsLine, (((refl, refl), ((refl, refl), item)), tt)))
    ]
  where
    key_line_IsLine : IsLine (codes "plugins:")
    key_line_IsLine = ground arith
