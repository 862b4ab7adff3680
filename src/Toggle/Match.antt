-- ===== src/Toggle/Match.antt =====
-- A line that names the plugin still does once it is commented or uncommented.
use integration_suricata_n_d.Base.{
  Bool, true, false, not, ◌&&◌, ◌||◌, [], ◌∷◌, ◌++◌, ◌≡◌, refl, ap, sym, ◌∙◌, subst, arith, Bytes,
  if◌then◌else◌, Bool-cases, inl, inr, append-nil, codes, bytes_eq, ◌<◌,
}
use integration_suricata_n_d.Text.{
  has_prefix, trim_prefix, contains, trim_space, trim_left_blank, is_ascii_space,
}
use integration_suricata_n_d.Text.Ascii.{
  IsAscii, AllSpace, IsCore, trimmed, trim_space_core, trim_space-trimmed, All-append,
  All-of_append,
}
use integration_suricata_n_d.Text.Blanks.{
  leading_blanks, leading_blanks-append-trim, leading_blanks-AllBlank,
}
use integration_suricata_n_d.Text.Inside.{contains-append_left, contains-append_right}
use integration_suricata_n_d.Sys.{base}
use integration_suricata_n_d.Line.{hash, is_commented, comment_line, uncomment_line}
use integration_suricata_n_d.Line.Comment.{
  comment_line_fresh, uncomment_line-behind_mark, is_commented-uncomment_line, behind_mark,
}
use integration_suricata_n_d.Line.Pieces.{
  searched, AllSpace-of_blank, trim_prefix-hash, trim_space_pieces, searched_marked, pieces-IsAscii,
  indent-IsAscii, trim_left_blank-solid, trim_left_blank-All, HasOneMark, first_not_hash,
  trim_prefix_none, has_prefix_first, behind_mark_lem, hash_front,
}
use integration_suricata_n_d.Toggle.{match_ndpi_plugin_line}

-- Its test of that text.
abbrev pub names_plugin : Bytes → Bytes → Bool
names_plugin s plugin =
    if not (contains s (codes "-"))
    then false
    else contains s plugin || (not (bytes_eq (base plugin) []) && contains s (base plugin))

match_lem :
    (line plugin : Bytes) → match_ndpi_plugin_line line plugin ≡ names_plugin (searched line) plugin
unfolding match_ndpi_plugin_line
match_lem line plugin = refl

-- What a part of the text names, the text names.
names_plugin_around :
    (a s b plugin : Bytes)
    → names_plugin s plugin ≡ true
    → names_plugin (a ++ (s ++ b)) plugin ≡ true
names_plugin_around a s b plugin h =
    ground (arith, around (codes "-"), around plugin, around (base plugin))
  where
    around : (p : Bytes) → contains s p ≡ true → contains (a ++ (s ++ b)) p ≡ true
    around p k = contains-append_left a (s ++ b) p (contains-append_right s b p k)

names_plugin-nil : (plugin : Bytes) → names_plugin [] plugin ≡ true → ⊥
unfolding contains has_prefix
names_plugin-nil plugin h = cc

names_part :
    (core plugin : Bytes)
    → IsAscii core
    → names_plugin (trim_space (trim_prefix core hash)) plugin ≡ true
    → names_plugin core plugin ≡ true
names_part core plugin ascii h =
    let (a, e) = trim_prefix-hash core in
    let t = trim_prefix core hash in
    let T = trimmed t in
    let t_ascii : IsAscii t = (All-of_append (λ c. c < 128) a t (subst IsAscii e ascii)).1 in
    let inner : names_plugin T.core plugin ≡ true =
      subst (λ s. names_plugin s plugin ≡ true) (trim_space-trimmed t t_ascii) h in
    let whole : names_plugin t plugin ≡ true =
      subst (λ s. names_plugin s plugin ≡ true) (sym T.splits)
        (names_plugin_around T.before T.core T.after plugin inner) in
    subst (λ s. names_plugin s plugin ≡ true) (ap (◌++◌ a) (append-nil t) ∙ sym e)
      (names_plugin_around a t [] plugin whole)

NamesPluginAt : Bytes → Bytes → Bytes → Type 0
NamesPluginAt plugin s t = names_plugin s plugin ≡ true → names_plugin t plugin ≡ true

-- A line with nothing but white space names no plugin.
names_plugin_blank :
    (ind a b plugin : Bytes)
    → AllSpace ind
    → AllSpace a
    → AllSpace b
    → IsAscii ind
    → IsAscii a
    → IsAscii b
    → names_plugin (searched (ind ++ (a ++ b))) plugin ≡ true
    → ⊥
unfolding trim_space trim_prefix has_prefix
names_plugin_blank ind a b plugin si sa sb ai aa ab h = names_plugin-nil plugin (
    subst (λ s. names_plugin (trim_space (trim_prefix s hash)) plugin ≡ true)
      (trim_space_pieces ind a b si sa sb ai aa ab [] tt (tt, tt)) h)

match_pieces_comment :
    (ind a core b plugin : Bytes)
    → AllSpace ind × AllSpace a × AllSpace b × IsCore core
    → IsAscii ind × IsAscii a × IsAscii core × IsAscii b
    → names_plugin (searched (ind ++ (a ++ (core ++ b)))) plugin ≡ true
    → names_plugin (searched (ind ++ (codes "# " ++ (a ++ (core ++ b))))) plugin ≡ true
match_pieces_comment ind a [] b plugin (si, sa, sb, sc) (ai, aa, ac, ab) h =
    absurd (names_plugin_blank ind a b plugin si sa sb ai aa ab h)
match_pieces_comment ind a (c ∷ k) b plugin (si, sa, sb, sc) (ai, aa, ac, ab) h =
    subst (λ s. names_plugin s plugin ≡ true)
      (sym (
        searched_marked ind (b' ' ∷ a) b si (unfold is_ascii_space in (refl, sa)) sb ai
          (omega arith, aa) ab c k ac sc))
      (names_part (c ∷ k) plugin ac (
        subst (λ s. names_plugin (trim_space (trim_prefix s hash)) plugin ≡ true)
          (trim_space_pieces ind a b si sa sb ai aa ab (c ∷ k) ac sc) h))

-- Commenting a line that names the plugin leaves a line that names it.
pub match-comment_line :
    (line plugin : Bytes)
    → IsAscii line
    → match_ndpi_plugin_line line plugin ≡ true
    → match_ndpi_plugin_line (comment_line line) plugin ≡ true
match-comment_line line plugin ascii h = elim (Bool-cases (is_commented line)) [
  | inl e ↦ unfold comment_line in rw e h
  | inr e ↦
      let ind = leading_blanks line in
      let rest = trim_left_blank line in
      let t = trimmed rest in
      let (ai, ar) = indent-IsAscii line ascii in
      let (aa, ac, ab) = pieces-IsAscii rest t ar in
      let whole : line ≡ ind ++ (t.before ++ (t.core ++ t.after)) =
        sym (leading_blanks-append-trim line) ∙ ap (◌++◌ ind) t.splits in
      let named : names_plugin (searched line) plugin ≡ true = sym (match_lem line plugin) ∙ h in
      match_lem (comment_line line) plugin
      ∙ ap (λ s. names_plugin (searched s) plugin)
          (comment_line_fresh line e ∙ ap (λ s. ind ++ (codes "# " ++ s)) t.splits)
      ∙ match_pieces_comment ind t.before t.core t.after plugin
          (
            AllSpace-of_blank ind (leading_blanks-AllBlank line),
            t.before_space,
            t.after_space,
            t.core_solid,
          )
          (ai, aa, ac, ab) (subst (λ s. names_plugin (searched s) plugin ≡ true) whole named)
]

mark_alone :
    (ind s plugin : Bytes)
    → AllSpace ind
    → AllSpace s
    → IsAscii ind
    → IsAscii s
    → names_plugin (searched (ind ++ (b'#' ∷ s))) plugin ≡ true
    → ⊥
unfolding trim_prefix has_prefix trim_space is_ascii_space
mark_alone ind s plugin hi hs ai as' h = names_plugin-nil plugin (
    subst (λ t. names_plugin (trim_space (trim_prefix t hash)) plugin ≡ true)
      (trim_space_core ind (b'#' ∷ []) s (All-append _ ind _ ai (omega arith, as')) hi hs
        (refl, refl))
      h)

-- What uncommenting makes of the pieces behind the mark.
match_pieces_uncomment :
    (ind a core b plugin : Bytes)
    → AllSpace ind × AllSpace a × AllSpace b × IsCore core
    → IsAscii ind × IsAscii a × IsAscii core × IsAscii b
    → HasOneMark (ind ++ (b'#' ∷ (a ++ (core ++ b))))
    → names_plugin (searched (ind ++ (b'#' ∷ (a ++ (core ++ b))))) plugin ≡ true
    → (names_plugin (searched (ind ++ trim_left_blank (a ++ (core ++ b)))) plugin ≡ true)
      × (has_prefix (trim_left_blank (a ++ (core ++ b))) hash ≡ false)
match_pieces_uncomment ind a [] b plugin (si, sa, sb, sc) (ai, aa, ac, ab) one h =
    absurd
      (mark_alone ind (a ++ b) plugin si (All-append _ a b sa sb) ai (All-append _ a b aa ab) h)
match_pieces_uncomment ind a (c ∷ k) b plugin (si, sa, sb, sc) (ai, aa, ac, ab) one h =
    let a' = trim_left_blank a in
    let found = searched_marked ind a b si sa sb ai aa ab c k ac sc in
    let named : names_plugin (c ∷ k) plugin ≡ true =
      subst (λ s. names_plugin s plugin ≡ true) found h in
    let plain : has_prefix (c ∷ k) hash ≡ false =
      subst (λ s. has_prefix s hash ≡ false) found one in
    let cut : trim_left_blank (a ++ ((c ∷ k) ++ b)) ≡ a' ++ ((c ∷ k) ++ b) =
      trim_left_blank-solid a c (k ++ b) sc.0 in
    let now : searched (ind ++ (a' ++ ((c ∷ k) ++ b))) ≡ c ∷ k =
      ap (λ s. trim_space (trim_prefix s hash))
        (trim_space_pieces ind a' b si (trim_left_blank-All _ a sa) sb ai
          (trim_left_blank-All _ a aa) ab (c ∷ k) ac sc)
      ∙ ap trim_space (trim_prefix_none c k plain)
      ∙ ap trim_space (sym (append-nil (c ∷ k)))
      ∙ trim_space_core [] (c ∷ k) [] (subst IsAscii (sym (append-nil (c ∷ k))) ac) tt tt sc in
    (
      rw cut (subst (λ s. names_plugin s plugin ≡ true) (sym now) named),
      rw cut
          (first_not_hash a' c (k ++ b) (trim_left_blank-All _ a sa) (has_prefix_first c k plain)),
    )

-- Uncommenting a line with one mark that names the plugin leaves a line that names it and is not commented.
pub match-uncomment_line :
    (line plugin : Bytes)
    → IsAscii line
    → is_commented line ≡ true
    → HasOneMark line
    → match_ndpi_plugin_line line plugin ≡ true
    → (match_ndpi_plugin_line (uncomment_line line) plugin ≡ true)
      × (is_commented (uncomment_line line) ≡ false)
match-uncomment_line line plugin ascii e one h =
    let ind = leading_blanks line in
    let (y, front) = hash_front line e in
    let t = trimmed y in
    let (ai, ar) = indent-IsAscii line ascii in
    let ay : IsAscii y = (subst IsAscii front ar).1 in
    let (aa, ac, ab) = pieces-IsAscii y t ay in
    let whole : line ≡ ind ++ (b'#' ∷ (t.before ++ (t.core ++ t.after))) =
      sym (leading_blanks-append-trim line) ∙ ap (◌++◌ ind) (front ∙ ap (◌∷◌ b'#') t.splits) in
    let rest : behind_mark line ≡ trim_left_blank (t.before ++ (t.core ++ t.after)) =
      behind_mark_lem line y front ∙ ap trim_left_blank t.splits in
    let (named, plain) =
      match_pieces_uncomment ind t.before t.core t.after plugin
        (
          AllSpace-of_blank ind (leading_blanks-AllBlank line),
          t.before_space,
          t.after_space,
          t.core_solid,
        )
        (ai, aa, ac, ab) (subst HasOneMark whole one)
        (subst (λ s. names_plugin (searched s) plugin ≡ true) whole
          (sym (match_lem line plugin) ∙ h)) in
    (
      match_lem (uncomment_line line) plugin
          ∙ ap (λ s. names_plugin (searched s) plugin)
              (uncomment_line-behind_mark line e ∙ ap (◌++◌ ind) rest)
          ∙ named,
      is_commented-uncomment_line line ∙ rw (e, rest) plain,
    )
