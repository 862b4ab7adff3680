-- ===== src/Patch/Written.antt =====
-- The text that `PatchSuricataConfigFromTemplate` makes: `integration/patch_suricata_config.go`.
use integration_suricata_n_d.Base.{
  ℕ, ◌≤◌, Bool, some, Option-cases, List, [], ◌∷◌, ◌++◌, ◌≡◌, refl, ap, sym, ◌∙◌, subst, arith,
  Bytes, if◌then◌else◌, Bool-cases, inl, inr, All, append_assoc,
}
use integration_suricata_n_d.Text.{trim_space, split, join, end_line}
use integration_suricata_n_d.Text.Joined.{
  NoReturn, IsLine, replace_crlf_same, split-IsLine, split-join, split-end_line, end_line-NoReturn,
  join-NoReturn,
}
use integration_suricata_n_d.Sys.{ok, Result-cases}
use integration_suricata_n_d.Line.{is_commented, uncomment_line}
use integration_suricata_n_d.Line.Key.{IsNormal}
use integration_suricata_n_d.Patch.Blocks.{find_block, make_block_uncommented, ensure_block_exact}
use integration_suricata_n_d.Patch.Plugins.{
  plugins, unix_command, names_ndpi, find_ndpi_plugin_line, patch_lines, split_lines, patch_config,
}
use integration_suricata_n_d.Patch.Plain.{NamesPlainly}
use integration_suricata_n_d.Patch.Kept.{
  uncomment_line-All, trim_space-All, ensure_plugins_ndpi-IsLine,
}
use integration_suricata_n_d.Patch.Whole.{
  patch_lines-NamesPlainly, patch_lines_ok, unix_block, find_block-All, ensure_block_exact-All,
  find_ndpi_plugin_line-names,
}

make_block_uncommented-IsLine :
    (block : List Bytes) → All IsLine block → All IsLine (make_block_uncommented block)
unfolding make_block_uncommented
make_block_uncommented-IsLine [] h = tt
make_block_uncommented-IsLine (l ∷ block) h = (first l h.0, make_block_uncommented-IsLine block h.1)
  where
    first : (l : Bytes) → IsLine l → IsLine (if is_commented l then uncomment_line l else l)
    first l h = elim (Bool-cases (is_commented l)) [
      | inl c ↦ rw c (uncomment_line-All _ l h)
      | inr c ↦ rw c h
    ]

unix_step-IsLine :
    (template current : List Bytes)
    → All IsLine template
    → All IsLine current
    → All IsLine (ensure_block_exact current (unix_block template) unix_command).0
unix_step-IsLine template current t h = elim (Option-cases (find_block template unix_command)) [
  | inl e ↦ rw (e, unix_block) (unfold ensure_block_exact in h)
  | inr ((b, i), e) ↦
      rw (e, unix_block)
        (ensure_block_exact-All IsLine current b unix_command tt h
          (make_block_uncommented-IsLine b (find_block-All IsLine template unix_command b i e t)))
]

find_ndpi_plugin_line-IsLine :
    (block : List Bytes) (line : Bytes)
    → All IsNormal block
    → All IsLine block
    → find_ndpi_plugin_line block ≡ some line
    → IsLine line
unfolding find_ndpi_plugin_line
find_ndpi_plugin_line-IsLine [] line n h e = absurd (ground (arith, e))
find_ndpi_plugin_line-IsLine (l ∷ block) line n h e = elim (Bool-cases (names_ndpi l)) [
  | inl k ↦
      let is_line : trim_space l ≡ line = ground (arith, rw (k, find_ndpi_plugin_line) at e) in
      subst IsLine is_line (trim_space-All _ l n.0.0 h.0)
  | inr k ↦ find_ndpi_plugin_line-IsLine block line n.1 h.1 (rw (k, find_ndpi_plugin_line) at e)
]

patch_lines-IsLine :
    (template current lines : List Bytes) (changed : Bool)
    → All IsNormal template
    → All IsLine template
    → All IsLine current
    → patch_lines template current ≡ ok (lines, changed)
    → All IsLine lines
patch_lines-IsLine template current lines changed n t h e =
    let (block, indent, line, found, named, is) = patch_lines_ok template current lines changed e in
    let inside = find_block-All IsNormal template plugins block indent found n in
    let (ascii, _) = find_ndpi_plugin_line-names block line inside named in
    subst (All IsLine) (sym is) (
      ensure_plugins_ndpi-IsLine (ensure_block_exact current (unix_block template) unix_command).0
        indent line (unix_step-IsLine template current t h) ascii
        (find_ndpi_plugin_line-IsLine block line inside
          (find_block-All IsLine template plugins block indent found t) named))

NamesPlainly-append :
    (indent : ℕ) (lines more : List Bytes)
    → NamesPlainly indent lines
    → NamesPlainly indent (lines ++ more)
NamesPlainly-append indent lines more h = record {
  before = h.before;
  header = h.header;
  after = h.after ++ more;
  lines_are = ap (λ t. t ++ more) h.lines_are ∙ append_assoc h.before (h.header ∷ h.after) more;
  others_differ = h.others_differ;
  is_header = h.is_header;
  plain = h.plain;
  listed = record {
    skipped = h.listed.skipped;
    plugin = h.listed.plugin;
    rest = h.listed.rest ++ more;
    lines_are =
        ap (λ t. t ++ more) h.listed.lines_are
        ∙ append_assoc h.listed.skipped (h.listed.plugin ∷ h.listed.rest) more;
    passed = h.listed.passed;
    names = h.listed.names;
  };
}

-- A text that is lines, joined and ended, reads as these lines and maybe a blank one.
split_lines-written :
    (l : Bytes) (ls : List Bytes)
    → All IsLine (l ∷ ls)
    → (more : List Bytes) × (split_lines (end_line (join (l ∷ ls))) ≡ (l ∷ ls) ++ more)
unfolding split_lines
split_lines-written l ls h =
    let text = join (l ∷ ls) in
    let (more, e) = split-end_line text in
    (
      more,
      ap split
            (replace_crlf_same (end_line text) (end_line-NoReturn text (join-NoReturn (l ∷ ls) h)))
          ∙ (e ∙ ap (λ k. k ++ more) (split-join l ls h)),
    )

split_lines-IsLine : (s : Bytes) → NoReturn s → All IsLine (split_lines s)
unfolding split_lines
split_lines-IsLine s h = rw (replace_crlf_same s h) (split-IsLine s h)

written-NamesPlainly :
    (indent : ℕ) (lines : List Bytes)
    → All IsLine lines
    → NamesPlainly indent lines
    → NamesPlainly indent (split_lines (end_line (join lines)))
written-NamesPlainly indent lines h loaded =
    let (l, ls, is) = some_line loaded.before loaded.header loaded.after in
    let same = loaded.lines_are ∙ is in
    let (more, e) = split_lines-written l ls (subst (All IsLine) same h) in
    subst (λ k. NamesPlainly indent (split_lines (end_line (join k)))) (sym same)
      (subst (NamesPlainly indent) (sym e)
        (NamesPlainly-append indent (l ∷ ls) more (subst (NamesPlainly indent) same loaded)))
  where
    some_line :
        (before : List Bytes) (h : Bytes) (after : List Bytes)
        → (l : Bytes) × (ls : List Bytes) × (before ++ (h ∷ after) ≡ l ∷ ls)
    some_line [] h after = (h, after, refl)
    some_line (b ∷ before) h after = (b, before ++ (h ∷ after), refl)

-- In the text that the whole patch gives, cut into lines again, the first line of the key `plugins` does not begin with a comment
-- mark, and under it, behind only blank lines and deeper ones that do not name "ndpi.so", stands a line that names "ndpi.so",
-- does not begin with a comment mark, and is deeper than the template's key; where neither text has a carriage return, the lines
-- of both are ASCII and have no two comment marks, and the template's key is indented by one blank at most.
pub patch_config-NamesPlainly :
    (template current text : Bytes) (changed : Bool)
    → NoReturn template
    → NoReturn current
    → All IsNormal (split_lines template)
    → All IsNormal (split_lines current)
    → ((block : List Bytes) (indent : ℕ)
        → find_block (split_lines template) plugins ≡ some (block, indent)
        → indent ≤ 1)
    → patch_config template current ≡ ok (text, changed)
    → (block : List Bytes) × (indent : ℕ) × (find_block (split_lines template) plugins
        ≡ some (block, indent))
      × NamesPlainly indent (split_lines text)
unfolding patch_config
patch_config-NamesPlainly template current text changed rt rc nt nc small e =
    elim (Result-cases (patch_lines (split_lines template) (split_lines current))) [
      | inl ((lines, c), f) ↦
          let is : end_line (join lines) ≡ text = ground (arith, rw (f, patch_config) at e) in
          let (block, indent, found, loaded, _) =
            patch_lines-NamesPlainly (split_lines template) (split_lines current) lines c nt nc
              small f in
          let kept =
            patch_lines-IsLine (split_lines template) (split_lines current) lines c nt
              (split_lines-IsLine template rt) (split_lines-IsLine current rc) f in
          (
            block,
            indent,
            found,
            subst (λ s. NamesPlainly indent (split_lines s)) is
                (written-NamesPlainly indent lines kept loaded),
          )
      | inr (m, f) ↦ absurd (ground (arith, rw (f, patch_config) at e))
    ]
