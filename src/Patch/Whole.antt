-- ===== src/Patch/Whole.antt =====
-- What the whole patch makes of the lines of a configuration.
use integration_suricata_n_d.Base.{
  ℕ, zero, suc, ◌≤◌, Bool, true, false, Option, none, some, Option-cases, List, [], ◌∷◌, ◌++◌, ◌≡◌,
  refl, ap, sym, ◌∙◌, subst, arith, Bytes, Bool-cases, inl, inr, All, take, drop,
}
use integration_suricata_n_d.Text.{has_prefix, trim_space, trim_prefix, contains}
use integration_suricata_n_d.Text.Ascii.{IsAscii, All-append, All-of_append}
use integration_suricata_n_d.Sys.{ok}
use integration_suricata_n_d.Line.{indent_width}
use integration_suricata_n_d.Line.Key.{IsNormal, uncommented-IsNormal, normalize_key-trim_space}
use integration_suricata_n_d.Patch.Blocks.{
  block_body, find_block, find_block_range, make_block_uncommented, slice_equal, lacks_blank_end,
  with_blank_end, ensure_block_exact,
}
use integration_suricata_n_d.Patch.Plugins.{
  plugins, ndpi_so, unix_command, names_ndpi, find_ndpi_plugin_line, ensure_plugins_ndpi,
  patch_lines,
}
use integration_suricata_n_d.Patch.Ranges.{block_rest, block_body-append-rest, range_from-cases}
use integration_suricata_n_d.Patch.Item.{trim_space-IsAscii}
use integration_suricata_n_d.Patch.Plain.{NamesPlainly}
use integration_suricata_n_d.Patch.Listed.{IsSimple}
use integration_suricata_n_d.Patch.Again.{ensure_plugins_ndpi-NamesPlainly}

module _ (P : Bytes → Type 0) where
  All-take : (n : ℕ) (lines : List Bytes) → All P lines → All P (take n lines)
  All-take zero lines h = tt
  All-take (suc n) [] h = tt
  All-take (suc n) (l ∷ lines) h = (h.0, All-take n lines h.1)

  All-drop : (n : ℕ) (lines : List Bytes) → All P lines → All P (drop n lines)
  All-drop zero lines h = h
  All-drop (suc n) [] h = tt
  All-drop (suc n) (l ∷ lines) h = All-drop n lines h.1

  -- A block is a part of the lines.
  pub find_block-All :
      (lines : List Bytes) (key : Bytes) (block : List Bytes) (base : ℕ)
      → find_block lines key ≡ some (block, base)
      → All P lines
      → All P block
  find_block-All lines key block base e h = elim (range_from-cases lines key 0) [
    | inl (r, f, o) ↦ absurd (ground (arith, sym f ∙ e))
    | inr (b, r, f) ↦
        let body = block_body (indent_width b.line) b.after in
        let rest = block_rest (indent_width b.line) b.after in
        let found : b.line ∷ body ≡ block = ground (arith, sym f ∙ e) in
        let behind =
          (All-of_append P b.before (b.line ∷ b.after) (subst (All P) b.lines_are h)).1 in
        let inside =
          (All-of_append P body rest (
            subst (All P) (sym (block_body-append-rest (indent_width b.line) b.after))
              behind.1)).0 in
        subst (All P) found (behind.0, inside)
  ]

  pub with_blank_end-All : (lines : List Bytes) → P [] → All P lines → All P (with_blank_end lines)
  with_blank_end-All lines blank h = elim (Bool-cases (lacks_blank_end lines)) [
    | inl e ↦ rw (e, with_blank_end) (All-append P lines ([] ∷ []) h (blank, tt))
    | inr e ↦ rw (e, with_blank_end) h
  ]

  -- The lines are those of the configuration, or of the uncommented block, or blank.
  pub ensure_block_exact-All :
      (lines block : List Bytes) (key : Bytes)
      → P []
      → All P lines
      → All P (make_block_uncommented block)
      → All P (ensure_block_exact lines (some block) key).0
  unfolding ensure_block_exact
  ensure_block_exact-All lines block key blank h t =
      elim (Option-cases (find_block_range lines key)) [
        | inl e ↦
            rw (e, ensure_block_exact)
              (All-append P (with_blank_end lines) (make_block_uncommented block)
                (with_blank_end-All lines blank h) t)
        | inr ((start, end, base), e) ↦
            elim (Bool-cases
              (slice_equal (drop start (take end lines)) (make_block_uncommented block))) [
                | inl s ↦ rw (e, ensure_block_exact) (rw (s, ensure_block_exact) h)
                | inr s ↦
                    rw (e, ensure_block_exact)
                      (rw (s, ensure_block_exact)
                        (All-append P (take start lines)
                          (make_block_uncommented block ++ drop end lines) (All-take start lines h)
                          (All-append P (make_block_uncommented block) (drop end lines) t
                            (All-drop end lines h))))
              ]
      ]

make_block_uncommented-All :
    (block : List Bytes) → All IsNormal block → All IsNormal (make_block_uncommented block)
unfolding make_block_uncommented
make_block_uncommented-All [] h = tt
make_block_uncommented-All (l ∷ block) h =
    (uncommented-IsNormal l h.0, make_block_uncommented-All block h.1)

IsNormal-nil : IsNormal []
unfolding trim_space has_prefix trim_prefix
IsNormal-nil = (tt, refl)

-- The template's line names the plugin.
pub find_ndpi_plugin_line-names :
    (block : List Bytes) (line : Bytes)
    → All IsNormal block
    → find_ndpi_plugin_line block ≡ some line
    → IsAscii line × (names_ndpi line ≡ true)
unfolding find_ndpi_plugin_line
find_ndpi_plugin_line-names [] line h e = absurd (ground (arith, e))
find_ndpi_plugin_line-names (l ∷ block) line h e = elim (Bool-cases (names_ndpi l)) [
  | inl n ↦
      let is_line : trim_space l ≡ line = ground (arith, rw (n, find_ndpi_plugin_line) at e) in
      (
        subst IsAscii is_line (trim_space-IsAscii l h.0.0),
        ap names_ndpi (sym is_line)
            ∙ (ap (λ k. contains k ndpi_so) (normalize_key-trim_space l h.0.0) ∙ n),
      )
  | inr n ↦ find_ndpi_plugin_line-names block line h.1 (rw (n, find_ndpi_plugin_line) at e)
]

-- The template's block for the socket of commands.
abbrev pub unix_block : List Bytes → Option (List Bytes)
unix_block template = elim (find_block template unix_command) [ none ↦ none | some (b, i) ↦ some b ]

unix_step-All :
    (template current : List Bytes)
    → All IsNormal template
    → All IsNormal current
    → All IsNormal (ensure_block_exact current (unix_block template) unix_command).0
unix_step-All template current t h = elim (Option-cases (find_block template unix_command)) [
  | inl e ↦ rw (e, unix_block) (unfold ensure_block_exact in h)
  | inr ((b, i), e) ↦
      rw (e, unix_block)
        (ensure_block_exact-All IsNormal current b unix_command IsNormal-nil h
          (make_block_uncommented-All b (find_block-All IsNormal template unix_command b i e t)))
]

IsSimple-of_normal : (lines : List Bytes) → All IsNormal lines → All IsSimple lines
IsSimple-of_normal [] h = tt
IsSimple-of_normal (l ∷ lines) h = ((h.0.0, λ n. h.0.1), IsSimple-of_normal lines h.1)

-- What a patch that works is made of.
pub patch_lines_ok :
    (template current lines : List Bytes) (changed : Bool)
    → patch_lines template current ≡ ok (lines, changed)
    → (block : List Bytes) × (indent : ℕ) × (line : Bytes) × (find_block template plugins
        ≡ some (block, indent))
      × (find_ndpi_plugin_line block ≡ some line)
      × (lines
          ≡ (ensure_plugins_ndpi
              (ensure_block_exact current (unix_block template) unix_command).0
              indent
              line).0)
unfolding patch_lines
patch_lines_ok template current lines changed e =
    elim (Option-cases (find_block template plugins)) [
      | inl f ↦ absurd (ground (arith, rw (f, patch_lines) at e))
      | inr ((block, indent), f) ↦
          let e1 = rw (f, patch_lines) at e in
          elim (Option-cases (find_ndpi_plugin_line block)) [
            | inl g ↦ absurd (ground (arith, rw (g, patch_lines) at e1))
            | inr (line, g) ↦ (block, indent, line, f, g, ground (arith, rw (g, patch_lines) at e1))
          ]
    ]

-- A second patch of lines that the plugin's step leaves as they are.
patch_lines_again :
    (template lines block : List Bytes) (indent : ℕ) (line : Bytes)
    → find_block template plugins ≡ some (block, indent)
    → find_ndpi_plugin_line block ≡ some line
    → find_block template unix_command ≡ none
    → ensure_plugins_ndpi lines indent line ≡ (lines, false)
    → patch_lines template lines ≡ ok (lines, false)
unfolding patch_lines ensure_block_exact
patch_lines_again template lines block indent line f g u kept =
    rw (f, patch_lines) (rw (g, patch_lines) (rw (u, patch_lines) (rw (kept, patch_lines) refl)))

-- After a patch that works the first line of the key `plugins` does not begin with a comment mark, and under it, behind only blank
-- lines and deeper ones that do not name "ndpi.so", stands a line that names "ndpi.so", does not begin with a comment mark, and is
-- deeper than the template's key; where both files are ASCII, none of their lines has two comment marks, and the template's key is
-- indented by one blank at most. Where the template has no block `unix-command`, a second patch changes nothing and says so.
pub patch_lines-NamesPlainly :
    (template current lines : List Bytes) (changed : Bool)
    → All IsNormal template
    → All IsNormal current
    → ((block : List Bytes) (indent : ℕ)
        → find_block template plugins ≡ some (block, indent)
        → indent ≤ 1)
    → patch_lines template current ≡ ok (lines, changed)
    → (block : List Bytes) × (indent : ℕ) × (find_block template plugins ≡ some (block, indent))
      × NamesPlainly indent lines
      × (find_block template unix_command ≡ none → patch_lines template lines ≡ ok (lines, false))
patch_lines-NamesPlainly template current lines changed t h small e =
    let (block, indent, line, found, named, is) = patch_lines_ok template current lines changed e in
    let (ascii, names) =
      find_ndpi_plugin_line-names block line
        (find_block-All IsNormal template plugins block indent found t) named in
    let before = (ensure_block_exact current (unix_block template) unix_command).0 in
    let simple = IsSimple-of_normal before (unix_step-All template current t h) in
    let (loaded, kept) =
      ensure_plugins_ndpi-NamesPlainly before indent line simple ascii names
        (small block indent found) in
    (
      block,
      indent,
      found,
      subst (NamesPlainly indent) (sym is) loaded,
      λ u.
          patch_lines_again template lines block indent line found named u
            (subst (λ k. ensure_plugins_ndpi k indent line ≡ (k, false)) (sym is) kept),
    )
