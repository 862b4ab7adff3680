-- ===== src/Tests/Patched.antt =====
-- The plugin's step and the whole patch, at concrete lines.
use integration_suricata_n_d.Base.{
  ℕ, ◌≤◌, true, false, none, some, List, [], ◌∷◌, ◌≡◌, refl, sym, ◌∙◌, Bytes, codes, bytes_eq,
  arith, All,
}
use integration_suricata_n_d.Text.{
  has_prefix, trim_prefix, contains, trim_left_blank, is_ascii_space, space_width, space_width_back,
  trim_by, trim_space,
}
use integration_suricata_n_d.Text.Ascii.{IsAscii}
use integration_suricata_n_d.Sys.{ok}
use integration_suricata_n_d.Line.{
  is_commented, indent, uncomment_line, indent_width, normalize_key,
}
use integration_suricata_n_d.Line.Key.{IsNormal}
use integration_suricata_n_d.Patch.{
  patch_config, split_lines, find_block, find_ndpi_plugin_line, block_body, plugins, unix_command,
  names_ndpi, scan_plugins, ensure_plugins_ndpi, ensure_found, ensure_in_block, as_item,
  patch_lines, ensure_block_exact,
}
use integration_suricata_n_d.Patch.Plain.{NamesPlainly}
use integration_suricata_n_d.Patch.Listed.{IsSimple}
use integration_suricata_n_d.Patch.Again.{ensure_plugins_ndpi-NamesPlainly}
use integration_suricata_n_d.Patch.Whole.{patch_lines-NamesPlainly}
use integration_suricata_n_d.Patch.Written.{patch_config-NamesPlainly}
use integration_suricata_n_d.Text.{split, replace_crlf, join, end_line, has_suffix}
use integration_suricata_n_d.Text.Joined.{NoReturn}
use integration_suricata_n_d.Base.{◌++◌, subst, ap}

abbrev plugin_line : Bytes
plugin_line = codes "- n/ndpi.so"

abbrev template : List Bytes
template = codes "plugins:" ∷ codes "  - n/ndpi.so" ∷ []

-- The key and the plugin are commented.
abbrev current : List Bytes
current = codes "a: 1" ∷ codes "#plugins:" ∷ codes "  - b.so" ∷ codes "  # - n/ndpi.so" ∷ []

abbrev patched : List Bytes
patched = codes "a: 1" ∷ codes "plugins:" ∷ codes "  - b.so" ∷ codes "  - n/ndpi.so" ∷ []

ascii : (IsAscii plugin_line × All IsAscii template) × All IsAscii current
ascii = ground arith

current-IsNormal : All IsNormal current
unfolding has_prefix trim_prefix is_ascii_space space_width space_width_back trim_by trim_space
current-IsNormal = (
  (ascii.1.0, refl),
  ((ascii.1.1.0, refl), ((ascii.1.1.1.0, refl), ((ascii.1.1.1.1.0, refl), tt))),
)

template-IsNormal : All IsNormal template
unfolding has_prefix trim_prefix is_ascii_space space_width space_width_back trim_by trim_space
template-IsNormal = ((ascii.0.1.0, refl), ((ascii.0.1.1.0, refl), tt))

current-IsSimple : All IsSimple current
current-IsSimple = (
  (current-IsNormal.0.0, λ n. current-IsNormal.0.1),
  (
    (current-IsNormal.1.0.0, λ n. current-IsNormal.1.0.1),
    (
      (current-IsNormal.1.1.0.0, λ n. current-IsNormal.1.1.0.1),
      ((current-IsNormal.1.1.1.0.0, λ n. current-IsNormal.1.1.1.0.1), tt),
    ),
  ),
)

line_named : names_ndpi plugin_line ≡ true
unfolding normalize_key contains has_prefix trim_prefix is_ascii_space space_width space_width_back
    trim_by trim_space
line_named = refl

ensure_plugins_ndpi-NamesPlainly_example :
    let result = (ensure_plugins_ndpi current 0 plugin_line).0 in
    NamesPlainly 0 result × (ensure_plugins_ndpi result 0 plugin_line ≡ (result, false))
ensure_plugins_ndpi-NamesPlainly_example =
    ensure_plugins_ndpi-NamesPlainly current 0 plugin_line current-IsSimple ascii.0.0 line_named
      (omega arith)

found : find_block template plugins ≡ some (template, 0)
unfolding find_block block_body normalize_key trim_space trim_by is_ascii_space space_width
    space_width_back has_prefix trim_prefix bytes_eq indent_width
found = refl

shallow :
    (block : List Bytes) (base : ℕ) → find_block template plugins ≡ some (block, base) → base ≤ 1
shallow block base e = ground (arith, sym found ∙ e)

works : patch_lines template current ≡ ok (patched, true)
unfolding patch_lines find_block block_body find_ndpi_plugin_line normalize_key contains trim_space
    trim_by is_ascii_space space_width space_width_back has_prefix trim_prefix bytes_eq indent_width
    ensure_plugins_ndpi ensure_found ensure_in_block scan_plugins is_commented uncomment_line indent
    trim_left_blank ensure_block_exact as_item
works = refl

patch_lines-NamesPlainly_example :
    (block : List Bytes) × (base : ℕ) × (find_block template plugins ≡ some (block, base))
    × NamesPlainly base patched
    × (find_block template unix_command ≡ none → patch_lines template patched ≡ ok (patched, false))
patch_lines-NamesPlainly_example =
    patch_lines-NamesPlainly template current patched true template-IsNormal current-IsNormal
      shallow works

abbrev template_text : Bytes
template_text = codes "plugins:" ++ (b'\n' ∷ codes "  - n/ndpi.so")

abbrev current_text : Bytes
current_text =
    codes "a: 1"
    ++ (b'\n'
        ∷ (codes "#plugins:" ++ (b'\n' ∷ (codes "  - b.so" ++ (b'\n' ∷ codes "  # - n/ndpi.so")))))

abbrev patched_text : Bytes
patched_text =
    codes "a: 1"
    ++ (b'\n'
        ∷ (codes "plugins:"
            ++ (b'\n' ∷ (codes "  - b.so" ++ (b'\n' ∷ (codes "  - n/ndpi.so" ++ (b'\n' ∷ [])))))))

plain_texts : NoReturn template_text × NoReturn current_text
plain_texts = ground arith

template_lines : split_lines template_text ≡ template
unfolding split_lines split replace_crlf
template_lines = refl

current_lines : split_lines current_text ≡ current
unfolding split_lines split replace_crlf
current_lines = refl

joined : end_line (join patched) ≡ patched_text
unfolding join end_line has_suffix
joined = refl

text_works : patch_config template_text current_text ≡ ok (patched_text, true)
unfolding patch_config
text_works =
    let lines_work : patch_lines (split_lines template_text) (split_lines current_text)
        ≡ ok (patched, true) =
      subst (λ t. patch_lines t (split_lines current_text) ≡ ok (patched, true))
        (sym template_lines)
        (subst (λ c. patch_lines template c ≡ ok (patched, true)) (sym current_lines) works) in
    rw (lines_work, patch_config) (ap (λ (t : Bytes). ok (t, true)) joined)

patch_config-NamesPlainly_example :
    (block : List Bytes) × (base : ℕ) × (find_block (split_lines template_text) plugins
      ≡ some (block, base))
    × NamesPlainly base (split_lines patched_text)
patch_config-NamesPlainly_example =
    patch_config-NamesPlainly template_text current_text patched_text true plain_texts.0
      plain_texts.1 (subst (All IsNormal) (sym template_lines) template-IsNormal)
      (subst (All IsNormal) (sym current_lines) current-IsNormal)
      (λ block base e.
        shallow block base
          (subst (λ k. find_block k plugins ≡ some (block, base)) template_lines e))
      text_works
