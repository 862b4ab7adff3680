-- ===== src/Tests/Named.antt =====
-- A real run that applies a configuration, on a concrete machine.
use integration_suricata_n_d.Base.{
  ℕ, ◌≤◌, true, some, List, [], ◌∷◌, ◌++◌, ◌≡◌, refl, sym, ◌∙◌, Bytes, codes, bytes_eq, arith, All,
  subst,
}
use integration_suricata_n_d.Text.{
  split, replace_crlf, join, end_line, trim_space, trim_by, is_ascii_space, space_width,
  space_width_back, has_prefix, has_suffix, trim_prefix, contains, trim_left_blank,
}
use integration_suricata_n_d.Text.Ascii.{IsAscii}
use integration_suricata_n_d.Text.Joined.{NoReturn}
use integration_suricata_n_d.Line.{normalize_key, indent_width, is_commented}
use integration_suricata_n_d.Line.Key.{IsNormal}
use integration_suricata_n_d.Sys.{ok, Node, read_file, call, stat, combined_output}
use integration_suricata_n_d.Sys.{remove, create_temp, dir, write, chmod, flush, rename}
use integration_suricata_n_d.Atomic.{write_file_atomic, fill_and_rename}
use integration_suricata_n_d.Template.{render_template_strict, vars_of, pieces_from, match_var}
use integration_suricata_n_d.Service.{first_path_of}
use integration_suricata_n_d.Patch.{
  patch_config, patch_lines, find_block, block_body, find_ndpi_plugin_line, split_lines, plugins,
  ensure_block_exact, ensure_plugins_ndpi, ensure_found, ensure_in_block, scan_plugins, as_item,
  insert_at, spaces,
}
use integration_suricata_n_d.Patch.Plain.{NamesPlainly}
use integration_suricata_n_d.Reconcile.{
  reconcile_config, prepare, prepare_target, restart_after, install, check_and_install,
  reconcile_changed,
}
use integration_suricata_n_d.Reconcile.Named.{reconcile_config-NamesPlainly}
use integration_suricata_n_d.Tests.Machine.{
  machine, options, environment, route, digest, config_path, old_config, config_held,
  target_reported,
}

abbrev template_text : Bytes
template_text = codes "plugins:" ++ (b'\n' ∷ codes "  - ndpi.so")

template_read : (read_file options.template_path machine).0 ≡ ok template_text
unfolding read_file call bytes_eq
template_read = refl

template_rendered : render_template_strict environment route template_text ≡ ok template_text
unfolding render_template_strict vars_of pieces_from match_var
template_rendered = refl

template_lines : split_lines template_text ≡ codes "plugins:" ∷ codes "  - ndpi.so" ∷ []
unfolding split_lines split replace_crlf
template_lines = refl

old_lines : split_lines old_config.content ≡ codes "plugins:" ∷ []
unfolding split_lines split replace_crlf
old_lines = refl

applied : (reconcile_config environment route digest options machine).0.0.applied ≡ true
unfolding reconcile_config prepare read_file call bytes_eq render_template_strict vars_of
    pieces_from match_var first_path_of stat prepare_target patch_config patch_lines find_block
    block_body find_ndpi_plugin_line split_lines split replace_crlf normalize_key indent_width
    trim_space trim_by is_ascii_space space_width space_width_back has_prefix has_suffix trim_prefix
    contains ensure_block_exact ensure_plugins_ndpi ensure_found ensure_in_block scan_plugins
    is_commented trim_left_blank as_item insert_at spaces join end_line reconcile_changed
    check_and_install install restart_after write_file_atomic fill_and_rename combined_output remove
    create_temp dir write chmod flush rename
applied = refl

plain :
    (NoReturn template_text × NoReturn old_config.content)
    × IsAscii (codes "plugins:")
    × IsAscii (codes "  - ndpi.so")
plain = ground arith

lines-IsNormal : All IsNormal (codes "plugins:" ∷ codes "  - ndpi.so" ∷ [])
unfolding has_prefix trim_prefix is_ascii_space space_width space_width_back trim_by trim_space
lines-IsNormal = ((plain.1, refl), ((plain.2, refl), tt))

found :
    find_block (codes "plugins:" ∷ codes "  - ndpi.so" ∷ []) plugins
    ≡ some (codes "plugins:" ∷ codes "  - ndpi.so" ∷ [], 0)
unfolding find_block block_body normalize_key trim_space trim_by is_ascii_space space_width
    space_width_back has_prefix trim_prefix bytes_eq indent_width
found = refl

shallow :
    (block : List Bytes) (base : ℕ)
    → find_block (split_lines template_text) plugins ≡ some (block, base)
    → base ≤ 1
shallow block base e =
    ground
      (arith, sym found ∙ subst (λ k. find_block k plugins ≡ some (block, base)) template_lines e)

reconcile_config-NamesPlainly_example :
    (n : Node) × (block : List Bytes) × (base : ℕ) × ((reconcile_config environment route digest
          options machine).1.files
        config_path
      ≡ some n)
    × (find_block (split_lines template_text) plugins ≡ some (block, base))
    × NamesPlainly base (split_lines n.content)
reconcile_config-NamesPlainly_example =
    reconcile_config-NamesPlainly environment route digest options machine config_path template_text
      template_text old_config target_reported config_held template_read template_rendered
      (plain.0.0, subst (All IsNormal) (sym template_lines) lines-IsNormal)
      (plain.0.1, subst (All IsNormal) (sym old_lines) (lines-IsNormal.0, tt)) shallow applied
