-- ===== src/Line.antt =====
-- The line editing of integration/ndpi_toggle.go: `isCommented`, `commentLine`, `uncommentLine`,
-- `matchNDPIPluginLine`, and `normalizeKey` and `indentWidth` of integration/patch_suricata_config.go.
pub mod Comment
pub mod Pieces
pub mod Key
use integration_suricata_n_d.Base.{
  ℕ, zero, suc, ◌-◌, ◌+◌, Bool, true, false, not, ◌&&◌, ◌||◌, List, [], ◌∷◌, ◌++◌, if◌then◌else◌,
  Bytes, codes, length, take,
}
use integration_suricata_n_d.Text.{
  has_prefix, trim_prefix, contains, is_blank, trim_left_blank, trim_space,
}

abbrev pub hash : Bytes
hash = codes "#"

unfoldable pub is_commented : Bytes → Bool
unfolding has_prefix trim_left_blank
is_commented line = has_prefix (trim_left_blank line) hash

-- `line[:len(line)-len(strings.TrimLeft(line, " \t"))]`
unfoldable pub indent : Bytes → Bytes
unfolding trim_left_blank
indent line = take (length line - length (trim_left_blank line)) line

unfoldable pub comment_line : Bytes → Bytes
unfolding is_commented indent
comment_line line =
    if is_commented line then line else indent line ++ (codes "# " ++ trim_left_blank line)

unfoldable pub uncomment_line : Bytes → Bytes
unfolding is_commented indent trim_prefix
uncomment_line line =
    if is_commented line
    then indent line ++ trim_left_blank (trim_prefix (trim_left_blank line) hash)
    else line

unfoldable pub normalize_key : Bytes → Bytes
unfolding trim_space has_prefix trim_prefix
normalize_key line =
    let trim = trim_space line in
    if has_prefix trim hash then trim_space (trim_prefix trim hash) else trim

unfoldable pub indent_width : Bytes → ℕ
indent_width [] = 0
indent_width (c ∷ s) = if is_blank c then suc (indent_width s) else 0
