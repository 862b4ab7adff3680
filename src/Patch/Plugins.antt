-- ===== src/Patch/Plugins.antt =====
-- `findNDPIPluginLine`, `ensurePluginsNDPI`, `splitLines` and `PatchSuricataConfigFromTemplate`.
use integration_suricata_n_d.Base.{
  ℕ, zero, suc, ◌+◌, Bool, true, false, not, ◌||◌, Option, none, some, List, [], ◌∷◌, ◌++◌, leb,
  bytes_eq, if◌then◌else◌, Bytes, codes,
}
use integration_suricata_n_d.Text.{
  has_prefix, contains, trim_space, replace_crlf, split, join, end_line,
}
use integration_suricata_n_d.Line.{normalize_key, indent_width, is_commented, uncomment_line}
use integration_suricata_n_d.Sys.{msg, Result, ok, err}
use integration_suricata_n_d.Patch.Blocks.{is_key, find_block, ensure_block_exact, with_blank_end}

abbrev pub plugins : Bytes
plugins = codes "plugins"

abbrev pub ndpi_so : Bytes
ndpi_so = codes "ndpi.so"

abbrev pub unix_command : Bytes
unix_command = codes "unix-command"

-- `strings.Contains(normalizeKey(line), "ndpi.so")`
abbrev pub names_ndpi : Bytes → Bool
names_ndpi line = contains (normalize_key line) ndpi_so

unfoldable pub find_ndpi_plugin_line : List Bytes → Option Bytes
find_ndpi_plugin_line [] = none
find_ndpi_plugin_line (line ∷ block) =
    if names_ndpi line then some (trim_space line) else find_ndpi_plugin_line block

unfoldable pub spaces : ℕ → Bytes
spaces zero = []
spaces (suc n) = b' ' ∷ spaces n

-- The line as a list item: `ndpiLine` after the first lines of `ensurePluginsNDPI`.
unfoldable pub as_item : Bytes → Bytes
as_item line =
    let trimmed = trim_space line in
    if not (has_prefix (trim_space trimmed) (codes "-")) then codes "- " ++ trimmed else trimmed

-- The inner loop over the lines behind the key's line, with `insertAt` counted from there. The
-- lines after the loop, `insertAt`, and where an "ndpi.so" was found, whether its line was changed.
unfoldable pub scan_plugins : ℕ → List Bytes → ℕ → List Bytes × ℕ × Option Bool
scan_plugins indent [] at = ([], at, none)
scan_plugins indent (l ∷ lines) at =
    let rest = scan_plugins indent lines (at + 1) in
    if bytes_eq l []
    then (l ∷ rest.0, rest.1, rest.2)
    else if leb (indent_width l) indent
    then (l ∷ lines, at, none)
    else if names_ndpi l
    then (if is_commented l
        then (uncomment_line l ∷ lines, at + 1, some true)
        else (l ∷ lines, at + 1, some false))
    else (l ∷ rest.0, rest.1, rest.2)

unfoldable pub insert_at : ℕ → Bytes → List Bytes → List Bytes
insert_at zero l lines = l ∷ lines
insert_at (suc n) l [] = l ∷ []
insert_at (suc n) l (m ∷ lines) = m ∷ insert_at n l lines

-- What is done behind the key's line: the lines, and `changed`.
unfoldable pub ensure_in_block : ℕ → Bytes → List Bytes → List Bytes × Bool
ensure_in_block indent item lines =
    let (after, at, found) = scan_plugins indent lines 0 in
    elim found [
      | some changed ↦ (after, changed)
      | none ↦ (insert_at at (spaces (indent + 2) ++ item) after, true)
    ]

-- The outer loop: the key's line is uncommented where it stands, and `changed` is not set by that.
unfoldable pub ensure_found : ℕ → Bytes → List Bytes → Option (List Bytes × Bool)
ensure_found indent item [] = none
ensure_found indent item (line ∷ lines) =
    if not (is_key plugins line)
    then elim (ensure_found indent item lines) [
      | none ↦ none
      | some (after, changed) ↦ some (line ∷ after, changed)
    ]
    else let (after, changed) = ensure_in_block indent item lines in
      some ((if is_commented line then uncomment_line line else line) ∷ after, changed)

unfoldable pub ensure_plugins_ndpi : List Bytes → ℕ → Bytes → List Bytes × Bool
ensure_plugins_ndpi lines indent line =
    let item = as_item line in
    elim (ensure_found indent item lines) [
      | some r ↦ r
      | none ↦ (with_blank_end lines ++ (codes "plugins:" ∷ (codes "  " ++ item) ∷ []), true)
    ]

unfoldable pub split_lines : Bytes → List Bytes
split_lines s = split (replace_crlf s)

-- The new lines of the configuration, before they are joined, and `changed`.
unfoldable pub patch_lines : List Bytes → List Bytes → Result (List Bytes × Bool)
patch_lines template current = elim (find_block template plugins) [
  | none ↦ err (msg (codes "template does not contain plugins block"))
  | some (block, indent) ↦ elim (find_ndpi_plugin_line block) [
    | none ↦ err (msg (codes "template does not contain ndpi.so plugin line"))
    | some line ↦
        let unix_block : Option (List Bytes) = elim (find_block template unix_command) [
          | none ↦ none
          | some (b, i) ↦ some b
        ] in
        let (lines, unix_changed) = ensure_block_exact current unix_block unix_command in
        let (lines', plugins_changed) = ensure_plugins_ndpi lines indent line in
        ok (lines', unix_changed || plugins_changed)
  ]
]

unfoldable pub patch_config : Bytes → Bytes → Result (Bytes × Bool)
patch_config template current = elim (patch_lines (split_lines template) (split_lines current)) [
  | err e ↦ err e
  | ok (lines, changed) ↦ ok (end_line (join lines), changed)
]
