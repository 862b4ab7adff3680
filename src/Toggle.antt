-- ===== src/Toggle.antt =====
-- integration/ndpi_toggle.go: reading and setting whether the nDPI plugin line of the Suricata
-- configuration is commented out.
pub mod Match
pub mod Lines
pub mod Found
pub mod Disk
use integration_suricata_n_d.Base.{
  ℕ, ◌%◌, Bool, true, false, not, ◌&&◌, ◌||◌, Option, none, some, List, [], ◌∷◌, ◌++◌, bytes_eq,
  if◌then◌else◌, Bytes, codes,
}
use integration_suricata_n_d.Text.{
  trim_space, trim_prefix, contains, replace_crlf, scan_lines, join, end_line, trim_right_eol,
}
use integration_suricata_n_d.Line.{hash, is_commented, comment_line, uncomment_line}
use integration_suricata_n_d.Sys.{
  other, Error, outer, msg, wrap, Result, ok, err, Node, M, stat, read_file, base,
}
use integration_suricata_n_d.Atomic.{write_file_atomic}

unfoldable pub match_ndpi_plugin_line : Bytes → Bytes → Bool
match_ndpi_plugin_line line plugin =
    let name = base plugin in
    let s = trim_space (trim_prefix (trim_space line) hash) in
    if not (contains s (codes "-"))
    then false
    else contains s plugin || (not (bytes_eq name []) && contains s name)

abbrev too_long : Error
too_long = outer other (codes "bufio.Scanner: token too long")

unfoldable pub read_lines : Bytes → M (Result (List Bytes))
read_lines path w =
    let (r, w') = read_file path w in
    elim r [
      | err e ↦ (err (wrap (codes "read " ++ (path ++ codes ": ")) e []), w')
      | ok b ↦ (
        elim (scan_lines (replace_crlf b)) [
          | none ↦ err (wrap (codes "scan " ++ (path ++ codes ": ")) too_long [])
          | some lines ↦ ok lines
        ],
        w',
      )
    ]

abbrev pub not_found : Bytes → Error
not_found path = msg (codes "ndpi plugin line not found in " ++ path)

-- The loop of `NDPIStatusWithFS`: the first line that matches, and whether it is enabled.
unfoldable pub status_lines : Bytes → List Bytes → Option (Bool × Bytes)
status_lines plugin [] = none
status_lines plugin (ln ∷ lines) =
    if match_ndpi_plugin_line ln plugin
    then some (not (is_commented ln), trim_right_eol ln)
    else status_lines plugin lines

unfoldable pub ndpi_status : Bytes → Bytes → M (Result (Bool × Bytes))
ndpi_status path plugin w =
    let (r, w') = read_lines path w in
    elim r [
      | err e ↦ (err e, w')
      | ok lines ↦
          (elim (status_lines plugin lines) [ none ↦ err (not_found path) | some s ↦ ok s ], w')
    ]

-- What the loop of `SetNDPIEnabledWithFS` makes of the line that matches, and `changed`.
unfoldable pub toggle_line : Bool → Bytes → Bytes × Bool
toggle_line true ln = if not (is_commented ln) then (ln, false) else (uncomment_line ln, true)
toggle_line false ln = if not (not (is_commented ln)) then (ln, false) else (comment_line ln, true)

abbrev pub behind : Bytes → Option (List Bytes × Bool) → Option (List Bytes × Bool)
behind ln none = none
behind ln (some (lines, changed)) = some (ln ∷ lines, changed)

-- The loop: the lines after it and `changed`, or none if it never set `found`.
unfoldable pub toggle_lines : Bytes → Bool → List Bytes → Option (List Bytes × Bool)
toggle_lines plugin enable [] = none
toggle_lines plugin enable (ln ∷ lines) =
    if match_ndpi_plugin_line ln plugin
    then some ((toggle_line enable ln).0 ∷ lines, (toggle_line enable ln).1)
    else behind ln (toggle_lines plugin enable lines)

-- `0o644`, or `st.Mode().Perm()` where the file can be looked at.
abbrev pub perm_of : Result Node → ℕ
perm_of (err e) = 0o644
perm_of (ok n) = n.mode % 0o1000

-- The write at the end, and the pair (changed, enabledAfter).
unfoldable pub store_lines : Bytes → Bool → List Bytes → M (Result (Bool × Bool))
store_lines path enable lines w =
    let (st, w1) = stat path w in
    let (e, w2) = write_file_atomic path (end_line (join lines)) (perm_of st) w1 in
    (
      elim e [
        | some x ↦ err (wrap (codes "failed to write suricata config: ") x [])
        | none ↦ ok (true, enable)
      ],
      w2,
    )

unfoldable pub set_ndpi_enabled : Bytes → Bytes → Bool → M (Result (Bool × Bool))
set_ndpi_enabled path plugin enable w =
    let (r, w') = read_lines path w in
    elim r [
      | err e ↦ (err e, w')
      | ok lines ↦ elim (toggle_lines plugin enable lines) [
        | none ↦ (err (not_found path), w')
        | some (lines', changed) ↦
            if not changed then (ok (false, enable), w') else store_lines path enable lines' w'
      ]
    ]
