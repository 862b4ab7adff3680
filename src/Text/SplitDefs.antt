-- ===== src/Text/SplitDefs.antt =====
-- `ReplaceAll(s, "\r\n", "\n")`, `Split(s, "\n")`, `Join(lines, "\n")` and `bufio.ScanLines`.
use integration_suricata_n_d.Base.{
  ℕ, Bool, true, false, ◌&&◌, Option, none, some, List, [], ◌∷◌, ◌++◌, ltb, ◌==◌, if◌then◌else◌,
  Bytes, length,
}
use integration_suricata_n_d.Text.SearchDefs.{has_prefix, has_suffix}

-- A "\r" goes where a "\n" follows it; the "\n" is then copied like any byte.
unfoldable pub replace_crlf : Bytes → Bytes
unfolding has_prefix
replace_crlf [] = []
replace_crlf (c ∷ s) =
    let rest = replace_crlf s in if c == b'\r' && has_prefix s (b'\n' ∷ []) then rest else c ∷ rest

abbrev pub push_front : ℕ → List Bytes → List Bytes
push_front c [] = (c ∷ []) ∷ []
push_front c (l ∷ ls) = (c ∷ l) ∷ ls

unfoldable pub split : Bytes → List Bytes
split [] = [] ∷ []
split (c ∷ s) = let rest = split s in if c == b'\n' then [] ∷ rest else push_front c rest

unfoldable pub join : List Bytes → Bytes
join [] = []
join (l ∷ []) = l
join (l ∷ m ∷ ls) = l ++ (b'\n' ∷ join (m ∷ ls))

-- `if !strings.HasSuffix(out, "\n") { out += "\n" }`
unfoldable pub end_line : Bytes → Bytes
unfolding has_suffix
end_line s = if has_suffix s (b'\n' ∷ []) then s else s ++ (b'\n' ∷ [])

-- `bufio.MaxScanTokenSize`: a line of this many bytes fills the scanner's buffer.
abbrev pub max_scan_token_size : ℕ
max_scan_token_size = 65536

-- `bufio.ScanLines` drops one "\r" at the end of a line.
unfoldable pub drop_cr : Bytes → Bytes
drop_cr [] = []
drop_cr (c ∷ []) = if c == b'\r' then [] else c ∷ []
drop_cr (c ∷ d ∷ s) = c ∷ drop_cr (d ∷ s)

-- `Split` gives the scanner's lines, and an empty one after the last "\n", which is no token.
-- `none` stands for `bufio.ErrTooLong`.
unfoldable pub scan_tokens : List Bytes → Option (List Bytes)
unfolding drop_cr
scan_tokens [] = some []
scan_tokens ([] ∷ []) = some []
scan_tokens (l ∷ ls) =
    let rest = scan_tokens ls in
    if ltb (length l) max_scan_token_size
    then elim rest [ none ↦ none | some ts ↦ some (drop_cr l ∷ ts) ]
    else none

unfoldable pub scan_lines : Bytes → Option (List Bytes)
unfolding split scan_tokens
scan_lines s = scan_tokens (split s)

-- The lines that a scanner gives before it stops, and whether a line was too long.
unfoldable pub scan_until : List Bytes → List Bytes × Bool
unfolding drop_cr
scan_until [] = ([], false)
scan_until ([] ∷ []) = ([], false)
scan_until (l ∷ ls) =
    let rest = scan_until ls in
    if ltb (length l) max_scan_token_size then (drop_cr l ∷ rest.0, rest.1) else ([], true)
