-- ===== src/Patch/Lost.antt =====
-- The change that `ensurePluginsNDPI` makes and does not report: `integration/patch_suricata_config.go`.
use integration_suricata_n_d.Base.{
  ℕ, ◌≤◌, ◌<◌, true, false, List, [], ◌∷◌, ◌++◌, ◌≡◌, ◌≢◌, refl, ap, sym, ◌∙◌, arith, Bytes, All,
  length, length-append,
}
use integration_suricata_n_d.Text.{trim_left_blank, trim_prefix, has_prefix}
use integration_suricata_n_d.Text.Blanks.{leading_blanks, leading_blanks-append-trim}
use integration_suricata_n_d.Line.{hash, is_commented, uncomment_line}
use integration_suricata_n_d.Line.Comment.{uncomment_line-behind_mark}
use integration_suricata_n_d.Patch.Blocks.{is_key}
use integration_suricata_n_d.Patch.Plugins.{plugins, scan_plugins, as_item, ensure_plugins_ndpi}
use integration_suricata_n_d.Patch.Flag.{ensure_found_commented}
use integration_suricata_n_d.Patch.Plain.{IsListed}
use integration_suricata_n_d.Patch.Again.{scan_listed}

length-trim_left_blank : (s : Bytes) → length (trim_left_blank s) ≤ length s
unfolding trim_left_blank
length-trim_left_blank [] = omega arith
length-trim_left_blank (c ∷ s) = ground (arith, length-trim_left_blank s)

length-trim_prefix : (s : Bytes) → has_prefix s hash ≡ true → length (trim_prefix s hash) < length s
unfolding trim_prefix has_prefix
length-trim_prefix [] h = absurd (ground (arith, h))
length-trim_prefix (c ∷ s) h = ground (arith, h)

-- Uncommenting a commented line changes it: it is shorter then.
uncomment_line-ne : (line : Bytes) → is_commented line ≡ true → uncomment_line line ≢ line
unfolding is_commented
uncomment_line-ne line h e =
    let rest = trim_prefix (trim_left_blank line) hash in
    let short = length-trim_prefix (trim_left_blank line) h in
    let shorter = length-trim_left_blank rest in
    let front = leading_blanks line in
    let whole = ap length (leading_blanks-append-trim line) in
    let made = ap length (sym (uncomment_line-behind_mark line h) ∙ e) in
    absurd (
      omega (
        arith,
        short,
        shorter,
        whole,
        made,
        length-append front (trim_left_blank line),
        length-append front (trim_left_blank rest),
      ))

append-ne :
    (before after : List Bytes) (l m : Bytes)
    → l ≢ m
    → before ++ (l ∷ after) ≢ before ++ (m ∷ after)
append-ne [] after l m n e = n (ground (arith, e))
append-ne (b ∷ before) after l m n e = append-ne before after l m n (ground (arith, e))

-- Where the first line of the key `plugins` is commented, and the first line under it that names the plugin is plain and deeper
-- than the template's key, behind only deeper or blank lines, the lines change, since the key's line is uncommented; and the flag
-- says that nothing was changed.
pub ensure_plugins_ndpi_loses_header :
    (before after : List Bytes) (header : Bytes) (indent : ℕ) (line : Bytes)
    → All (λ m. is_key plugins m ≡ false) before
    → is_key plugins header ≡ true
    → is_commented header ≡ true
    → IsListed indent after
    → let lines = before ++ (header ∷ after) in
      let result = before ++ (uncomment_line header ∷ after) in
      (ensure_plugins_ndpi lines indent line ≡ (result, false)) × (result ≢ lines)
unfolding ensure_plugins_ndpi
ensure_plugins_ndpi_loses_header before after header indent line others is_header commented h =
    let (same, found) = scan_listed indent 0 h.skipped h.plugin h.rest h.passed h.names in
    let flag = ap (λ (t : List Bytes). (scan_plugins indent t 0).2) h.lines_are ∙ found in
    (
      rw
          (
            ensure_found_commented before after (scan_plugins indent after 0).0 header indent
                (scan_plugins indent after 0).1 (as_item line) others is_header commented
                (rw (← flag) refl),
            ensure_plugins_ndpi,
          )
          refl,
      append-ne before after (uncomment_line header) header (uncomment_line-ne header commented),
    )
