-- ===== src/Patch/Again.antt =====
-- `ensurePluginsNDPI` twice: `integration/patch_suricata_config.go`.
use integration_suricata_n_d.Base.{
  ℕ, ◌+◌, ◌≤◌, ◌<◌, true, false, some, List, [], ◌∷◌, ◌++◌, ◌≡◌, refl, ap, sym, ◌∙◌, arith, Bytes,
  codes, inl, inr, All, leb, bytes_eq, bytes_eq_iff,
}
use integration_suricata_n_d.Text.{
  has_prefix, trim_space, trim_prefix, trim_by, is_ascii_space, space_width, space_width_back,
  trim_left_blank,
}
use integration_suricata_n_d.Text.Ascii.{IsAscii}
use integration_suricata_n_d.Line.{is_commented, normalize_key, indent_width}
use integration_suricata_n_d.Patch.Blocks.{is_key, with_blank_end}
use integration_suricata_n_d.Patch.Plugins.{
  plugins, names_ndpi, spaces, as_item, scan_plugins, ensure_in_block, ensure_found,
  ensure_plugins_ndpi,
}
use integration_suricata_n_d.Patch.Flag.{ensure_in_block_plain}
use integration_suricata_n_d.Patch.Settled.{with_blank_end-others}
use integration_suricata_n_d.Patch.Item.{IsItem, spaces-item, as_item-IsItem}
use integration_suricata_n_d.Patch.Plain.{Passes, Names, IsListed, NamesPlainly}
use integration_suricata_n_d.Patch.Listed.{IsSimple, ensure_found-FoundOrNone}

deep_not_blank : (indent : ℕ) (l : Bytes) → indent < indent_width l → bytes_eq l [] ≡ false
unfolding bytes_eq indent_width
deep_not_blank indent [] h = absurd (omega (arith, h))
deep_not_blank indent (c ∷ l) h = refl

-- The search stops at the first line that names the plugin, and leaves a plain one as it is.
pub scan_listed :
    (indent k : ℕ) (skipped : List Bytes) (plugin : Bytes) (rest : List Bytes)
    → All (Passes indent) skipped
    → Names indent plugin
    → let r = scan_plugins indent (skipped ++ (plugin ∷ rest)) k in
      (r.0 ≡ skipped ++ (plugin ∷ rest)) × (r.2 ≡ some false)
unfolding scan_plugins
scan_listed indent k [] plugin rest p n =
    let shallow : leb (indent_width plugin) indent ≡ false = ground (arith, n.2) in
    rw (deep_not_blank indent plugin n.2, scan_plugins)
      (rw (shallow, scan_plugins) (rw (n.0, scan_plugins) (rw (n.1, scan_plugins) (refl, refl))))
scan_listed indent k (l ∷ skipped) plugin rest (inl e, p) n =
    let (same, found) = scan_listed indent (k + 1) skipped plugin rest p n in
    let blank : bytes_eq l [] ≡ true = (bytes_eq_iff l []).1 e in
    rw (blank, scan_plugins) (ap (◌∷◌ l) same, found)
scan_listed indent k (l ∷ skipped) plugin rest (inr (d, other), p) n =
    let (same, found) = scan_listed indent (k + 1) skipped plugin rest p n in
    let shallow : leb (indent_width l) indent ≡ false = ground (arith, d) in
    rw (deep_not_blank indent l d, scan_plugins)
      (rw (shallow, scan_plugins) (rw (other, scan_plugins) (ap (◌∷◌ l) same, found)))

IsListed-kept :
    (indent : ℕ) (item : Bytes) (lines : List Bytes)
    → IsListed indent lines
    → ensure_in_block indent item lines ≡ (lines, false)
IsListed-kept indent item lines h =
    let (same, found) = scan_listed indent 0 h.skipped h.plugin h.rest h.passed h.names in
    let e = h.lines_are in
    ensure_in_block_plain indent item lines
      (ap (λ (t : List Bytes). (scan_plugins indent t 0).0) e ∙ (same ∙ sym e))
      (ap (λ (t : List Bytes). (scan_plugins indent t 0).2) e ∙ found)

found_plain :
    (indent : ℕ) (item : Bytes) (before after : List Bytes) (header : Bytes)
    → All (λ l. is_key plugins l ≡ false) before
    → is_key plugins header ≡ true
    → is_commented header ≡ false
    → ensure_in_block indent item after ≡ (after, false)
    → ensure_found indent item (before ++ (header ∷ after))
      ≡ some (before ++ (header ∷ after), false)
unfolding ensure_found
found_plain indent item [] after header o k c e =
    rw (k, ensure_found) (rw (e, ensure_found) (rw (c, ensure_found) refl))
found_plain indent item (l ∷ before) after header o k c e =
    rw (o.0, ensure_found)
      (rw (found_plain indent item before after header o.1 k c e, ensure_found) refl)

NamesPlainly-kept :
    (indent : ℕ) (line : Bytes) (lines : List Bytes)
    → NamesPlainly indent lines
    → ensure_plugins_ndpi lines indent line ≡ (lines, false)
unfolding ensure_plugins_ndpi
NamesPlainly-kept indent line lines h =
    let e = h.lines_are in
    let item = as_item line in
    let found : ensure_found indent item lines ≡ some (lines, false) =
      ap (ensure_found indent item) e
      ∙ (found_plain indent item h.before h.after h.header h.others_differ h.is_header h.plain
            (IsListed-kept indent item h.after h.listed)
          ∙ ap (λ (t : List Bytes). some (t, false)) (sym e)) in
    rw (found, ensure_plugins_ndpi) refl

-- The lines of the block that is put behind a file that has none.
new_block-NamesPlainly :
    (indent : ℕ) (item : Bytes) (lines : List Bytes)
    → indent ≤ 1
    → IsItem item
    → All (λ l. is_key plugins l ≡ false) lines
    → NamesPlainly indent (with_blank_end lines ++ (codes "plugins:" ∷ (codes "  " ++ item) ∷ []))
unfolding is_commented trim_left_blank normalize_key trim_space trim_by is_ascii_space space_width
    space_width_back has_prefix bytes_eq trim_prefix spaces
new_block-NamesPlainly indent item lines small i o =
    let (n, c, w) = spaces-item 2 item i in
    record {
      before = with_blank_end lines;
      header = codes "plugins:";
      after = (codes "  " ++ item) ∷ [];
      lines_are = refl;
      others_differ = with_blank_end-others lines plugins o;
      is_header = refl;
      plain = refl;
      listed = record {
        skipped = [];
        plugin = codes "  " ++ item;
        rest = [];
        lines_are = refl;
        passed = tt;
        names = (n, c, omega (arith, w, small));
      };
    }

NamesPlainly-after :
    (lines : List Bytes) (indent : ℕ) (line : Bytes)
    → All IsSimple lines
    → IsAscii line
    → names_ndpi line ≡ true
    → indent ≤ 1
    → NamesPlainly indent (ensure_plugins_ndpi lines indent line).0
unfolding ensure_plugins_ndpi
NamesPlainly-after lines indent line simple ascii named small =
    let i = as_item-IsItem line ascii named in
    elim (ensure_found-FoundOrNone indent (as_item line) lines i simple) [
      | inl (n, o) ↦
          rw (n, ensure_plugins_ndpi) (new_block-NamesPlainly indent (as_item line) lines small i o)
      | inr (result, changed, e, h) ↦ rw (e, ensure_plugins_ndpi) h
    ]

-- After the call the first line of the key `plugins` is plain, and the first line under it that names the plugin is plain and
-- deeper than the template's key; and a second call changes nothing and says so: where the lines are ASCII, none names the
-- plugin behind two comment marks, the template's line names it, and the template's key is indented by one blank at most.
pub ensure_plugins_ndpi-NamesPlainly :
    (lines : List Bytes) (indent : ℕ) (line : Bytes)
    → All IsSimple lines
    → IsAscii line
    → names_ndpi line ≡ true
    → indent ≤ 1
    → let result = (ensure_plugins_ndpi lines indent line).0 in
      NamesPlainly indent result × (ensure_plugins_ndpi result indent line ≡ (result, false))
ensure_plugins_ndpi-NamesPlainly lines indent line simple ascii named small =
    let loaded = NamesPlainly-after lines indent line simple ascii named small in
    (loaded, NamesPlainly-kept indent line (ensure_plugins_ndpi lines indent line).0 loaded)
