-- ===== src/Tests/Blocks.antt =====
-- The patch of the configuration and the template, at concrete lines.
use integration_suricata_n_d.Base.{
  ℕ, true, false, Option, none, some, List, [], ◌∷◌, ◌≡◌, refl, Bytes, codes, bytes_eq, arith, ◌≤◌,
}
use integration_suricata_n_d.Text.{
  has_prefix, trim_prefix, contains, trim_left_blank, is_ascii_space, space_width, space_width_back,
  trim_by, trim_space,
}
use integration_suricata_n_d.Sys.{Result, ok}
use integration_suricata_n_d.Line.{
  is_commented, indent, uncomment_line, indent_width, normalize_key,
}
use integration_suricata_n_d.Patch.{
  is_key, find_block, find_block_range, make_block_uncommented, ensure_block_exact, block_body,
  plugins, ensure_plugins_ndpi,
}
use integration_suricata_n_d.Patch.Ranges.{sliced, find_block-find_block_range}
use integration_suricata_n_d.Patch.Settled.{ensure_block_exact_settles}
use integration_suricata_n_d.Patch.Stops.{IsBlock}
use integration_suricata_n_d.Patch.Lost.{ensure_plugins_ndpi_loses_header}
use integration_suricata_n_d.Patch.Plain.{IsListed}
use integration_suricata_n_d.Patch.{names_ndpi}
use integration_suricata_n_d.Base.{◌<◌, ◌≢◌, arith}
use integration_suricata_n_d.Template.Rendered.{Rendered}

abbrev key : Bytes
key = codes "u"

abbrev key_text : Bytes
key_text = codes "u:"

abbrev off_text : Bytes
off_text = codes "  e: no"

abbrev on_text : Bytes
on_text = codes "  e: yes"

abbrev template : List Bytes
template = codes "#u:" ∷ on_text ∷ []

abbrev current : List Bytes
current = codes "a: 1" ∷ key_text ∷ off_text ∷ codes "b: 2" ∷ []

find_block-find_block_range_example :
    sliced current (find_block_range current key) ≡ find_block current key
find_block-find_block_range_example = find_block-find_block_range current key

template_uncommented : make_block_uncommented template ≡ key_text ∷ on_text ∷ []
unfolding make_block_uncommented is_commented uncomment_line indent trim_left_blank trim_prefix
    has_prefix
template_uncommented = refl

template_IsBlock : IsBlock key (key_text ∷ on_text ∷ [])
unfolding normalize_key trim_space trim_by is_ascii_space space_width space_width_back has_prefix
    trim_prefix bytes_eq indent_width
template_IsBlock = (refl, (refl, tt))

current_found : find_block current key ≡ some (key_text ∷ off_text ∷ [], 0)
unfolding find_block block_body normalize_key trim_space trim_by is_ascii_space space_width
    space_width_back has_prefix trim_prefix bytes_eq indent_width
current_found = refl

current_shallow :
    (block : List Bytes) (base : ℕ)
    → find_block current key ≡ some (block, base)
    → base ≤ indent_width key_text
unfolding indent_width
current_shallow block base h = ground (arith, current_found, h)

ensure_block_exact_settles_example :
    (find_block (ensure_block_exact current (some template) key).0 key
      ≡ some (key_text ∷ on_text ∷ [], indent_width key_text))
    × (ensure_block_exact (ensure_block_exact current (some template) key).0 (some template) key
        ≡ ((ensure_block_exact current (some template) key).0, false))
ensure_block_exact_settles_example =
    ensure_block_exact_settles current template key key_text (on_text ∷ []) template_uncommented
      template_IsBlock current_shallow

abbrev header : Bytes
header = codes "# plugins:"

abbrev item : Bytes
item = codes "  - ndpi.so"

header_is_key : is_key plugins header ≡ true
unfolding normalize_key trim_space trim_by is_ascii_space space_width space_width_back has_prefix
    trim_prefix bytes_eq
header_is_key = refl

header_is_commented : is_commented header ≡ true
unfolding is_commented has_prefix trim_left_blank
header_is_commented = refl

item_plain : (names_ndpi item ≡ true) × (is_commented item ≡ false)
unfolding normalize_key trim_space trim_by is_ascii_space space_width space_width_back has_prefix
    trim_prefix contains is_commented trim_left_blank
item_plain = (refl, refl)

item_deep : 0 < indent_width item
unfolding indent_width
item_deep = omega arith

item-IsListed : IsListed 0 (item ∷ [])
item-IsListed = record {
  skipped = [];
  plugin = item;
  rest = [];
  lines_are = refl;
  passed = tt;
  names = (item_plain.0, item_plain.1, item_deep);
}

ensure_plugins_ndpi_loses_header_example :
    (ensure_plugins_ndpi (header ∷ item ∷ []) 0 item ≡ (uncomment_line header ∷ item ∷ [], false))
    × ((uncomment_line header ∷ item ∷ []) ≢ header ∷ item ∷ [])
ensure_plugins_ndpi_loses_header_example =
    ensure_plugins_ndpi_loses_header [] (item ∷ []) header 0 item tt header_is_key
      header_is_commented item-IsListed

abbrev environment : Bytes → Option Bytes
environment v = none

abbrev route : Result Bytes
route = ok (codes "Iface Destination")
