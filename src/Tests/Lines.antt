-- ===== src/Tests/Lines.antt =====
-- Line editing and the toggle, at concrete lines.
use integration_suricata_n_d.Base.{
  Bool, true, false, ◌&&◌, some, List, [], ◌∷◌, ◌++◌, ◌≡◌, refl, Bytes, codes, bytes_eq, ltb, arith,
}
use integration_suricata_n_d.Text.{
  has_prefix, trim_prefix, contains, trim_left_blank, is_ascii_space, space_width, space_width_back,
  trim_by, trim_space,
}
use integration_suricata_n_d.Text.Ascii.{IsAscii}
use integration_suricata_n_d.Sys.{base}
use integration_suricata_n_d.Line.{hash, is_commented, indent, comment_line, uncomment_line}
use integration_suricata_n_d.Line.Comment.{behind_mark}
use integration_suricata_n_d.Toggle.{
  match_ndpi_plugin_line, toggle_line, toggle_lines, status_lines,
}
use integration_suricata_n_d.Line.Pieces.{HasOneMark}
use integration_suricata_n_d.Toggle.Lines.{
  FirstIsPlain, toggle_lines_settles, toggle_lines_restores, toggle_lines_second_mark,
}

abbrev plugin : Bytes
plugin = codes "/p/ndpi.so"

abbrev head : Bytes
head = codes "plugins:"

abbrev plain : Bytes
plain = codes "  - /p/ndpi.so"

abbrev marked : Bytes
marked = codes "  # - /p/ndpi.so"

abbrev twice : Bytes
twice = codes "## - ndpi.so"

abbrev on : List Bytes
on = head ∷ plain ∷ []

abbrev off : List Bytes
off = head ∷ marked ∷ []

plain_is_plain : is_commented plain ≡ false
unfolding is_commented has_prefix trim_left_blank
plain_is_plain = refl

head_differs : match_ndpi_plugin_line head plugin ≡ false
unfolding match_ndpi_plugin_line trim_space trim_by is_ascii_space space_width space_width_back
    trim_prefix has_prefix contains base
head_differs = refl

marked_names : match_ndpi_plugin_line marked plugin ≡ true
unfolding match_ndpi_plugin_line trim_space trim_by is_ascii_space space_width space_width_back
    trim_prefix has_prefix contains base
marked_names = refl

twice_names : match_ndpi_plugin_line twice plugin ≡ true
unfolding match_ndpi_plugin_line trim_space trim_by is_ascii_space space_width space_width_back
    trim_prefix has_prefix contains base bytes_eq
twice_names = refl

twice-is_commented : is_commented twice ≡ true
unfolding is_commented has_prefix trim_left_blank
twice-is_commented = refl

twice_has_two : has_prefix (behind_mark twice) hash ≡ true
unfolding is_commented has_prefix trim_left_blank trim_prefix
twice_has_two = refl

marked-is_commented : is_commented marked ≡ true
unfolding is_commented has_prefix trim_left_blank
marked-is_commented = refl

plain_names : match_ndpi_plugin_line plain plugin ≡ true
unfolding match_ndpi_plugin_line trim_space trim_by is_ascii_space space_width space_width_back
    trim_prefix has_prefix contains base
plain_names = refl

plain-HasOneMark : HasOneMark plain
unfolding trim_space trim_by is_ascii_space space_width space_width_back trim_prefix has_prefix
plain-HasOneMark = refl

marked-HasOneMark : HasOneMark marked
unfolding trim_space trim_by is_ascii_space space_width space_width_back trim_prefix has_prefix
marked-HasOneMark = refl

-- The bytes below 128.
abbrev is_ascii : Bytes → Bool
is_ascii [] = true
is_ascii (c ∷ s) = ltb c 128 && is_ascii s

is_ascii-IsAscii : (s : Bytes) → is_ascii s ≡ true → IsAscii s
is_ascii-IsAscii [] h = tt
is_ascii-IsAscii (c ∷ s) h = (ground (arith, h), is_ascii-IsAscii s (ground (arith, h)))

plain-IsAscii : IsAscii plain
plain-IsAscii = is_ascii-IsAscii plain refl

marked-IsAscii : IsAscii marked
marked-IsAscii = is_ascii-IsAscii marked refl

off_IsPlain : FirstIsPlain plugin off
off_IsPlain = (
  λ h. absurd (ground (arith, h, head_differs)),
  λ h. (λ h'. (marked-IsAscii, marked-HasOneMark), λ h'. tt),
)

on_IsPlain : FirstIsPlain plugin on
on_IsPlain = (
  λ h. absurd (ground (arith, h, head_differs)),
  λ h. (λ h'. (plain-IsAscii, plain-HasOneMark), λ h'. tt),
)

off_toggled : toggle_lines plugin true off ≡ some (on, true)
unfolding toggle_lines toggle_line match_ndpi_plugin_line trim_space trim_by is_ascii_space
    space_width space_width_back trim_prefix has_prefix contains base is_commented uncomment_line
    indent trim_left_blank
off_toggled = refl

on_toggled : toggle_lines plugin false on ≡ some (off, true)
unfolding toggle_lines toggle_line match_ndpi_plugin_line trim_space trim_by is_ascii_space
    space_width space_width_back trim_prefix has_prefix contains base is_commented comment_line
    indent trim_left_blank
on_toggled = refl

toggle_lines_settles_example :
    ((shown : Bytes) × (status_lines plugin on ≡ some (true, shown)))
    × (toggle_lines plugin true on ≡ some (on, false))
toggle_lines_settles_example = toggle_lines_settles plugin true off on true off_IsPlain off_toggled

toggle_lines_restores_example : toggle_lines plugin true off ≡ some (on, true)
toggle_lines_restores_example = toggle_lines_restores plugin on off on_IsPlain on_toggled

toggle_lines_second_mark_example :
    (toggle_lines plugin true ((head ∷ []) ++ (twice ∷ []))
      ≡ some ((head ∷ []) ++ (uncomment_line twice ∷ []), true))
    × (is_commented (uncomment_line twice) ≡ true)
toggle_lines_second_mark_example =
    toggle_lines_second_mark plugin (head ∷ []) twice [] (head_differs, tt) twice_names
      twice-is_commented twice_has_two
