-- ===== src/Toggle/Lines.antt =====
-- What the loops of `SetNDPIEnabledWithFS` and `NDPIStatusWithFS` do to the lines.
use integration_suricata_n_d.Base.{
  Bool, true, false, not, some, List, [], ◌∷◌, ◌++◌, ◌≡◌, refl, sym, ap, ◌∙◌, subst, arith, Bytes,
  Bool-cases, inl, inr, All,
}
use integration_suricata_n_d.Text.{has_prefix, trim_right_eol}
use integration_suricata_n_d.Text.Ascii.{IsAscii}
use integration_suricata_n_d.Line.{hash, is_commented, uncomment_line}
use integration_suricata_n_d.Line.Comment.{
  is_commented-comment_line, uncomment_line-comment_line, is_commented-uncomment_line, behind_mark,
}
use integration_suricata_n_d.Toggle.{
  match_ndpi_plugin_line, status_lines, toggle_line, toggle_lines, behind,
}
use integration_suricata_n_d.Line.Pieces.{HasOneMark}
use integration_suricata_n_d.Toggle.Match.{match-comment_line, match-uncomment_line}
use integration_suricata_n_d.Toggle.Found.{
  toggle_lines-Toggled, toggle_lines_hit, toggle_lines_miss,
}

-- The lines that `Toggled` speaks of are those that the loop makes.
pub toggle_lines-of_Toggled :
    (plugin : Bytes) (enable : Bool) (before : List Bytes) (l : Bytes) (after : List Bytes)
    → All (λ m. match_ndpi_plugin_line m plugin ≡ false) before
    → match_ndpi_plugin_line l plugin ≡ true
    → toggle_lines plugin enable (before ++ (l ∷ after))
      ≡ some (before ++ ((toggle_line enable l).0 ∷ after), (toggle_line enable l).1)
toggle_lines-of_Toggled plugin enable [] l after h k = toggle_lines_hit plugin enable l after k
toggle_lines-of_Toggled plugin enable (m ∷ before) l after h k =
    toggle_lines_miss plugin enable m (before ++ (l ∷ after)) h.0
    ∙ ap (behind m) (toggle_lines-of_Toggled plugin enable before l after h.1 k)

-- What the first line that names the plugin has to be: ASCII, and with no second comment mark behind the first.
abbrev pub FirstIsPlain : Bytes → List Bytes → Type 0
FirstIsPlain plugin [] = Unit {0}
FirstIsPlain plugin (l ∷ ls) =
    (match_ndpi_plugin_line l plugin ≡ true → IsAscii l × HasOneMark l)
    × (match_ndpi_plugin_line l plugin ≡ false → FirstIsPlain plugin ls)

FirstIsPlain-append :
    (plugin : Bytes) (before : List Bytes) (l : Bytes) (after : List Bytes)
    → FirstIsPlain plugin (before ++ (l ∷ after))
    → All (λ m. match_ndpi_plugin_line m plugin ≡ false) before
    → match_ndpi_plugin_line l plugin ≡ true
    → IsAscii l × HasOneMark l
FirstIsPlain-append plugin [] l after h o k = h.0 k
FirstIsPlain-append plugin (m ∷ before) l after h o k =
    FirstIsPlain-append plugin before l after (h.1 o.0) o.1 k

-- The line after the change still names the plugin, and is commented exactly if it was to be disabled.
toggle_line_set :
    (plugin : Bytes) (enable : Bool) (l : Bytes)
    → IsAscii l × HasOneMark l
    → match_ndpi_plugin_line l plugin ≡ true
    → (match_ndpi_plugin_line (toggle_line enable l).0 plugin ≡ true)
      × (is_commented (toggle_line enable l).0 ≡ not enable)
unfolding toggle_line
toggle_line_set plugin true l (a, o) h = elim (Bool-cases (is_commented l)) [
  | inl e ↦ rw (e, not) (match-uncomment_line l plugin a e o h)
  | inr e ↦ rw (e, not) (h, e)
]
toggle_line_set plugin false l (a, o) h = elim (Bool-cases (is_commented l)) [
  | inl e ↦ rw (e, not) (h, e)
  | inr e ↦ rw (e, not) (match-comment_line l plugin a h, is_commented-comment_line l)
]

status_lines-of_Toggled :
    (plugin : Bytes) (before : List Bytes) (l : Bytes) (after : List Bytes)
    → All (λ m. match_ndpi_plugin_line m plugin ≡ false) before
    → match_ndpi_plugin_line l plugin ≡ true
    → status_lines plugin (before ++ (l ∷ after)) ≡ some (not (is_commented l), trim_right_eol l)
unfolding status_lines
status_lines-of_Toggled plugin [] l after h k = rw k
status_lines-of_Toggled plugin (m ∷ before) l after h k =
    rw h.0 (status_lines-of_Toggled plugin before l after h.1 k)

not-not : (b : Bool) → not (not b) ≡ b
not-not true = refl
not-not false = refl

-- After a change the status is the one asked for, and setting it once more finds the line and changes
-- nothing: for lines of which the first that names the plugin is ASCII and has no second comment mark.
pub toggle_lines_settles :
    (plugin : Bytes) (enable : Bool) (old new : List Bytes) (changed : Bool)
    → FirstIsPlain plugin old
    → toggle_lines plugin enable old ≡ some (new, changed)
    → ((shown : Bytes) × (status_lines plugin new ≡ some (enable, shown)))
      × (toggle_lines plugin enable new ≡ some (new, false))
toggle_lines_settles plugin enable old new changed plain h =
    let t = toggle_lines-Toggled plugin enable old new changed h in
    let l' = (toggle_line enable t.line).0 in
    let good =
      FirstIsPlain-append plugin t.before t.line t.after
        (subst (FirstIsPlain plugin) t.old_is plain) t.others_differ t.names in
    let (named, set) = toggle_line_set plugin enable t.line good t.names in
    (
      (
        trim_right_eol l',
        ap (status_lines plugin) t.new_is
            ∙ status_lines-of_Toggled plugin t.before l' t.after t.others_differ named
            ∙ ap (λ b. some (b, trim_right_eol l')) (ap not set ∙ not-not enable),
      ),
      ap (toggle_lines plugin enable) t.new_is
          ∙ toggle_lines-of_Toggled plugin enable t.before l' t.after t.others_differ named
          ∙ ap (λ (r : Bytes × Bool). some (t.before ++ (r.0 ∷ t.after), r.1))
              (settled enable l' set)
          ∙ ap (λ ls. some (ls, false)) (sym t.new_is),
    )
  where
    settled :
        (enable : Bool) (l : Bytes)
        → is_commented l ≡ not enable
        → toggle_line enable l ≡ (l, false)
    settled true l e = unfold toggle_line in rw e
    settled false l e = unfold toggle_line in rw e

toggle_line_back :
    (l : Bytes)
    → true ≡ (toggle_line false l).1
    → toggle_line true (toggle_line false l).0 ≡ (l, true)
unfolding toggle_line
toggle_line_back l c = ground (arith, is_commented-comment_line l, uncomment_line-comment_line l)

-- Disabling an enabled plugin and enabling it again gives back every line, byte for byte, where the first line that names the
-- plugin is ASCII and has no second comment mark.
pub toggle_lines_restores :
    (plugin : Bytes) (old new : List Bytes)
    → FirstIsPlain plugin old
    → toggle_lines plugin false old ≡ some (new, true)
    → toggle_lines plugin true new ≡ some (old, true)
toggle_lines_restores plugin old new plain h =
    let t = toggle_lines-Toggled plugin false old new true h in
    let good =
      FirstIsPlain-append plugin t.before t.line t.after
        (subst (FirstIsPlain plugin) t.old_is plain) t.others_differ t.names in
    let (named, set) = toggle_line_set plugin false t.line good t.names in
    ap (toggle_lines plugin true) t.new_is
    ∙ toggle_lines-of_Toggled plugin true t.before _ t.after t.others_differ named
    ∙ ap (λ (r : Bytes × Bool). some (t.before ++ (r.0 ∷ t.after), r.1))
        (toggle_line_back t.line t.changed_is)
    ∙ ap (λ ls. some (ls, true)) (sym t.old_is)

toggle_line_uncomments :
    (l : Bytes) → is_commented l ≡ true → toggle_line true l ≡ (uncomment_line l, true)
unfolding toggle_line
toggle_line_uncomments l e = rw e

-- Where the first line that names the plugin is a comment and a second comment mark follows the first, enabling removes one mark
-- from it, the loop says that the lines were changed, and the line is a comment still.
pub toggle_lines_second_mark :
    (plugin : Bytes) (before : List Bytes) (l : Bytes) (after : List Bytes)
    → All (λ m. match_ndpi_plugin_line m plugin ≡ false) before
    → match_ndpi_plugin_line l plugin ≡ true
    → is_commented l ≡ true
    → has_prefix (behind_mark l) hash ≡ true
    → (toggle_lines plugin true (before ++ (l ∷ after))
        ≡ some (before ++ (uncomment_line l ∷ after), true))
      × (is_commented (uncomment_line l) ≡ true)
toggle_lines_second_mark plugin before l after h k e second = (
  toggle_lines-of_Toggled plugin true before l after h k
      ∙ ap (λ (r : Bytes × Bool). some (before ++ (r.0 ∷ after), r.1)) (toggle_line_uncomments l e),
  is_commented-uncomment_line l ∙ rw (e, second),
)
