-- ===== src/Toggle/Found.antt =====
-- The line that the loop of `SetNDPIEnabledWithFS` replaces: `integration/ndpi_toggle.go`.
use integration_suricata_n_d.Base.{
  Bool, true, false, Option, none, some, List, [], ◌∷◌, ◌++◌, ◌≡◌, ◌↔◌, refl, sym, ap, ◌∙◌, arith,
  Bytes, Bool-cases, inl, inr, All,
}
use integration_suricata_n_d.Toggle.{match_ndpi_plugin_line, toggle_line, toggle_lines, behind}

-- `lines` are the old lines with the first one that names the plugin set as asked, and no other touched.
pub record Toggled (plugin : Bytes) (enable : Bool) (old new : List Bytes) (changed : Bool)
    : Type 0 where
  pub before : List Bytes
  pub line : Bytes
  pub after : List Bytes
  pub old_is : old ≡ before ++ (line ∷ after)
  pub others_differ : All (λ l. match_ndpi_plugin_line l plugin ≡ false) before
  pub names : match_ndpi_plugin_line line plugin ≡ true
  pub new_is : new ≡ before ++ ((toggle_line enable line).0 ∷ after)
  pub changed_is : changed ≡ (toggle_line enable line).1

Toggled-cons :
    (plugin : Bytes) (enable : Bool) (l : Bytes) (old new : List Bytes) (changed : Bool)
    → match_ndpi_plugin_line l plugin ≡ false
    → Toggled plugin enable old new changed
    → Toggled plugin enable (l ∷ old) (l ∷ new) changed
Toggled-cons plugin enable l old new changed h t = record {
  before = l ∷ t.before;
  line = t.line;
  after = t.after;
  old_is = ap (◌∷◌ l) t.old_is;
  others_differ = (h, t.others_differ);
  names = t.names;
  new_is = ap (◌∷◌ l) t.new_is;
  changed_is = t.changed_is;
}

behind-eq-some :
    (l : Bytes) (r : Option (List Bytes × Bool)) (new : List Bytes) (changed : Bool)
    → behind l r ≡ some (new, changed)
    → (rest : List Bytes) × (r ≡ some (rest, changed)) × (new ≡ l ∷ rest)
behind-eq-some l none new changed h = absurd (ground arith)
behind-eq-some l (some (rest, c)) new changed h = (rest, ground arith, ground arith)

module _ (plugin : Bytes) (enable : Bool) (l : Bytes) (ls : List Bytes) where
  pub toggle_lines_hit :
      match_ndpi_plugin_line l plugin ≡ true
      → toggle_lines plugin enable (l ∷ ls)
        ≡ some ((toggle_line enable l).0 ∷ ls, (toggle_line enable l).1)
  unfolding toggle_lines
  toggle_lines_hit h = rw h

  pub toggle_lines_miss :
      match_ndpi_plugin_line l plugin ≡ false
      → toggle_lines plugin enable (l ∷ ls) ≡ behind l (toggle_lines plugin enable ls)
  unfolding toggle_lines
  toggle_lines_miss h = rw h

pub behind-eq-none : (l : Bytes) (r : Option (List Bytes × Bool)) → (behind l r ≡ none) ↔ (r ≡ none)
behind-eq-none l none = (λ h. refl, λ h. refl)
behind-eq-none l (some (a, c)) = (λ h. cc, λ h. cc)

-- Where the loop finds a line, it sets the first one that names the plugin and touches no other.
pub toggle_lines-Toggled :
    (plugin : Bytes) (enable : Bool) (old new : List Bytes) (changed : Bool)
    → toggle_lines plugin enable old ≡ some (new, changed)
    → Toggled plugin enable old new changed
unfolding toggle_lines
toggle_lines-Toggled plugin enable [] new changed h = cc
toggle_lines-Toggled plugin enable (l ∷ ls) new changed h =
    elim (Bool-cases (match_ndpi_plugin_line l plugin)) [
      | inl hit ↦
          let e = toggle_lines_hit plugin enable l ls hit in
          record {
            before = [];
            line = l;
            after = ls;
            old_is = refl;
            others_differ = tt;
            names = hit;
            new_is = ground (arith, e);
            changed_is = ground (arith, e);
          }
      | inr miss ↦
          let (rest, e, same) =
            behind-eq-some l (toggle_lines plugin enable ls) new changed
              (sym (toggle_lines_miss plugin enable l ls miss) ∙ h) in
          rw same (
            Toggled-cons plugin enable l ls rest changed miss
              (toggle_lines-Toggled plugin enable ls rest changed e))
    ]
