-- ===== src/Template/Rendered.antt =====
-- When a template is rendered, and to what.
use integration_suricata_n_d.Base.{Option, List, [], ◌∷◌, ◌≡◌, ◌⊎◌, refl, Bytes, inl, inr}
use integration_suricata_n_d.Sys.{Result, ok, err}
use integration_suricata_n_d.Template.{pieces}
use integration_suricata_n_d.Template.Filled.{Fills, Value}
use integration_suricata_n_d.Template.Referred.{Refers}

pub List-cases : {A : Type 0} (l : List A) → (l ≡ []) ⊎ ((x : A) × (xs : List A) × (l ≡ x ∷ xs))
List-cases [] = inl refl
List-cases (x ∷ xs) = inr (x, xs, refl)

-- What rendering came to: every reference is replaced by a value of its name, or there is a reference whose name has no value.
abbrev pub Rendered : (Bytes → Option Bytes) → Result Bytes → Bytes → Result Bytes → Type 0
Rendered env route input (ok out) = Fills (Value env route) (pieces input) out
Rendered env route input (err e) =
    (v : Bytes) × Refers v (pieces input) × ((x : Bytes) → Value env route v x → ⊥)
