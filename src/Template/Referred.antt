-- ===== src/Template/Referred.antt =====
-- The variables that a template refers to: `integration/render_template.go`.
use integration_suricata_n_d.Base.{
  true, Option, none, some, Option-cases, List, [], ◌∷◌, ◌≡◌, ◌≢◌, ◌⊎◌, ◌↔◌, refl, sym, ap, ◌∙◌,
  arith, Bytes, bytes_eq, bytes_eq_iff, ap, if◌then◌else◌, Bool-cases, inl, inr,
}
use integration_suricata_n_d.Sys.{Result, ok}
use integration_suricata_n_d.Template.{
  Piece, lit, var, vars_of, insert_name, bytes_lt, missing_vars, auto_detect_env,
  detect_default_iface, iface_var, member,
}

abbrev pub Among : Bytes → List Bytes → Type 0
Among v [] = ⊥
Among v (u ∷ us) = (u ≡ v) ⊎ Among v us

-- The pieces have a reference to the name.
abbrev pub Refers : Bytes → List Piece → Type 0
Refers v [] = ⊥
Refers v (lit c ∷ ps) = Refers v ps
Refers v (var u ∷ ps) = (u ≡ v) ⊎ Refers v ps

insert_name-Among :
    (v u : Bytes) (us : List Bytes) → Among v (insert_name u us) → (u ≡ v) ⊎ Among v us
unfolding insert_name
insert_name-Among v u [] h = h
insert_name-Among v u (t ∷ us) h = elim (Bool-cases (bytes_eq u t)) [
  | inl e ↦ inr (rw (e, insert_name) at h)
  | inr e ↦ elim (Bool-cases (bytes_lt u t)) [
    | inl k ↦ rw (k, insert_name) at (rw (e, insert_name) at h)
    | inr k ↦ elim (rw (k, insert_name) at (rw (e, insert_name) at h)) [
      | inl same ↦ inr (inl same)
      | inr rest ↦ elim (insert_name-Among v u us rest) [
        | inl same ↦ inl same
        | inr i ↦ inr (inr i)
      ]
    ]
  ]
]

pub vars_of-Refers : (v : Bytes) (ps : List Piece) → Among v (vars_of ps) → Refers v ps
unfolding vars_of
vars_of-Refers v [] h = h
vars_of-Refers v (lit c ∷ ps) h = vars_of-Refers v ps h
vars_of-Refers v (var u ∷ ps) h = elim (insert_name-Among v u (vars_of ps) h) [
  | inl same ↦ inl same
  | inr i ↦ inr (vars_of-Refers v ps i)
]

pub missing_vars-Among :
    (env : Bytes → Option Bytes) (v : Bytes) (vs : List Bytes)
    → Among v (missing_vars env vs)
    → (env v ≡ none) × Among v vs
unfolding missing_vars
missing_vars-Among env v [] h = absurd h
missing_vars-Among env v (u ∷ vs) h = elim (Option-cases (env u)) [
  | inr (x, e) ↦ let (n, i) = missing_vars-Among env v vs (rw (e, missing_vars) at h) in (n, inr i)
  | inl e ↦ elim (rw (e, missing_vars) at h) [
    | inl same ↦ (sym (ap env same) ∙ e, inl same)
    | inr i ↦ let (n, j) = missing_vars-Among env v vs i in (n, inr j)
  ]
]

pub member_iff : (v : Bytes) (us : List Bytes) → (member v us ≡ true) ↔ Among v us
unfolding member
member_iff v [] = ground arith
member_iff v (u ∷ us) = ground (arith, bytes_eq_iff v u, member_iff v us)

pub auto_detect_env_finds :
    (route : Result Bytes) (missing : List Bytes) (found : Bytes → Option Bytes) (x : Bytes)
    → auto_detect_env route missing ≡ ok found
    → Among iface_var missing
    → detect_default_iface route ≡ ok x
    → x ≢ []
    → found iface_var ≢ none
unfolding auto_detect_env
auto_detect_env_finds route missing found [] a i d ne n = ne refl
auto_detect_env_finds route missing found (c ∷ s) a i d ne n =
    let g : ok (λ (v : Bytes). if bytes_eq v iface_var then some (c ∷ s) else none) ≡ ok found =
      rw (d, auto_detect_env) at (rw ((member_iff iface_var missing).1 i, auto_detect_env) at a) in
    let h : (λ (v : Bytes). if bytes_eq v iface_var then some (c ∷ s) else none) ≡ found =
      ground (arith, g) in
    let k = ap (λ (f : Bytes → Option Bytes). f iface_var) h ∙ n in
    absurd (ground (arith, rw ((bytes_eq_iff iface_var iface_var).1 refl) at k))
