-- ===== src/Template/Filled.antt =====
-- What a rendered template is.
use integration_suricata_n_d.Base.{
  ℕ, Option, none, some, Option-cases, List, [], ◌∷◌, ◌++◌, ◌≡◌, ◌≢◌, ◌⊎◌, ap, ◌∙◌, arith, Bytes,
  bytes_eq, bytes_eq_iff, ap, if◌then◌else◌, Bool-cases, inl, inr, All,
}
use integration_suricata_n_d.Sys.{Result, ok, Result-cases}
use integration_suricata_n_d.Template.{
  Piece, lit, var, pieces_from, pieces, match_var, vars_of, insert_name, bytes_lt, missing_vars,
  substitute, or_else_env, auto_detect_env, detect_default_iface, iface_var, member,
}

-- The text with each reference replaced by a value that the relation allows for its name.
pub data Fills (value : Bytes → Bytes → Type 0) : List Piece → Bytes → Type 0 where
  fills_nil : Fills value [] []
  fills_lit :
      (c : ℕ) {ps : List Piece} {out : Bytes}
      → Fills value ps out
      → Fills value (lit c ∷ ps) (c ∷ out)
  fills_var :
      (v x : Bytes) {ps : List Piece} {out : Bytes}
      → value v x
      → Fills value ps out
      → Fills value (var v ∷ ps) (x ++ out)

-- All the names that the pieces refer to are defined.
abbrev pub Defined : (Bytes → Option Bytes) → List Piece → Type 0
Defined env [] = Unit {0}
Defined env (lit c ∷ ps) = Defined env ps
Defined env (var v ∷ ps) = (env v ≢ none) × Defined env ps

pub substitute-Fills :
    (env : Bytes → Option Bytes) (ps : List Piece)
    → Defined env ps
    → Fills (λ v x. env v ≡ some x) ps (substitute env ps)
unfolding substitute
substitute-Fills env [] d = fills_nil
substitute-Fills env (lit c ∷ ps) d = fills_lit c (substitute-Fills env ps d)
substitute-Fills env (var v ∷ ps) d = elim (Option-cases (env v)) [
  | inl e ↦ absurd (d.0 e)
  | inr (x, e) ↦ rw (e, substitute) (fills_var v x e (substitute-Fills env ps d.1))
]

insert_name-All :
    (P : Bytes → Type 0) (v : Bytes) (us : List Bytes) → All P (insert_name v us) → P v × All P us
unfolding insert_name
insert_name-All P v [] h = h
insert_name-All P v (u ∷ us) h = elim (Bool-cases (bytes_eq v u)) [
  | inl e ↦ let h' = rw (e, insert_name) at h in (rw ((bytes_eq_iff v u).0 e) h'.0, h')
  | inr e ↦ elim (Bool-cases (bytes_lt v u)) [
    | inl k ↦ rw (k, insert_name) at (rw (e, insert_name) at h)
    | inr k ↦
        let h' = rw (k, insert_name) at (rw (e, insert_name) at h) in
        let (a, b) = insert_name-All P v us h'.1 in (a, (h'.0, b))
  ]
]

pub missing_vars-All :
    (env : Bytes → Option Bytes) (vs : List Bytes)
    → missing_vars env vs ≡ []
    → All (λ v. env v ≢ none) vs
unfolding missing_vars
missing_vars-All env [] h = tt
missing_vars-All env (v ∷ vs) h = elim (Option-cases (env v)) [
  | inl e ↦ absurd (ground (arith, e, h))
  | inr (x, e) ↦ (ground (arith, e), missing_vars-All env vs (ground (arith, e, h)))
]

pub vars_of-Defined :
    (env : Bytes → Option Bytes) (ps : List Piece)
    → All (λ v. env v ≢ none) (vars_of ps)
    → Defined env ps
unfolding vars_of
vars_of-Defined env [] h = tt
vars_of-Defined env (lit c ∷ ps) h = vars_of-Defined env ps h
vars_of-Defined env (var v ∷ ps) h =
    let (a, b) = insert_name-All (λ u. env u ≢ none) v (vars_of ps) h in
    (a, vars_of-Defined env ps b)

insert_name-ne : (v : Bytes) (us : List Bytes) → insert_name v us ≢ []
unfolding insert_name
insert_name-ne v [] e = ground (arith, e)
insert_name-ne v (u ∷ us) e = ground (arith, e)

-- A text with no reference is its own filling.
pub no_reference-Fills :
    (value : Bytes → Bytes → Type 0) (s : Bytes)
    → vars_of (pieces s) ≡ []
    → Fills value (pieces s) s
unfolding pieces_from vars_of
no_reference-Fills value [] h = fills_nil
no_reference-Fills value (c ∷ s) h = elim (Option-cases (match_var (c ∷ s))) [
  | inl e ↦
      rw (e, pieces_from) (fills_lit c (no_reference-Fills value s (rw (e, pieces_from) at h)))
  | inr (name, e) ↦ absurd (insert_name-ne name _ (rw (e, pieces_from) at h))
]

pub Fills-map :
    (P Q : Bytes → Bytes → Type 0) (ps : List Piece) (out : Bytes)
    → ((v x : Bytes) → P v x → Q v x)
    → Fills P ps out
    → Fills Q ps out
Fills-map P Q _ _ f fills_nil = fills_nil
Fills-map P Q _ _ f (fills_lit c {ps} {out} r) = fills_lit c (Fills-map P Q ps out f r)
Fills-map P Q _ _ f (fills_var v x {ps} {out} h r) =
    fills_var v x (f v x h) (Fills-map P Q ps out f r)

-- A value for a name: the environment's, or, for SURICATA_IFACE where the environment lacks it, the interface of the
-- route table's default.
abbrev pub Value : (Bytes → Option Bytes) → Result Bytes → Bytes → Bytes → Type 0
Value env route v x =
    (env v ≡ some x)
    ⊎ ((env v ≡ none) × (v ≡ iface_var) × (detect_default_iface route ≡ ok x) × (x ≢ []))

-- What the search for variables finds is the interface.
pub auto_detect_env-iface :
    (route : Result Bytes) (missing : List Bytes) (found : Bytes → Option Bytes) (v x : Bytes)
    → auto_detect_env route missing ≡ ok found
    → found v ≡ some x
    → (v ≡ iface_var) × (detect_default_iface route ≡ ok x) × (x ≢ [])
unfolding auto_detect_env
auto_detect_env-iface route missing found v x a f = elim (Bool-cases (member iface_var missing)) [
  | inr e ↦ absurd (none_found (rw (e, auto_detect_env) at a))
  | inl e ↦ elim (Result-cases (detect_default_iface route)) [
    | inr (y, d) ↦
        absurd (ground (arith, rw (d, auto_detect_env) at (rw (e, auto_detect_env) at a)))
    | inl ([], d) ↦ absurd (none_found (rw (d, auto_detect_env) at (rw (e, auto_detect_env) at a)))
    | inl (c ∷ s, d) ↦
        let g = result_ok-eq (rw (d, auto_detect_env) at (rw (e, auto_detect_env) at a)) in
        let h : (if bytes_eq v iface_var then some (c ∷ s) else none) ≡ some x =
          ap (λ (k : Bytes → Option Bytes). k v) g ∙ f in
        elim (Bool-cases (bytes_eq v iface_var)) [
          | inr k ↦ absurd (ground (arith, h, k))
          | inl k ↦
              let same : c ∷ s ≡ x = some-eq (rw k at h) in
              ((bytes_eq_iff v iface_var).0 k, d ∙ ap ok same, λ n. ground (arith, same, n))
        ]
  ]
]
  where
    some-eq : {a b : Bytes} → some a ≡ some b → a ≡ b
    some-eq e = ground (arith, e)

    result_ok-eq : {f g : Bytes → Option Bytes} → ok f ≡ ok g → f ≡ g
    result_ok-eq e = ground (arith, e)

    none_found : ok (λ (u : Bytes). none) ≡ ok found → ⊥
    none_found e = ground (arith, ap (λ (k : Bytes → Option Bytes). k v) (result_ok-eq e), f)

pub missing_vars-or_else_env :
    (env found : Bytes → Option Bytes) (vs : List Bytes)
    → missing_vars found (missing_vars env vs) ≡ []
    → All (λ v. or_else_env env found v ≢ none) vs
unfolding missing_vars
missing_vars-or_else_env env found [] h = tt
missing_vars-or_else_env env found (v ∷ vs) h = elim (Option-cases (env v)) [
  | inr (x, e) ↦
      (ground (arith, e), missing_vars-or_else_env env found vs (rw (e, missing_vars) at h))
  | inl e ↦
      let h' = rw (e, missing_vars) at h in
      elim (Option-cases (found v)) [
        | inl k ↦ absurd (ground (arith, rw (k, missing_vars) at h'))
        | inr (x, k) ↦ (
          ground (arith, e, k),
          missing_vars-or_else_env env found vs (rw (k, missing_vars) at h'),
        )
      ]
]
