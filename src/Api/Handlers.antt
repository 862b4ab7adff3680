-- ===== src/Api/Handlers.antt =====
-- What the handlers of the HTTP interface do.
use mathlib.Core.Option.{some-injective}
use integration_suricata_n_d.Base.{
  ℕ, true, Option, none, some, Option-cases, List, [], ◌∷◌, ◌≡◌, ◌≢◌, subst, ◌⊎◌, ◌↔◌, refl, arith,
  Bytes, codes, if◌then◌else◌, bytes_eq, Bool-cases, inl, inr,
}
use integration_suricata_n_d.Sys.{Error, M, World}
use integration_suricata_n_d.Agent.{Method, get, is_post}
use integration_suricata_n_d.Api.{
  Operation, ApiDeps, Answer, run_operation, health_handler, plan_handler, ensure_and_apply,
  apply_handler, enable_handler, disable_handler, register, serve_mux,
}

-- What ensuring Suricata gives; nothing is done where there is no such operation.
abbrev pub ensured : Option (M (Option Error)) → M (Option Error)
ensured none w = (none, w)
ensured (some ensure) w = ensure w

abbrev pub unless_failed : Option Error → World → World → World
unless_failed (some x) stopped next = stopped
unless_failed none stopped next = next

abbrev pub Every : {H : Type 0} → (H → Type 0) → List (Bytes × H) → Type 0
Every Q [] = Unit
Every Q ((path, h) ∷ routes) = Q h × Every Q routes

-- What holds of every handler holds of the one that a path finds.
pub serve_mux-Every :
    {H : Type 0} (Q : H → Type 0) (routes : List (Bytes × H)) (path : Bytes) (h : H)
    → Every Q routes
    → serve_mux routes path ≡ some h
    → Q h
unfolding serve_mux
serve_mux-Every Q [] path h q e = ground (arith, e)
serve_mux-Every Q ((p, k) ∷ routes) path h q e = elim (Bool-cases (bytes_eq p path)) [
  | inl y ↦ subst Q (some-injective k h (rw (y, serve_mux) at e)) q.0
  | inr n ↦ serve_mux-Every Q routes path h q.1 (rw (n, serve_mux) at e)
]

module _ {P : Type 0} where
  -- The operation is there and gives no error.
  abbrev pub Succeeds : Operation P → World → Type 0
  Succeeds none w = ⊥
  Succeeds (some run) w = (run w).0.1 ≡ none

  -- The machine after the operation, if there is one.
  unfoldable pub after_operation : Operation P → World → World
  after_operation none w = w
  after_operation (some run) w = (run w).1

  pub run_operation_lem :
      (op : Operation P) (missing : Bytes) (code : ℕ) (w : World)
      → code ≢ 200
      → (((run_operation op missing code w).0.status ≡ 200) ↔ Succeeds op w)
        × ((run_operation op missing code w).1 ≡ after_operation op w)
  unfolding run_operation after_operation
  run_operation_lem none missing code w h = (ground arith, refl)
  run_operation_lem (some run) missing code w h = (ground (arith, h), refl)

  ensure_and_apply_lem :
      (d : ApiDeps P) (w : World)
      → let e = ensured d.ensure_suricata w in
        (((ensure_and_apply d w).0.status ≡ 200) ↔ ((e.0 ≡ none) × Succeeds d.apply e.1))
        × ((ensure_and_apply d w).1 ≡ unless_failed e.0 e.1 (after_operation d.apply e.1))
  unfolding ensure_and_apply
  ensure_and_apply_lem d w = elim (Option-cases d.ensure_suricata) [
    | inl n ↦
        let r =
          run_operation_lem d.apply (codes "apply is not configured") 500 w
            (λ e. omega (arith, e)) in
        rw (n, ensure_and_apply) (((λ h. (refl, r.0.0 h)), λ h. r.0.1 h.1), r.1)
    | inr (run, n) ↦ elim (Option-cases (run w).0) [
      | inl e ↦
          let r =
            run_operation_lem d.apply (codes "apply is not configured") 500 (run w).1
              (λ x. omega (arith, x)) in
          rw (n, ensure_and_apply)
            (rw (e, ensure_and_apply) (((λ h. (refl, r.0.0 h)), λ h. r.0.1 h.1), r.1))
      | inr (x, e) ↦ rw (n, ensure_and_apply) (rw (e, ensure_and_apply) (ground arith, refl))
    ]
  ]

  -- A request to apply answers 200 just where it is a POST, Suricata has been ensured, if there is an operation for that,
  -- and the reload then gives no error. Nothing is done without a POST, and no reload where Suricata could not be ensured.
  pub apply_handler_order :
      (d : ApiDeps P) (m : Method) (w : World)
      → let e = ensured d.ensure_suricata w in
        (((apply_handler d m w).0.status ≡ 200)
          ↔ ((is_post m ≡ true) × (e.0 ≡ none) × Succeeds d.apply e.1))
        × ((apply_handler d m w).1
            ≡ (if is_post m then unless_failed e.0 e.1 (after_operation d.apply e.1) else w))
  unfolding apply_handler
  apply_handler_order d m w =
      let r = ensure_and_apply_lem d w in
      elim (Bool-cases (is_post m)) [
        | inl p ↦
            rw (p, apply_handler)
              (((λ h. (refl, (r.0.0 h).0, (r.0.0 h).1)), λ h. r.0.1 (h.1, h.2)), r.1)
        | inr p ↦ rw (p, apply_handler) (ground arith, refl)
      ]

  -- A GET runs no operation but the plan.
  pub register-get :
      (d : ApiDeps P) (path : Bytes) (h : Method → M (Answer P)) (w : World)
      → serve_mux (register d) path ≡ some h
      → ((h get w).1 ≡ w) ⊎ ((h get w).1 ≡ after_operation d.plan w)
  unfolding serve_mux health_handler plan_handler apply_handler enable_handler disable_handler
      after_operation run_operation
  register-get d path h w =
      serve_mux-Every (λ k. ((k get w).1 ≡ w) ⊎ ((k get w).1 ≡ after_operation d.plan w))
        (register d) path h
        (
          inl refl,
          (
            inr (
                (run_operation_lem d.plan (codes "plan is not configured") 500 w
                  (λ x. omega (arith, x))).1),
            (inl refl, (inl refl, (inl refl, tt))),
          ),
        )
