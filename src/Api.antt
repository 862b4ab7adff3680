-- ===== src/Api.antt =====
-- internal/httpapi: the HTTP interface, over the operations that it is given. The values that they return are those of `P`.
pub mod Handlers
use integration_suricata_n_d.Base.{
  ℕ, Bool, Duration, true, false, Option, none, some, List, [], ◌∷◌, if◌then◌else◌, Bytes, codes,
  bytes_eq,
}
use integration_suricata_n_d.Sys.{Error, error_text, M}
use integration_suricata_n_d.Agent.{Method, get, post, other_method, is_get, is_post}

-- The address and the limits of an `http.Server`.
pub record HttpServer : Type 0 where
  pub addr : Bytes
  pub read_header_timeout : Duration
  pub read_timeout : Duration
  pub write_timeout : Duration
  pub idle_timeout : Duration

-- An operation; none stands for a nil function.
abbrev pub Operation : Type 0 → Type 0
Operation P = Option (M (P × Option Error))

pub record ApiDeps (P : Type 0) : Type 0 where
  pub plan : Operation P
  pub reconcile : Operation P
  pub apply : Operation P
  pub ensure_suricata : Option (M (Option Error))
  pub enable_ndpi : Operation P
  pub disable_ndpi : Operation P

-- What `writeJSON` is given: the two maps, or a value.
pub data Content (P : Type 0) : Type 0 where
  health_ok : Content P
  failure : Bytes → Content P
  payload : P → Content P

pub record Answer (P : Type 0) : Type 0 where
  pub status : ℕ
  pub content : Content P

module _ {P : Type 0} where
  abbrev pub answer : ℕ → Content P → Answer P
  answer s c = record { status = s; content = c }

  -- `writeJSONError`
  abbrev pub write_json_error : ℕ → Bytes → Answer P
  write_json_error s text = answer s (failure text)

  abbrev pub method_not_allowed : Answer P
  method_not_allowed = write_json_error 405 (codes "method not allowed")

  -- `if !requireMethod(…) { return }`
  abbrev pub require_method : Bool → M (Answer P) → M (Answer P)
  require_method allowed next w = if allowed then next w else (method_not_allowed, w)

  -- A call of an operation: the answer when it is nil, when it fails, and when it works.
  unfoldable pub run_operation : Operation P → Bytes → ℕ → M (Answer P)
  run_operation none missing code w = (write_json_error 500 missing, w)
  run_operation (some run) missing code w =
      let ((value, failed), w') = run w in
      (
        elim failed [
          | some e ↦ write_json_error code (error_text e)
          | none ↦ answer 200 (payload value)
        ],
        w',
      )

  unfoldable pub health_handler : Method → M (Answer P)
  health_handler m w = require_method (is_get m) (λ v. (answer 200 health_ok, v)) w

  unfoldable pub plan_handler : ApiDeps P → Method → M (Answer P)
  plan_handler d get w = run_operation d.plan (codes "plan is not configured") 500 w
  plan_handler d post w = run_operation d.reconcile (codes "reconcile is not configured") 500 w
  plan_handler d other_method w = (method_not_allowed, w)

  -- `Apply` behind the check of the method.
  unfoldable pub ensure_and_apply : ApiDeps P → M (Answer P)
  ensure_and_apply d w =
      let apply = run_operation d.apply (codes "apply is not configured") 500 in
      elim d.ensure_suricata [
        | none ↦ apply w
        | some ensure ↦
            (let (e, w') = ensure w in
              elim e [ some x ↦ (write_json_error 502 (error_text x), w') | none ↦ apply w' ])
      ]

  unfoldable pub apply_handler : ApiDeps P → Method → M (Answer P)
  apply_handler d m w = require_method (is_post m) (ensure_and_apply d) w

  unfoldable pub enable_handler : ApiDeps P → Method → M (Answer P)
  enable_handler d m w =
      require_method (is_post m)
        (run_operation d.enable_ndpi (codes "enable_ndpi is not configured") 502) w

  unfoldable pub disable_handler : ApiDeps P → Method → M (Answer P)
  disable_handler d m w =
      require_method (is_post m)
        (run_operation d.disable_ndpi (codes "disable_ndpi is not configured") 502) w

  -- `Register`: the patterns with their handlers.
  abbrev pub register : ApiDeps P → List (Bytes × (Method → M (Answer P)))
  register d =
      (codes "/health", health_handler)
      ∷ (codes "/plan", plan_handler d)
      ∷ (codes "/apply", apply_handler d)
      ∷ (codes "/ndpi/enable", enable_handler d)
      ∷ (codes "/ndpi/disable", disable_handler d)
      ∷ []

-- What `http.ServeMux` does with patterns that end in no slash: the handler of the pattern that is the path.
unfoldable pub serve_mux : {H : Type 0} → List (Bytes × H) → Bytes → Option H
serve_mux [] path = none
serve_mux ((pattern_path, h) ∷ routes) path =
    if bytes_eq pattern_path path then some h else serve_mux routes path
