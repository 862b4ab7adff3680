-- ===== src/Runner/Requests.antt =====
-- What the requests to the service leave as it is.
use integration_suricata_n_d.Base.{Option, some, ◌≡◌, ap, ◌∙◌, Bytes, inl, inr}
use integration_suricata_n_d.Sys.{Result, M, World}
use integration_suricata_n_d.Agent.{Method, get}
use integration_suricata_n_d.Client.{Exchange}
use integration_suricata_n_d.Api.{Answer, register, serve_mux}
use integration_suricata_n_d.Api.Handlers.{after_operation, register-get}
use integration_suricata_n_d.Reconcile.Preview.{plan_config-reconcile_config}
use integration_suricata_n_d.Runner.{Runner, Payload, register_routes}

module _ (env : Bytes → Option Bytes) (route : Result Bytes) (sha256_hex : Bytes → Bytes)
    (send : Exchange) where
  -- A GET, at whatever path there is, changes no file.
  pub register_routes-get :
      (r : Runner) (path : Bytes) (h : Method → M (Answer Payload)) (w : World)
      → serve_mux (register (register_routes env route sha256_hex send r)) path ≡ some h
      → (h get w).1.files ≡ w.files
  unfolding register_routes after_operation
  register_routes-get r path h w e =
      elim (register-get (register_routes env route sha256_hex send r) path h w e) [
        | inl same ↦ ap (λ (v : World). v.files) same
        | inr same ↦
            ap (λ (v : World). v.files) same
            ∙ (plan_config-reconcile_config env route sha256_hex r.opts.apply w).1
      ]
