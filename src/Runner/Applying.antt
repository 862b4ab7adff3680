-- ===== src/Runner/Applying.antt =====
-- A request to the service to apply, through the client, the socket and the agent.
use integration_suricata_n_d.Base.{
  ℕ, Bool, false, Option, none, some, Option-cases, List, ◌≡◌, ◌≢◌, ◌⊎◌, ◌↔◌, refl, sym, ap, ◌∙◌,
  arith, Bytes, inl, inr, bytes_eq, codes,
}
use integration_suricata_n_d.Config.{Config, is_empty}
use integration_suricata_n_d.Sys.{Error, Result, ok, World, M}
use integration_suricata_n_d.Agent.{Method, post, Deps, Response, suricata_ensure_handler}
use integration_suricata_n_d.Agent.Ensured.{Connected, suricata_ensure_handler-Connected}
use integration_suricata_n_d.Apply.{ApplyConfigReport, apply_config}
use integration_suricata_n_d.Client.{
  Exchange, EnsureSuricataResponse, request_ensure, ensure_path, ensure_result, reply_of,
}
use integration_suricata_n_d.Client.Replies.{ensure_result-reply_of}
use integration_suricata_n_d.Api.{serve_mux, register, Answer, ApiDeps, apply_handler}
use integration_suricata_n_d.Api.Handlers.{unless_failed, after_operation, apply_handler_order}
use integration_suricata_n_d.Serve.{Outside}
use integration_suricata_n_d.Serve.Delivery.{delivered}
use integration_suricata_n_d.Runner.{
  Runner, Payload, register_routes, ensure_suricata_via_host_agent, agent_client, ensured_or_error,
}
use integration_suricata_n_d.Runner.Toggling.{IsClear}

suricata_ensure_handler-IsClear :
    (clock : List Bool) (d : Deps) (m : Method) (w : World)
    → IsClear (suricata_ensure_handler clock d m w).0
unfolding suricata_ensure_handler
suricata_ensure_handler-IsClear clock d m w = ground arith

-- The service takes the reply for a success just for the status 200.
ensured_or_error-IsClear :
    (status_text : ℕ → Bytes) (r : Response)
    → IsClear r
    → (ensured_or_error (ensure_result (reply_of status_text r)) ≡ none) ↔ (r.status ≡ 200)
ensured_or_error-IsClear status_text r h =
    rw (ensure_result-reply_of status_text r) (ground (arith, h))

agent_ensure :
    (status_text : ℕ → Bytes) (o : Outside) (d : Deps) (w : World)
    → delivered status_text o d ensure_path w ≡ (
      ok (reply_of status_text (suricata_ensure_handler o.ensure_clock d post w).0),
      (suricata_ensure_handler o.ensure_clock d post w).1,
    )
unfolding bytes_eq serve_mux
agent_ensure status_text o d w = refl

request_ensure_lem :
    (status_text : ℕ → Bytes) (o : Outside) (d : Deps) (send : Exchange) (c : Config) (w : World)
    → send (agent_client c) ensure_path w ≡ delivered status_text o d ensure_path w
    → let answer = suricata_ensure_handler o.ensure_clock d post w in
      request_ensure send (agent_client c) w
      ≡ (ensure_result (reply_of status_text answer.0), answer.1)
unfolding request_ensure
request_ensure_lem status_text o d send c w h = rw (h ∙ agent_ensure status_text o d w) refl

ensure_suricata_via_host_agent_lem :
    (status_text : ℕ → Bytes) (o : Outside) (d : Deps) (send : Exchange) (c : Config) (w : World)
    → is_empty c.http.host_agent_socket ≡ false
    → send (agent_client c) ensure_path w ≡ delivered status_text o d ensure_path w
    → let answer = suricata_ensure_handler o.ensure_clock d post w in
      ensure_suricata_via_host_agent send (some c) w
      ≡ (ensured_or_error (ensure_result (reply_of status_text answer.0)), answer.1)
unfolding ensure_suricata_via_host_agent
ensure_suricata_via_host_agent_lem status_text o d send c w e h =
    rw (e, ensure_suricata_via_host_agent)
      (ap
        (λ (x : (Option EnsureSuricataResponse × Option Error) × World).
          (ensured_or_error x.0, x.1))
        (request_ensure_lem status_text o d send c w h))

apply_routed :
    (d : ApiDeps Payload) → serve_mux (register d) (codes "/apply") ≡ some (apply_handler d)
unfolding bytes_eq serve_mux
apply_routed d = refl

module _ (env : Bytes → Option Bytes) (route : Result Bytes) (sha256_hex : Bytes → Bytes)
    (status_text : ℕ → Bytes) (o : Outside) (d : Deps) (send : Exchange) where
  -- The service routes the path "/apply", and a POST to it, where the configuration names a socket and net/http carries the client's request to
  -- the agent and back, answers 200 just where the agent answers that Suricata has been reached, and the reload through
  -- suricatasc then gives no error. The reload is not tried otherwise; and before it the last thing done was to connect to a
  -- socket among the agent's candidates.
  pub serve_mux-Connected :
      (r : Runner) (c : Config) (w : World)
      → r.cfg ≡ some c
      → is_empty c.http.host_agent_socket ≡ false
      → send (agent_client c) ensure_path w ≡ delivered status_text o d ensure_path w
      → let routes = register (register_routes env route sha256_hex send r) in
        let agent = suricata_ensure_handler o.ensure_clock d post w in
        (h : Method → M (Answer Payload)) × (serve_mux routes (codes "/apply") ≡ some h)
        × (((h post w).0.status ≡ 200)
            ↔ ((agent.0.status ≡ 200) × ((apply_config r.opts.apply agent.1).0.1 ≡ none)))
        × (((agent.0.status ≢ 200) × ((h post w).1 ≡ agent.1))
            ⊎ ((agent.0.status ≡ 200)
                × Connected d.suricata_socket_candidates w agent.1
                × ((h post w).1 ≡ (apply_config r.opts.apply agent.1).1)))
  unfolding register_routes after_operation
  serve_mux-Connected r c w loaded named carried =
      let deps = register_routes env route sha256_hex send r in
      let (answers, does) =
        apply_handler_order (register_routes env route sha256_hex send r) post w in
      let call =
        ap (λ (cfg : Option Config). ensure_suricata_via_host_agent send cfg w) loaded
        ∙ ensure_suricata_via_host_agent_lem status_text o d send c w named carried in
      let agent = suricata_ensure_handler o.ensure_clock d post w in
      let failed = ap (λ (x : Option Error × World). x.0) call in
      let machine = ap (λ (x : Option Error × World). x.1) call in
      let clear =
        ensured_or_error-IsClear status_text agent.0
          (suricata_ensure_handler-IsClear o.ensure_clock d post w) in
      let result = ensured_or_error (ensure_result (reply_of status_text agent.0)) in
      let same = ap (apply_config r.opts.apply) machine in
      let first = (ensure_suricata_via_host_agent send r.cfg w) in
      elim (Option-cases result) [
        | inl e ↦
            let fine = clear.0 e in
            (
              apply_handler deps,
              apply_routed deps,
              (
                (λ h. (
                  fine,
                  ap (λ (x : (ApplyConfigReport × Option Error) × World). x.0.1) (sym same)
                      ∙ (answers.0 h).2,
                )),
                λ h. answers.1 (
                  refl,
                  failed ∙ e,
                  ap (λ (x : (ApplyConfigReport × Option Error) × World). x.0.1) same ∙ h.1,
                ),
              ),
              inr (
                fine,
                (suricata_ensure_handler-Connected o.ensure_clock d post w fine).1,
                does
                    ∙ (ap (λ x. unless_failed x first.1 (apply_config r.opts.apply first.1).1)
                          (failed ∙ e)
                        ∙ ap (λ (x : (ApplyConfigReport × Option Error) × World). x.1) same),
              ),
            )
        | inr (x, e) ↦
            let bad : agent.0.status ≢ 200 = λ z. ground (arith, sym e ∙ clear.1 z) in
            (
              apply_handler deps,
              apply_routed deps,
              (
                (λ h. absurd (ground (arith, sym e ∙ (sym failed ∙ (answers.0 h).1)))),
                λ h. absurd (bad h.0),
              ),
              inl (
                bad,
                does
                    ∙ (ap (λ x. unless_failed x first.1 (apply_config r.opts.apply first.1).1)
                          (failed ∙ e)
                        ∙ machine),
              ),
            )
      ]
