-- ===== src/Runner/Toggling.antt =====
-- A request to the service to enable or disable nDPI, through the client, the socket and the agent.
use integration_suricata_n_d.Base.{
  ℕ, Bool, true, false, Option, none, some, Option-cases, ◌≡◌, ◌≢◌, ◌⊎◌, ◌↔◌, refl, sym, ap, ◌∙◌,
  arith, Bytes, inl, inr, Bool-cases, if◌then◌else◌, leb, bytes_eq, codes,
}
use integration_suricata_n_d.Config.{Config, is_empty}
use integration_suricata_n_d.Sys.{Error, Result, ok, Result-cases, M, World}
use integration_suricata_n_d.Toggle.{set_ndpi_enabled}
use integration_suricata_n_d.Agent.{
  Method, post, is_post, Deps, Response, write_err_from_err, classify_err, restart_unit,
  restart_changed, ndpi_toggle_handler,
}
use integration_suricata_n_d.Agent.Replies.{changed_by, Works, ndpi_toggle_handler_answers}
use integration_suricata_n_d.Client.{
  Exchange, ToggleResponse, post_toggle, enable_path, disable_path, toggle_result, reply_of,
}
use integration_suricata_n_d.Client.Replies.{is_ok_of, toggle_result-reply_of}
use integration_suricata_n_d.Api.{
  Answer, register, serve_mux, ApiDeps, run_operation, enable_handler, disable_handler,
}
use integration_suricata_n_d.Serve.{Outside}
use integration_suricata_n_d.Serve.Delivery.{delivered}
use integration_suricata_n_d.Runner.{
  Runner, Payload, register_routes, call_host_agent, agent_client,
}

-- A response that says that all is well has the status 200, and one that does not has one of 300 or more.
abbrev pub IsClear : Response → Type 0
IsClear r = ((r.status ≡ 200) × (is_ok_of r.body ≡ true)) ⊎ (leb 300 r.status ≡ true)

write_err_from_err-IsClear : (e : Error) → IsClear (write_err_from_err e)
unfolding write_err_from_err classify_err
write_err_from_err-IsClear e = ground arith

ndpi_toggle_handler-IsClear :
    (enable : Bool) (d : Deps) (m : Method) (w : World)
    → IsClear (ndpi_toggle_handler enable d m w).0
unfolding ndpi_toggle_handler restart_changed
ndpi_toggle_handler-IsClear enable d m w =
    let set = set_ndpi_enabled d.suricata_cfg_path d.ndpi_plugin_path enable w in
    elim (Bool-cases (is_post m)) [
      | inr p ↦ rw (p, ndpi_toggle_handler) (inr refl)
      | inl p ↦ elim (Result-cases set.0) [
        | inr (x, e) ↦
            rw (p, ndpi_toggle_handler) (rw (e, ndpi_toggle_handler) (write_err_from_err-IsClear x))
        | inl ((false, on), e) ↦
            rw (p, ndpi_toggle_handler) (rw (e, ndpi_toggle_handler) (inl (refl, refl)))
        | inl ((true, on), e) ↦ elim (Option-cases (restart_unit d set.1).0) [
          | inl f ↦
              rw (p, ndpi_toggle_handler)
                (rw (e, ndpi_toggle_handler) (rw (f, restart_changed) (inl (refl, refl))))
          | inr (y, f) ↦
              rw (p, ndpi_toggle_handler)
                (rw (e, ndpi_toggle_handler) (rw (f, restart_changed) (inr refl)))
        ]
      ]
    ]

-- The client gives no error just for the status 200.
toggle_result-IsClear :
    (status_text : ℕ → Bytes) (r : Response)
    → IsClear r
    → ((toggle_result (reply_of status_text r)).1 ≡ none) ↔ (r.status ≡ 200)
toggle_result-IsClear status_text r h =
    rw (toggle_result-reply_of status_text r) (ground (arith, h))

abbrev pub toggle_path : Bool → Bytes
toggle_path enable = if enable then enable_path else disable_path

-- The toggle at the agent.
agent_toggle :
    (status_text : ℕ → Bytes) (o : Outside) (d : Deps) (enable : Bool) (w : World)
    → delivered status_text o d (toggle_path enable) w ≡ (
      ok (reply_of status_text (ndpi_toggle_handler enable d post w).0),
      (ndpi_toggle_handler enable d post w).1,
    )
unfolding bytes_eq serve_mux
agent_toggle status_text o d true w = refl
agent_toggle status_text o d false w = refl

-- The client's request, where net/http carries it to the agent and back.
call_host_agent_lem :
    (status_text : ℕ → Bytes) (o : Outside) (d : Deps) (send : Exchange) (c : Config)
    (enable : Bool) (w : World)
    → is_empty c.http.host_agent_socket ≡ false
    → send (agent_client c) (toggle_path enable) w
      ≡ delivered status_text o d (toggle_path enable) w
    → let answer = ndpi_toggle_handler enable d post w in
      call_host_agent send (some c) enable w
      ≡ (toggle_result (reply_of status_text answer.0), answer.1)
unfolding call_host_agent post_toggle
call_host_agent_lem status_text o d send c enable w e h =
    rw (e, call_host_agent) (rw (h ∙ agent_toggle status_text o d enable w) refl)

-- The service's paths for nDPI.
abbrev pub service_path : Bool → Bytes
service_path enable = if enable then codes "/ndpi/enable" else codes "/ndpi/disable"

-- `NDPIEnable` and `NDPIDisable`
abbrev pub toggle_handler : Bool → ApiDeps Payload → Method → M (Answer Payload)
toggle_handler enable = if enable then enable_handler else disable_handler

toggle_routed :
    (d : ApiDeps Payload) (enable : Bool)
    → serve_mux (register d) (service_path enable) ≡ some (toggle_handler enable d)
unfolding bytes_eq serve_mux
toggle_routed d true = refl
toggle_routed d false = refl

module _ (env : Bytes → Option Bytes) (route : Result Bytes) (sha256_hex : Bytes → Bytes)
    (status_text : ℕ → Bytes) (o : Outside) (d : Deps) (send : Exchange) where
  toggle_handler_calls :
      (r : Runner) (enable : Bool) (w : World)
      → let called = call_host_agent send r.cfg enable w in
        let answer = toggle_handler enable (register_routes env route sha256_hex send r) post w in
        (((answer.0.status ≡ 200) × (called.0.1 ≡ none))
          ⊎ ((answer.0.status ≡ 502) × (called.0.1 ≢ none)))
        × (answer.1 ≡ called.1)
  unfolding register_routes enable_handler disable_handler run_operation
  toggle_handler_calls r true w = (ground arith, refl)
  toggle_handler_calls r false w = (ground arith, refl)

  -- The service routes its paths for nDPI, and a POST to one of them, where the configuration names a socket and net/http carries the client's request
  -- to the agent and back, answers 200 just where the agent's toggle worked and changed nothing or was followed by a restart
  -- that worked, and answers 502 otherwise; and all that it does to the machine is what the agent does.
  pub serve_mux-Works :
      (r : Runner) (c : Config) (enable : Bool) (w : World)
      → r.cfg ≡ some c
      → is_empty c.http.host_agent_socket ≡ false
      → send (agent_client c) (toggle_path enable) w
        ≡ delivered status_text o d (toggle_path enable) w
      → let set = set_ndpi_enabled d.suricata_cfg_path d.ndpi_plugin_path enable w in
        let worked = Works set.0 ((restart_unit d set.1).0) in
        let routes = register (register_routes env route sha256_hex send r) in
        (h : Method → M (Answer Payload)) × (serve_mux routes (service_path enable) ≡ some h)
        × ((((h post w).0.status ≡ 200) × worked) ⊎ (((h post w).0.status ≡ 502) × (worked → ⊥)))
        × ((h post w).1 ≡ (if changed_by set.0 then (restart_unit d set.1).1 else set.1))
  serve_mux-Works r c enable w loaded named carried =
      let (works, does) = ndpi_toggle_handler_answers enable d post w in
      let (answers, did) = toggle_handler_calls r enable w in
      let call =
        ap (λ (cfg : Option Config). call_host_agent send cfg enable w) loaded
        ∙ call_host_agent_lem status_text o d send c enable w named carried in
      let clear =
        toggle_result-IsClear status_text (ndpi_toggle_handler enable d post w).0
          (ndpi_toggle_handler-IsClear enable d post w) in
      let failed = ap (λ (x : (Option ToggleResponse × Option Error) × World). x.0.1) call in
      let machine = ap (λ (x : (Option ToggleResponse × Option Error) × World). x.1) call in
      let deps = register_routes env route sha256_hex send r in
      (
        toggle_handler enable deps,
        toggle_routed deps enable,
        elim answers [
          | inl (s, z) ↦ inl (s, (works.0 (clear.0 (sym failed ∙ z))).1)
          | inr (s, z) ↦ inr (s, λ k. z (failed ∙ clear.1 (works.1 (refl, k))))
        ],
        did ∙ (machine ∙ does),
      )
