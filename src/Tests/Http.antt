-- ===== src/Tests/Http.antt =====
-- The service's start and its requests, on a concrete machine with an agent.
use integration_suricata_n_d.Agent.{Method}
use integration_suricata_n_d.Api.{Answer, register}
use integration_suricata_n_d.Runner.{Payload}
use integration_suricata_n_d.Sys.{M}
use integration_suricata_n_d.Base.{
  ℕ, true, false, Option, none, some, [], ◌∷◌, ◌≡◌, ◌≢◌, ◌⊎◌, ◌↔◌, refl, Bytes, codes,
  if◌then◌else◌, bytes_eq,
}
use integration_suricata_n_d.Sys.{Error, ok, outer, other}
use integration_suricata_n_d.Config.{Config, apply_defaults, is_empty}
use integration_suricata_n_d.Toggle.{set_ndpi_enabled}
use integration_suricata_n_d.Apply.{apply_config}
use integration_suricata_n_d.Agent.{get, post, Body, toggled, restart_unit, suricata_ensure_handler}
use integration_suricata_n_d.Agent.Ensured.{Connected}
use integration_suricata_n_d.Agent.Replies.{Works, changed_by}
use integration_suricata_n_d.Client.{encode_body, decode_toggle, decode_ensure, Exchange}
use integration_suricata_n_d.Client.Replies.{
  is_ok_of, changed_of, enabled_of, started_of, message_of, socket_of, code_of, decode-encode_body,
}
use integration_suricata_n_d.Api.{register, serve_mux, plan_handler}
use integration_suricata_n_d.Serve.{Outside}
use integration_suricata_n_d.Serve.Delivery.{delivered}
use integration_suricata_n_d.Runner.{Runner, new_runner, register_routes}
use integration_suricata_n_d.Runner.Requests.{register_routes-get}
use integration_suricata_n_d.Runner.Toggling.{service_path, serve_mux-Works}
use integration_suricata_n_d.Runner.Applying.{serve_mux-Connected}
use integration_suricata_n_d.Tests.Machine.{machine, deps, environment, route, digest}
use integration_suricata_n_d.Tests.Settings.{written_config, unmarshal}

abbrev changed_body : Body
changed_body = toggled true true (codes "ok")

decode-encode_body_example :
    (decode_toggle (encode_body changed_body)
      ≡ ok (record {
        is_ok = is_ok_of changed_body;
        changed = changed_of changed_body;
        message = message_of changed_body;
        enabled = enabled_of changed_body;
      }))
    × (decode_ensure (encode_body changed_body)
        ≡ ok (record {
          is_ok = is_ok_of changed_body;
          started = started_of changed_body;
          socket = socket_of changed_body;
          code = code_of changed_body;
          message = message_of changed_body;
        }))
decode-encode_body_example = decode-encode_body changed_body

-- The context is not done, all globs can be listed, and one address is free.
abbrev not_done : ℕ → Option Error
not_done n = none

abbrev listable : Bytes → Option Error
listable p = none

abbrev new_one : Runner
new_one = new_runner (codes "/e/s")

abbrev config : Config
config = apply_defaults written_config

-- The service after its start.
abbrev serving : Runner
serving = record new_one { cfg = some config }

abbrev outside : Outside
outside = record {
  listeners = ok [];
  listen = λ p w. (none, w);
  unmarshal = λ s. none;
  done = outer other (codes "done");
  ensure_clock = true ∷ [];
  reload_clock = true ∷ [];
}

abbrev status_text : ℕ → Bytes
status_text n = codes "status"

-- The client's requests are carried to the agent.
abbrev carried : Exchange
carried c path w = delivered status_text outside deps path w

plan_found :
    serve_mux (register (register_routes environment route digest carried serving)) (codes "/plan")
    ≡ some (plan_handler (register_routes environment route digest carried serving))
unfolding serve_mux bytes_eq
plan_found = refl

register_routes-get_example :
    (plan_handler (register_routes environment route digest carried serving) get machine).1.files
    ≡ machine.files
register_routes-get_example =
    register_routes-get environment route digest carried serving (codes "/plan")
      (plan_handler (register_routes environment route digest carried serving)) machine plan_found

socket_named : is_empty config.http.host_agent_socket ≡ false
unfolding apply_defaults
socket_named = refl

serve_mux-Works_example :
    let set = set_ndpi_enabled deps.suricata_cfg_path deps.ndpi_plugin_path true machine in
    let worked = Works set.0 ((restart_unit deps set.1).0) in
    let routes = register (register_routes environment route digest carried serving) in
    (h : Method → M (Answer Payload)) × (serve_mux routes (service_path true) ≡ some h)
    × ((((h post machine).0.status ≡ 200) × worked)
        ⊎ (((h post machine).0.status ≡ 502) × (worked → ⊥)))
    × ((h post machine).1 ≡ (if changed_by set.0 then (restart_unit deps set.1).1 else set.1))
serve_mux-Works_example =
    serve_mux-Works environment route digest status_text outside deps carried serving config true
      machine refl socket_named refl

serve_mux-Connected_example :
    let routes = register (register_routes environment route digest carried serving) in
    let agent = suricata_ensure_handler outside.ensure_clock deps post machine in
    (h : Method → M (Answer Payload)) × (serve_mux routes (codes "/apply") ≡ some h)
    × (((h post machine).0.status ≡ 200)
        ↔ ((agent.0.status ≡ 200) × ((apply_config serving.opts.apply agent.1).0.1 ≡ none)))
    × (((agent.0.status ≢ 200) × ((h post machine).1 ≡ agent.1))
        ⊎ ((agent.0.status ≡ 200)
            × Connected deps.suricata_socket_candidates machine agent.1
            × ((h post machine).1 ≡ (apply_config serving.opts.apply agent.1).1)))
serve_mux-Connected_example =
    serve_mux-Connected environment route digest status_text outside deps carried serving config
      machine refl socket_named refl
