-- ===== src/Runner.antt =====
-- integration/runner.go and http_server.go: the integration service, its start, and the operations behind its HTTP interface.
pub mod Serving
pub mod Checked
pub mod Toggling
pub mod Applying
pub mod Requests
use integration_suricata_n_d.Base.{
  ℕ, Bool, true, false, not, Option, none, some, List, [], ◌∷◌, ◌++◌, if◌then◌else◌, Bytes, codes,
  Duration, pos, le_zero, seconds,
}
use integration_suricata_n_d.Config.{Config, is_empty, load}
use integration_suricata_n_d.Options.{RunnerOptions, build_runner_options, SuricataStartOptions}
use integration_suricata_n_d.Sys.{Error, msg, wrap, Result, ok, err, M, World, read_file}
use integration_suricata_n_d.Atomic.{then_return}
use integration_suricata_n_d.Validate.{validate_local_resources, validate_ndpi_config}
use integration_suricata_n_d.Service.{connect_suricata_with_start}
use integration_suricata_n_d.Reconcile.{PlanReport, ReconcileReport, plan_config, reconcile_config}
use integration_suricata_n_d.Apply.{ApplyConfigReport, apply_config}
use integration_suricata_n_d.Client.{
  ToggleResponse, EnsureSuricataResponse, Client, new_client, Exchange, set_ndpi, request_ensure,
}
use integration_suricata_n_d.Api.{Operation, ApiDeps, HttpServer}

-- The zero value of the options.
abbrev pub zero_options : RunnerOptions
zero_options = record {
  apply = record {
    template_path = [];
    config_candidates = [];
    socket_candidates = [];
    suricata_sc_path = [];
    suricata_bin_path = [];
    systemctl_path = [];
    suricata_service = [];
    reload_command = [];
    reload_timeout = pos 0;
  };
  ndpi_validate = record {
    ndpi_plugin_path = [];
    ndpi_rules_dir = [];
    suricata_template_path = [];
    suricata_sc_path = [];
    reload_command = [];
    reload_timeout = pos 0;
    expected_rules_pattern = [];
  };
  suricata_start = record {
    socket_candidates = [];
    systemctl_path = [];
    systemd_unit = [];
    start_timeout = pos 0;
  };
}

-- `cfg` and `http_server` are none where the pointers are nil.
pub record Runner : Type 0 where
  pub config_path : Bytes
  pub cfg : Option Config
  pub opts : RunnerOptions
  pub http_server : Option HttpServer

-- `NewRunner`
abbrev pub new_runner : Bytes → Runner
new_runner path = record { config_path = path; cfg = none; opts = zero_options; http_server = none }

-- How the wait at the end of a start ends: with the context, or with an error of the server.
pub data Waited : Type 0 where
  context_done : Waited
  server_failed : Error → Waited

-- `checkContext`, of the error that the context has.
abbrev pub check_context : Option Error → M (Option Error)
check_context e w = (e, w)

-- An error with a text before it.
abbrev pub explained : Bytes → M (Option Error) → M (Option Error)
explained text m w = (elim (m w).0 [ none ↦ none | some e ↦ some (wrap text e []) ], (m w).1)

-- `ConnectSuricataWithStart`, whose connection is closed.
abbrev pub reach_suricata : RunnerOptions → M (Option Error)
reach_suricata o w =
    let (r, w') = connect_suricata_with_start o.suricata_start w in
    (elim r [ ok path ↦ none | err e ↦ some e ], w')

abbrev pub step_resources : (Bytes → Option Error) → Config → M (Option Error)
step_resources glob_error c =
    explained (codes "step 1 (validate local resources) failed: ")
      (validate_local_resources glob_error c.paths.ndpi_rules_local c.paths.suricata_template)

abbrev pub step_ndpi : Config → M (Option Error)
step_ndpi c =
    explained (codes "step 2 (validate ndpi config) failed: ")
      (validate_ndpi_config (build_runner_options c).ndpi_validate)

abbrev pub step_suricata : Config → M (Option Error)
step_suricata c =
    explained (codes "step 3 (ensure suricata running) failed: ")
      (reach_suricata (build_runner_options c))

-- From the loaded configuration to the start of the HTTP server. The parameters are the errors that the context has at the
-- four checks, and the error of `Glob` on a pattern.
unfoldable pub start_checks :
    (ℕ → Option Error) → (Bytes → Option Error) → Config → M (Option Error)
start_checks context glob_error c = then_return (check_context (context 0)) (
    then_return (step_resources glob_error c) (
      then_return (check_context (context 1)) (
        then_return (step_ndpi c) (
          then_return (check_context (context 2))
            (then_return (step_suricata c) (check_context (context 3)))))))

abbrev pub http_server_at : Bytes → HttpServer
http_server_at addr = record {
  addr = addr;
  read_header_timeout = seconds 5;
  read_timeout = seconds 15;
  write_timeout = seconds 30;
  idle_timeout = seconds 60;
}

-- `startHTTPServer`, given the error of `net.Listen` on an address.
unfoldable pub start_http_server : (Bytes → Option Error) → Runner → Option Error × Runner
start_http_server listen r = elim r.cfg [
  | none ↦ (some (msg (codes "config is not loaded")), r)
  | some c ↦
      if is_empty c.http.addr
      then (some (msg (codes "http.addr is empty")), r)
      else elim (listen c.http.addr) [
        | some e ↦ (some (wrap (codes "http listen " ++ (c.http.addr ++ codes ": ")) e []), r)
        | none ↦ (none, record r { http_server = some (http_server_at c.http.addr) })
      ]
]

abbrev pub wait_end : Waited → Option Error
wait_end context_done = none
wait_end (server_failed e) = some (wrap (codes "http server failed: ") e [])

-- The end of `Start`, behind the checks.
unfoldable pub serve : (Bytes → Option Error) → Waited → Runner → Option Error × Runner
serve listen waited r =
    let (e, r') = start_http_server listen r in
    elim e [ some x ↦ (some x, r') | none ↦ (wait_end waited, r') ]

-- `Start` from the assignments on.
unfoldable pub start_loaded :
    (ℕ → Option Error)
    → (Bytes → Option Error)
    → (Bytes → Option Error)
    → Waited
    → Runner
    → Config
    → M (Option Error × Runner)
start_loaded context glob_error listen waited r c w =
    let r' : Runner = record r { cfg = some c; opts = build_runner_options c } in
    let (e, w') = start_checks context glob_error c w in
    (elim e [ some x ↦ (some x, r') | none ↦ serve listen waited r' ], w')

-- `Start`: the error that it gives, the runner that it leaves, and the machine. What the YAML package makes of the file, and
-- how the wait ends, are parameters.
unfoldable pub start :
    (Bytes → Result Config)
    → (ℕ → Option Error)
    → (Bytes → Option Error)
    → (Bytes → Option Error)
    → Waited
    → Runner
    → M (Option Error × Runner)
start unmarshal context glob_error listen waited r w =
    let (raw, w') = read_file r.config_path w in
    elim (load unmarshal r.config_path raw) [
      | err e ↦ ((some (wrap (codes "failed to load config.yaml: ") e []), r), w')
      | ok c ↦ start_loaded context glob_error listen waited r c w'
    ]

-- The values that the operations give to the HTTP interface.
pub data Payload : Type 0 where
  planned : PlanReport → Payload
  reconciled : ReconcileReport → Payload
  applied : ApplyConfigReport → Payload
  toggled : Option ToggleResponse → Payload

-- The value of an operation, as `any`.
abbrev pub giving : {A : Type 0} → (A → Payload) → M (A × Option Error) → M (Payload × Option Error)
giving f m w = ((f (m w).0.0, (m w).0.1), (m w).1)

-- The socket and the timeout of the client for the host agent.
abbrev pub agent_client : Config → Client
agent_client c =
    new_client c.http.host_agent_socket
      (if le_zero c.http.host_agent_timeout then seconds 10 else c.http.host_agent_timeout)

-- `callHostAgent`
unfoldable pub call_host_agent :
    Exchange → Option Config → Bool → M (Option ToggleResponse × Option Error)
call_host_agent send none enable w = ((none, some (msg (codes "config is not loaded"))), w)
call_host_agent send (some c) enable w =
    if is_empty c.http.host_agent_socket
    then ((none, some (msg (codes "http.host_agent_socket is empty"))), w)
    else set_ndpi send (agent_client c) enable w

-- What `ensureSuricataViaHostAgent` makes of the client's result. The client gives a response wherever it gives no error.
abbrev pub ensured_or_error : Option EnsureSuricataResponse × Option Error → Option Error
ensured_or_error (r, some e) = some e
ensured_or_error (none, none) = none
ensured_or_error (some r, none) =
    if not r.is_ok
    then some (
        msg (
          codes "host-agent ensure suricata failed: "
          ++ (r.message ++ (codes " (" ++ (r.code ++ codes ")")))))
    else none

-- `ensureSuricataViaHostAgent`
unfoldable pub ensure_suricata_via_host_agent : Exchange → Option Config → M (Option Error)
ensure_suricata_via_host_agent send none w = (some (msg (codes "config is not loaded")), w)
ensure_suricata_via_host_agent send (some c) w =
    if is_empty c.http.host_agent_socket
    then (some (msg (codes "http.host_agent_socket is empty")), w)
    else (let (r, w') = request_ensure send (agent_client c) w in (ensured_or_error r, w'))

-- The environment, what reading /proc/net/route gives, the digest, and the requests to the host agent.
module _ (env : Bytes → Option Bytes) (route : Result Bytes) (sha256_hex : Bytes → Bytes)
    (send : Exchange) where
  -- The operations of `registerRoutes`. Each holds the lock of the runner while it runs; see `Lock`.
  unfoldable pub register_routes : Runner → ApiDeps Payload
  register_routes r = record {
    plan = some (giving planned (plan_config env route sha256_hex r.opts.apply));
    reconcile = some (giving reconciled (reconcile_config env route sha256_hex r.opts.apply));
    apply = some (giving applied (apply_config r.opts.apply));
    ensure_suricata = some (ensure_suricata_via_host_agent send r.cfg);
    enable_ndpi = some (giving toggled (call_host_agent send r.cfg true));
    disable_ndpi = some (giving toggled (call_host_agent send r.cfg false));
  }

-- `Stop`, given what `Shutdown` of the server gives.
abbrev pub stop : (HttpServer → Option Error) → Runner → Option Error
stop shutdown r = elim r.http_server [ none ↦ none | some s ↦ shutdown s ]
