-- ===== src/Serve.antt =====
-- pkg/hostagent/server.go: how the host agent comes to listen, and the routes of its requests.
pub mod Made
pub mod Delivery
use integration_suricata_n_d.Base.{
  ℕ, Bool, true, false, Option, none, some, List, [], ◌∷◌, ◌++◌, if◌then◌else◌, Bytes, codes,
  Duration, le_zero, seconds, millis,
}
use integration_suricata_n_d.Config.{is_empty}
use integration_suricata_n_d.Sys.{Error, outer, other, msg, wrap, Result, ok, err, M, chmod}
use integration_suricata_n_d.Listener.{remove_if_socket}
use integration_suricata_n_d.Agent.{
  Method, post, Deps, Response, ndpi_status_handler, ndpi_toggle_handler, suricata_ensure_handler,
  suricata_reload_handler,
}
use integration_suricata_n_d.Api.{HttpServer, serve_mux}
use integration_suricata_n_d.Client.{Reply, reply_of}

-- A listener of the socket that systemd hands over, or of one that the agent makes.
pub data Listener : Type 0 where
  activated : Bytes → Listener
  bound : Bytes → Listener

pub record Server : Type 0 where
  pub deps : Deps
  pub listener : Listener
  pub server : HttpServer

-- What the agent is given from outside: the listeners of `activation.Listeners`, `net.Listen` on a path, what the JSON package
-- makes of an answer of suricatasc, the error of a context that is done, and the readings of the two loops' clocks.
pub record Outside : Type 0 where
  pub listeners : Result (List Bytes)
  pub listen : Bytes → M (Option Error)
  pub unmarshal : Bytes → Option Bytes
  pub done : Error
  pub ensure_clock : List Bool
  pub reload_clock : List Bool

-- `net.Listen` and the change of the mode, whose error is dropped.
unfoldable pub bind : (Bytes → M (Option Error)) → Bytes → M (Result Listener)
bind listen path w =
    let (e, w') = listen path w in
    elim e [
      | some x ↦ (err (wrap (codes "listen unix " ++ (path ++ codes ": ")) x []), w')
      | none ↦ (ok (bound path), (chmod path 0o660 w').1)
    ]

-- `getListener`, from the removal of an old socket on.
unfoldable pub replace_socket : Outside → Bytes → M (Result Listener)
replace_socket o path w =
    let (e, w') = remove_if_socket path w in
    elim e [ some x ↦ (err x, w') | none ↦ bind o.listen path w' ]

-- `getListener`
unfoldable pub get_listener : Outside → Bytes → M (Result Listener)
get_listener o path w = elim o.listeners [
  | ok (l ∷ ls) ↦ (ok (activated l), w)
  | ok [] ↦ replace_socket o path w
  | err e ↦ replace_socket o path w
]

-- The defaults of `New`.
abbrev pub with_defaults : Deps → Deps
with_defaults d = record d {
  restart_timeout = if le_zero d.restart_timeout then seconds 20 else d.restart_timeout;
  suricata_connect_timeout =
      if le_zero d.suricata_connect_timeout then millis 300 else d.suricata_connect_timeout;
}

-- The first of `New`'s checks that fails.
unfoldable pub missing_field : Deps → Option Error
missing_field d =
    if is_empty d.socket_path
    then some (msg (codes "socket path is empty"))
    else if is_empty d.suricata_cfg_path
    then some (msg (codes "suricata config path is empty"))
    else if is_empty d.ndpi_plugin_path
    then some (msg (codes "ndpi plugin path is empty"))
    else if is_empty d.suricata_unit
    then some (msg (codes "suricata unit is empty"))
    else none

abbrev pub agent_server : HttpServer
agent_server = record {
  addr = [];
  read_header_timeout = seconds 5;
  read_timeout = seconds 5;
  write_timeout = seconds 45;
  idle_timeout = seconds 30;
}

-- `New`. The handler of its server is `agent_routes`.
unfoldable pub new_server : Outside → Deps → M (Result Server)
new_server o d w = elim (missing_field d) [
  | some e ↦ (err e, w)
  | none ↦
      (let (l, w') = get_listener o d.socket_path w in
        (
          elim l [
            | err e ↦ err e
            | ok listener ↦
                ok (record { deps = with_defaults d; listener = listener; server = agent_server })
          ],
          w',
        ))
]

-- An answer of the agent: the plain text of `Health`, or one of the others'.
pub data Served : Type 0 where
  health_text : Served
  answered : Response → Served

abbrev pub answering : (Method → M Response) → Method → M Served
answering h m w = (answered (h m w).0, (h m w).1)

abbrev pub agent_health : Method → M Served
agent_health m w = (health_text, w)

-- The patterns of `New` with their handlers.
abbrev pub agent_routes : Outside → Deps → List (Bytes × (Method → M Served))
agent_routes o d =
    (codes "/health", agent_health)
    ∷ (codes "/suricata/ensure", answering (suricata_ensure_handler o.ensure_clock d))
    ∷ (codes "/ndpi/status", answering (ndpi_status_handler d))
    ∷ (codes "/ndpi/enable", answering (ndpi_toggle_handler true d))
    ∷ (codes "/ndpi/disable", answering (ndpi_toggle_handler false d))
    ∷ (
      codes "/suricata/reload",
      answering (suricata_reload_handler o.unmarshal o.done o.reload_clock d),
    )
    ∷ []

-- What ends the select of `Start`: the context, or what the goroutine sends once `Serve` has come back.
pub data ServeEnd : Type 0 where
  context_done : ServeEnd
  server_closed : ServeEnd
  serve_failed : Error → ServeEnd

-- `Start`. It calls `Stop` where the context is done, and drops its error.
abbrev pub start_server : ServeEnd → Option Error
start_server context_done = none
start_server server_closed = none
start_server (serve_failed e) = some e

-- `Stop`, given what `Shutdown` gives; the listener is closed, and the error of that is dropped.
abbrev pub stop_server : (HttpServer → Option Error) → Server → Option Error
stop_server shutdown s = shutdown s.server
