-- ===== src/Service.antt =====
-- Reaching Suricata: integration/paths.go, socket_candidates.go, service_manager.go, start_suricata.go
-- and connect_suricata.go, and pkg/systemd/manager.go.
pub mod Reach
pub mod Later
pub mod Started
use integration_suricata_n_d.Base.{
  ℕ, Bool, true, false, not, Option, none, some, List, [], ◌∷◌, ◌++◌, if◌then◌else◌, Bytes, codes,
  Duration, le_zero, seconds,
}
use integration_suricata_n_d.Text.{trim_space}
use integration_suricata_n_d.Config.{is_empty}
use integration_suricata_n_d.Options.{SuricataStartOptions}
use integration_suricata_n_d.Sys.{
  deadline_exceeded, Error, msg, wrap, report, is_kind, Result, ok, err, NodeKind, Node, RunResult,
  M, combined_output, dial_timeout, stat, is_socket,
}

-- `FirstExistingPath`; `all` is the whole list, for the message.
unfoldable pub first_path_of : List Bytes → List Bytes → M (Result Bytes)
first_path_of all [] w = (err (report (codes "none of the paths were found: %v") all), w)
first_path_of all (p ∷ paths) w = elim (stat p w).0 [
  | ok n ↦ (ok p, (stat p w).1)
  | err e ↦ first_path_of all paths (stat p w).1
]

abbrev pub first_existing_path : List Bytes → M (Result Bytes)
first_existing_path paths = first_path_of paths paths

-- `FirstExistingSocket`
unfoldable pub first_socket_of : List Bytes → List Bytes → M (Result Bytes)
first_socket_of all [] w = (err (report (codes "no unix socket found in candidates: %v") all), w)
first_socket_of all (p ∷ paths) w =
    let (r, w') = stat p w in
    let rest = first_socket_of all paths w' in
    elim r [ err e ↦ rest | ok n ↦ if is_socket n.kind then (ok p, w') else rest ]

abbrev pub first_existing_socket : List Bytes → M (Result Bytes)
first_existing_socket paths = first_socket_of paths paths

-- `EnsureSuricataRunningWithDialer`, behind the search for the socket.
unfoldable pub probe_socket : Bytes → M (Option Error)
probe_socket path w =
    let (st, w1) = stat path w in
    elim st [
      | err e ↦
          (some (wrap (codes "failed to stat suricata socket (" ++ (path ++ codes "): ")) e []), w1)
      | ok n ↦
          if not (is_socket n.kind)
          then (some (msg (codes "path exists but is not a unix socket: " ++ path)), w1)
          else (let (d, w2) = dial_timeout path w1 in
              (
                elim d [
                  | none ↦ none
                  | some e ↦ some (
                      wrap
                        (codes "suricata socket exists but dial failed (" ++ (path ++ codes "): "))
                        e [])
                ],
                w2,
              ))
    ]

unfoldable pub ensure_suricata_running : List Bytes → M (Option Error)
ensure_suricata_running candidates w =
    let (s, w1) = first_existing_socket candidates w in
    elim s [
      | err e ↦ (some (wrap (codes "suricata is unavailable: control socket not found: ") e []), w1)
      | ok path ↦ probe_socket path w1
    ]

-- `NewManager`: the command's path, "systemctl" where it is blank.
abbrev pub manager_command : Bytes → Bytes
manager_command path = if is_empty (trim_space path) then codes "systemctl" else path

-- What `Restart` makes of the command's result.
unfoldable pub restart_outcome : Bytes → RunResult → Option Error
restart_outcome unit r =
    let failed : Option Error = elim r.failure [
      | none ↦ none
      | some e ↦ some (
          report (codes "systemctl restart failed for unit=%s: %v output=%q")
            (unit ∷ trim_space r.output ∷ []))
    ] in
    elim r.context [
      | none ↦ failed
      | some c ↦
          if is_kind deadline_exceeded c
          then some (msg (codes "systemctl restart timed out for unit=" ++ unit))
          else failed
    ]

-- `(*ServiceManager).Restart`
unfoldable pub restart : Bytes → Bytes → Duration → M (Option Error)
restart command unit timeout w =
    let name = trim_space unit in
    if is_empty name
    then (some (msg (codes "systemd unit is empty")), w)
    else if le_zero timeout
    then (some (msg (codes "restart timeout must be > 0")), w)
    else (let (r, w') = combined_output command (codes "restart" ∷ name ∷ []) w in
        (restart_outcome name r, w'))

-- The end of `EnsureSuricataStarted`: the restart and the second probe.
unfoldable pub start_and_probe : SuricataStartOptions → M (Option Error)
start_and_probe opts w =
    let timeout = if le_zero opts.start_timeout then seconds 20 else opts.start_timeout in
    let (r, w1) =
      restart (manager_command opts.systemctl_path) (trim_space opts.systemd_unit) timeout w in
    elim r [
      | some e ↦ (some (wrap (codes "failed to start suricata via systemd: ") e []), w1)
      | none ↦
          (let (p, w2) = ensure_suricata_running opts.socket_candidates w1 in
            (
              elim p [
                | none ↦ none
                | some e ↦ some (wrap (codes "suricata started but socket not reachable: ") e [])
              ],
              w2,
            ))
    ]

unfoldable pub ensure_suricata_started : SuricataStartOptions → M (Option Error)
ensure_suricata_started opts w =
    let (p, w1) = ensure_suricata_running opts.socket_candidates w in
    elim p [
      | none ↦ (none, w1)
      | some e ↦
          if is_empty (trim_space opts.systemd_unit)
          then (some (msg (codes "suricata unit is empty")), w1)
          else start_and_probe opts w1
    ]

-- `ConnectSuricataWithDialer`: the path of the client's socket. The time that the connection may take is left out.
unfoldable pub connect_suricata : List Bytes → M (Result Bytes)
connect_suricata candidates w =
    let (s, w1) = first_existing_socket candidates w in
    elim s [
      | err e ↦ (err (wrap (codes "suricata control socket not found: ") e []), w1)
      | ok path ↦
          (let (d, w2) = dial_timeout path w1 in
            (
              elim d [
                | none ↦ ok path
                | some e ↦ err (wrap (codes "failed to connect to " ++ (path ++ codes ": ")) e [])
              ],
              w2,
            ))
    ]

unfoldable pub connect_suricata_with_start : SuricataStartOptions → M (Result Bytes)
connect_suricata_with_start opts w =
    let (e, w1) = ensure_suricata_started opts w in
    elim e [ some x ↦ (err x, w1) | none ↦ connect_suricata opts.socket_candidates w1 ]
