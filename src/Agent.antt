-- ===== src/Agent.antt =====
-- pkg/hostagent/handlers.go and handlers_reload.go: what the host agent answers to a request.
pub mod Replies
pub mod Ensured
pub mod Reloaded
use integration_suricata_n_d.Base.{
  ℕ, zero, suc, Bool, true, false, Option, none, some, List, [], ◌∷◌, ◌++◌, if◌then◌else◌, Bytes,
  codes, Duration,
}
use integration_suricata_n_d.Text.{trim_space, contains}
use integration_suricata_n_d.Config.{is_empty}
use integration_suricata_n_d.Sys.{
  not_exist, permission, deadline_exceeded, Error, is_kind, error_text, Result, ok, err, RunResult,
  M, combined_output,
}
use integration_suricata_n_d.Service.{
  manager_command, restart, connect_suricata, first_existing_socket,
}
use integration_suricata_n_d.Ready.{wait_suricata_ready}
use integration_suricata_n_d.Toggle.{ndpi_status, set_ndpi_enabled}

pub data Method : Type 0 where
  get post other_method : Method

abbrev pub is_get : Method → Bool
is_get get = true
is_get _ = false

abbrev pub is_post : Method → Bool
is_post post = true
is_post _ = false

-- `Deps`; `Systemd` is the manager that internal/wire builds on the command's path, and `FS` the machine.
pub record Deps : Type 0 where
  pub socket_path : Bytes
  pub suricata_cfg_path : Bytes
  pub ndpi_plugin_path : Bytes
  pub suricata_unit : Bytes
  pub suricata_socket_candidates : List Bytes
  pub suricata_connect_timeout : Duration
  pub suricata_sc_path : Bytes
  pub reload_command : Bytes
  pub reload_timeout : Duration
  pub restart_timeout : Duration
  pub systemctl_path : Bytes

-- The bodies that the handlers write as JSON: `toggleResp`, `ndpiStatusResp`, `suricataEnsureResp`
-- and `suricataReloadResp`, with the fields that the handlers set. `refused` is `toggleResp` with OK and Changed false.
pub data Body : Type 0 where
  refused : (code message : Bytes) → Body
  toggled : (changed enabled : Bool) (message : Bytes) → Body
  ndpi : (enabled : Bool) (line : Bytes) → Body
  ensured : (started : Bool) (socket message : Bytes) → Body
  reloaded : (socket command output message : Bytes) → Body

pub record Response : Type 0 where
  pub status : ℕ
  pub body : Body

abbrev pub respond : ℕ → Body → Response
respond s b = record { status = s; body = b }

-- `writeErrPublic`
abbrev pub write_err_public : ℕ → Bytes → Bytes → Response
write_err_public status code message = respond status (refused code message)

abbrev pub not_allowed : Response
not_allowed = write_err_public 405 (codes "METHOD_NOT_ALLOWED") (codes "method not allowed")

-- `classifyErr`, of an error that is not nil.
unfoldable pub classify_err : Error → ℕ × Bytes × Bytes
classify_err e =
    if is_kind deadline_exceeded e
    then (504, codes "TIMEOUT", codes "operation timed out")
    else if is_kind not_exist e
    then (500, codes "NOT_FOUND", codes "required file/path not found on host")
    else if is_kind permission e
    then (500, codes "PERMISSION", codes "permission denied on host")
    else if contains (error_text e) (codes "ndpi plugin line not found")
    then (409, codes "NDPI_NOT_CONFIGURED", codes "ndpi plugin line not found in suricata config")
    else (500, codes "INTERNAL", codes "internal error")

unfoldable pub write_err_from_err : Error → Response
write_err_from_err e =
    let (status, code, message) = classify_err e in write_err_public status code message

-- `NDPIStatus`
unfoldable pub ndpi_status_handler : Deps → Method → M Response
ndpi_status_handler d m w =
    if is_get m
    then (let (r, w') = ndpi_status d.suricata_cfg_path d.ndpi_plugin_path w in
        (
          elim r [
            | err e ↦ write_err_from_err e
            | ok (enabled, line) ↦ respond 200 (ndpi enabled line)
          ],
          w',
        ))
    else (not_allowed, w)

abbrev pub restart_unit : Deps → M (Option Error)
restart_unit d = restart (manager_command d.systemctl_path) d.suricata_unit d.restart_timeout

-- The restart after a change, and the answer.
unfoldable pub restart_changed : Deps → Bool → M Response
restart_changed d enabled w =
    let (e, w') = restart_unit d w in
    (
      elim e [
        | some x ↦
            write_err_public 500 (codes "RESTART_FAILED") (codes "failed to restart suricata")
        | none ↦ respond 200 (toggled true enabled (codes "ok"))
      ],
      w',
    )

-- `NDPIEnable` and `NDPIDisable`, which differ in the flag that they pass.
unfoldable pub ndpi_toggle_handler : Bool → Deps → Method → M Response
ndpi_toggle_handler enable d m w =
    if is_post m
    then (let (r, w') = set_ndpi_enabled d.suricata_cfg_path d.ndpi_plugin_path enable w in
        elim r [
          | err e ↦ (write_err_from_err e, w')
          | ok (changed, enabled) ↦
              if changed
              then restart_changed d enabled w'
              else (respond 200 (toggled false enabled (codes "ok")), w')
        ])
    else (not_allowed, w)

-- The loop of `SuricataEnsure`, on the readings of `time.Now().Before(deadline)`: none has come true
-- after the last of the list. Some path is a connection that worked.
unfoldable pub poll : List Bytes → List Bool → M (Option Bytes)
poll candidates [] w = (none, w)
poll candidates (false ∷ clock) w = (none, w)
poll candidates (true ∷ clock) w =
    let (r, w') = connect_suricata candidates w in
    let again = poll candidates clock w' in elim r [ ok path ↦ (some path, w') | err e ↦ again ]

-- `SuricataEnsure`
unfoldable pub suricata_ensure_handler : List Bool → Deps → Method → M Response
suricata_ensure_handler clock d m w =
    if is_post m
    then (let (c, w1) = connect_suricata d.suricata_socket_candidates w in
        elim c [
          | ok path ↦ (respond 200 (ensured false path (codes "already running")), w1)
          | err x ↦
              (let (e, w2) = restart_unit d w1 in
                elim e [
                  | some y ↦ (
                    write_err_public 500 (codes "SURICATA_RESTART_FAILED")
                        (codes "failed to restart suricata"),
                    w2,
                  )
                  | none ↦
                      (let (p, w3) = poll d.suricata_socket_candidates clock w2 in
                        (
                          elim p [
                            | some path ↦ respond 200 (ensured true path (codes "started"))
                            | none ↦
                                write_err_public 504 (codes "SURICATA_NOT_READY")
                                  (codes "suricata restarted but socket not reachable")
                          ],
                          w3,
                        ))
                ])
        ])
    else (not_allowed, w)

-- The loop of `SuricataReload` with `attempts` rounds to go: the output of the attempt that worked,
-- or of the last one. The `break` on a context that is done leaves the `select`, not the loop.
unfoldable pub reload_attempts : ℕ → Bytes → Bytes → Bytes → Bytes → M (Bool × Bytes)
reload_attempts zero sc command socket last w = ((false, last), w)
reload_attempts (suc n) sc command socket last w =
    let (r, w') = combined_output sc (codes "-c" ∷ command ∷ socket ∷ []) w in
    let again = reload_attempts n sc command socket (trim_space r.output) w' in
    elim r.failure [ none ↦ ((true, trim_space r.output), w') | some e ↦ again ]

abbrev pub command_or_default : Bytes → Bytes
command_or_default c = if is_empty (trim_space c) then codes "reload-rules" else trim_space c

abbrev pub not_ready : Bytes → Response
not_ready = write_err_public 504 (codes "SURICATA_NOT_READY")

-- `SuricataReload`, given what the JSON package makes of an answer, the error of a context that is done, and the readings
-- of the clock in `waitSuricataReady`.
unfoldable pub suricata_reload_handler :
    (Bytes → Option Bytes) → Error → List Bool → Deps → Method → M Response
suricata_reload_handler unmarshal done clock d m w =
    if is_post m
    then (if is_empty (trim_space d.suricata_sc_path)
        then (
          write_err_public 500 (codes "SURICATASC_NOT_CONFIGURED")
              (codes "paths.suricatasc is empty"),
          w,
        )
        else (let command = command_or_default d.reload_command in
            let (s, w1) = first_existing_socket d.suricata_socket_candidates w in
            elim s [
              | err e ↦ (not_ready (codes "suricata control socket not reachable"), w1)
              | ok socket ↦
                  (let (e, w2) =
                      wait_suricata_ready unmarshal done clock d.suricata_sc_path socket w1 in
                    elim e [
                      | some x ↦ (not_ready (codes "suricata not ready (uptime check failed)"), w2)
                      | none ↦
                          (let (r, w3) =
                              reload_attempts 5 d.suricata_sc_path command socket [] w2 in
                            (
                              if r.0
                                  then respond 200 (reloaded socket command r.1 (codes "ok"))
                                  else write_err_public 500 (codes "RELOAD_FAILED")
                                      (codes "suricatasc reload failed: " ++ trim_space r.1),
                              w3,
                            ))
                    ])
            ]))
    else (not_allowed, w)
