-- ===== src/Serve/Made.antt =====
-- When a host agent is made, and what it is then.
use integration_suricata_n_d.Base.{
  false, Option, none, some, List, [], ◌∷◌, ◌≡◌, ◌⊎◌, ◌↔◌, arith, Bytes, inl, inr, le_zero,
  Duration, if◌then◌else◌, true, refl, sym, subst, seconds, millis,
}
use integration_suricata_n_d.Config.{is_empty}
use integration_suricata_n_d.Sys.{Result, ok, err, Result-cases, World}
use integration_suricata_n_d.Listener.{remove_if_socket}
use integration_suricata_n_d.Agent.{Deps}
use integration_suricata_n_d.Serve.{
  Listener, activated, bound, Server, Outside, bind, replace_socket, get_listener, with_defaults,
  missing_field, agent_server, new_server,
}

-- No text that the agent needs is empty.
abbrev pub IsComplete : Deps → Type 0
IsComplete d =
    (is_empty d.socket_path ≡ false)
    × (is_empty d.suricata_cfg_path ≡ false)
    × (is_empty d.ndpi_plugin_path ≡ false)
    × (is_empty d.suricata_unit ≡ false)

-- The dependencies are the given ones, but for a time for a restart that is not more than 0, which is 20 seconds then, and a
-- time for a connection that is not, which is 300 milliseconds then.
pub record HasTimes (d e : Deps) : Type 0 where
  pub socket_same : e.socket_path ≡ d.socket_path
  pub config_same : e.suricata_cfg_path ≡ d.suricata_cfg_path
  pub plugin_same : e.ndpi_plugin_path ≡ d.ndpi_plugin_path
  pub unit_same : e.suricata_unit ≡ d.suricata_unit
  pub candidates_same : e.suricata_socket_candidates ≡ d.suricata_socket_candidates
  pub suricatasc_same : e.suricata_sc_path ≡ d.suricata_sc_path
  pub command_same : e.reload_command ≡ d.reload_command
  pub reload_same : e.reload_timeout ≡ d.reload_timeout
  pub systemctl_same : e.systemctl_path ≡ d.systemctl_path
  pub restart_kept : le_zero d.restart_timeout ≡ false → e.restart_timeout ≡ d.restart_timeout
  pub restart_default : le_zero d.restart_timeout ≡ true → e.restart_timeout ≡ seconds 20
  pub connect_kept :
      le_zero d.suricata_connect_timeout ≡ false
      → e.suricata_connect_timeout ≡ d.suricata_connect_timeout
  pub connect_default :
      le_zero d.suricata_connect_timeout ≡ true → e.suricata_connect_timeout ≡ millis 300

with_defaults-HasTimes : (d : Deps) → HasTimes d (with_defaults d)
with_defaults-HasTimes d = record {
  socket_same = refl;
  config_same = refl;
  plugin_same = refl;
  unit_same = refl;
  candidates_same = refl;
  suricatasc_same = refl;
  command_same = refl;
  reload_same = refl;
  systemctl_same = refl;
  restart_kept = λ h. ground (arith, h);
  restart_default = λ h. ground (arith, h);
  connect_kept = λ h. ground (arith, h);
  connect_default = λ h. ground (arith, h);
}

chosen_time :
    (t d e : Duration)
    → (le_zero t ≡ false → e ≡ t)
    → (le_zero t ≡ true → e ≡ d)
    → (if le_zero t then d else t) ≡ e
chosen_time t d e kept default = ground (arith, kept, default)

HasTimes-same : (d e : Deps) → HasTimes d e → with_defaults d ≡ e
HasTimes-same d e h =
    rw
      (
        ← h.socket_same,
        ← h.config_same,
        ← h.plugin_same,
        ← h.unit_same,
        ← h.candidates_same,
        ← h.suricatasc_same,
        ← h.command_same,
        ← h.reload_same,
        ← h.systemctl_same,
        chosen_time _ _ _ h.restart_kept h.restart_default,
        chosen_time _ _ _ h.connect_kept h.connect_default,
      )
      refl

missing_field-IsComplete : (d : Deps) → (missing_field d ≡ none) ↔ IsComplete d
unfolding missing_field
missing_field-IsComplete d = ground arith

abbrev pub handed_over : Result (List Bytes) → Option Bytes
handed_over (ok (p ∷ ps)) = some p
handed_over (ok []) = none
handed_over (err e) = none

-- How the agent listens: on the first socket that systemd hands over, with nothing done; or, where it hands over none, on the
-- path, once an old socket has been removed.
abbrev pub Listens : Outside → Bytes → World → Listener → Type 0
Listens o path w l =
    ((p : Bytes) × (handed_over o.listeners ≡ some p) × (l ≡ activated p))
    ⊎ ((handed_over o.listeners ≡ none)
        × ((remove_if_socket path w).0 ≡ none)
        × ((o.listen path (remove_if_socket path w).1).0 ≡ none)
        × (l ≡ bound path))

replace_socket_iff :
    (o : Outside) (path : Bytes) (w : World) (l : Listener)
    → ((replace_socket o path w).0 ≡ ok l) ↔ (
        ((remove_if_socket path w).0 ≡ none)
        × ((o.listen path (remove_if_socket path w).1).0 ≡ none)
        × (l ≡ bound path))
unfolding replace_socket bind
replace_socket_iff o path w l = ground arith

get_listener-Listens :
    (o : Outside) (path : Bytes) (w : World) (l : Listener)
    → ((get_listener o path w).0 ≡ ok l) ↔ Listens o path w l
unfolding get_listener
get_listener-Listens o path w l =
    let r = replace_socket_iff o path w l in
    elim (Result-cases o.listeners) [
      | inl ([], e) ↦ rw (e, get_listener) (ground (arith, r))
      | inl (p ∷ ps, e) ↦ rw (e, get_listener) (ground arith)
      | inr (x, e) ↦ rw (e, get_listener) (ground (arith, r))
    ]

new_server_iff :
    (o : Outside) (d : Deps) (w : World) (s : Server)
    → ((new_server o d w).0 ≡ ok s) ↔ (
        (missing_field d ≡ none)
        × ((get_listener o d.socket_path w).0 ≡ ok s.listener)
        × (s.deps ≡ with_defaults d)
        × (s.server ≡ agent_server))
unfolding new_server
new_server_iff o d w s = ground arith

-- A host agent is made just where no text that it needs is empty and it can listen: on the socket that systemd hands over, or
-- on its path once an old socket has been removed. It has the dependencies that it was given, but for a time for a restart or
-- a connection that is not more than 0, for which it has 20 seconds or 300 milliseconds.
pub new_server-Listens :
    (o : Outside) (d : Deps) (w : World) (s : Server)
    → ((new_server o d w).0 ≡ ok s) ↔ (
        IsComplete d
        × Listens o d.socket_path w s.listener
        × HasTimes d s.deps
        × (s.server ≡ agent_server))
new_server-Listens o d w s =
    let made = new_server_iff o d w s in
    let complete = missing_field-IsComplete d in
    let listens = get_listener-Listens o d.socket_path w s.listener in
    (
      λ z.
          let (a, b, same, e) = made.0 z in
          (complete.0 a, listens.0 b, subst (HasTimes d) (sym same) (with_defaults-HasTimes d), e),
      λ (a, b, has, e). made.1 (complete.1 a, listens.1 b, sym (HasTimes-same d s.deps has), e),
    )
