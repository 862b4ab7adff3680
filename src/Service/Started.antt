-- ===== src/Service/Started.antt =====
-- When Suricata has been started.
use integration_suricata_n_d.Base.{
  false, ◌≢◌, ◌≡◌, ◌⊎◌, subst, none, Option-cases, List, [], ◌∷◌, ap, ◌∙◌, arith, Bytes, Duration,
  if◌then◌else◌, Bool-cases, inl, inr, le_zero, seconds, codes,
}
use integration_suricata_n_d.Text.{trim_space}
use integration_suricata_n_d.Config.{is_empty}
use integration_suricata_n_d.Options.{SuricataStartOptions}
use integration_suricata_n_d.Sys.{
  World, Result, Result-cases, combined_output, dial_timeout, stat, Node,
}
use integration_suricata_n_d.Service.{
  ensure_suricata_running, restart, restart_outcome, manager_command, start_and_probe,
  ensure_suricata_started, probe_socket, first_socket_of,
}
use integration_suricata_n_d.Service.Reach.{
  Reached, stat_fine, first_socket_of_lem, probe_socket_fine, first_held-is_socket,
  connect_suricata-ensure_suricata_running,
}

combined_output-faults :
    (name : Bytes) (args : List Bytes) (w : World)
    → (combined_output name args w).1.faults ≡ w.faults
unfolding combined_output
combined_output-faults name args w = ground arith

restart-faults :
    (command unit : Bytes) (timeout : Duration) (w : World)
    → (restart command unit timeout w).1.faults ≡ w.faults
unfolding restart
restart-faults command unit timeout w =
    ground (arith, combined_output-faults command (codes "restart" ∷ trim_space unit ∷ []) w)

dial_timeout-faults : (p : Bytes) (w : World) → (dial_timeout p w).1.faults ≡ w.faults
unfolding dial_timeout
dial_timeout-faults p w = ground arith

probe_socket-faults : (q : Bytes) (w : World) → w.faults ≡ [] → (probe_socket q w).1.faults ≡ []
unfolding probe_socket
probe_socket-faults q w h =
    let same = ap (λ (r : Result Node × World). r.1) (stat_fine q w h) in
    ground (arith, same, h, dial_timeout-faults q (stat q w).1)

ensure_suricata_running-faults :
    (candidates : List Bytes) (w : World)
    → w.faults ≡ []
    → (ensure_suricata_running candidates w).1.faults ≡ []
unfolding ensure_suricata_running
ensure_suricata_running-faults candidates w h =
    let same =
      ap (λ (r : Result Bytes × World). r.1) (first_socket_of_lem candidates candidates w h) in
    elim (Result-cases (first_socket_of candidates candidates w).0) [
      | inr (x, e) ↦ rw (e, ensure_suricata_running) (ground (arith, same, h))
      | inl (q, e) ↦ rw (e, ensure_suricata_running) (rw same (probe_socket-faults q w h))
    ]

-- The first socket among the candidates accepted a connection, on the machine `v`, and nothing has been done since.
abbrev pub JustConnected : List Bytes → World → World → Type 0
JustConnected candidates v u = (p : Bytes) × Reached v candidates p × (u ≡ (dial_timeout p v).1)

running-JustConnected :
    (candidates : List Bytes) (w : World)
    → w.faults ≡ []
    → (ensure_suricata_running candidates w).0 ≡ none
    → JustConnected candidates w (ensure_suricata_running candidates w).1
unfolding ensure_suricata_running
running-JustConnected candidates w h r =
    let (running, connect, same) = connect_suricata-ensure_suricata_running candidates w h in
    let (p, (held, accepted)) = running.0 r in
    let found = first_socket_of_lem candidates candidates w h in
    let (probe, met) = probe_socket_fine p w h (first_held-is_socket w candidates p held) in
    (
      p,
      (held, accepted),
      rw (ap (λ (x : Result Bytes × World). x.0) found, ensure_suricata_running)
          (rw (held, ensure_suricata_running)
            (rw (ap (λ (x : Result Bytes × World). x.1) found) met)),
    )

-- The command of systemd: its path, or "systemctl" where that is blank.
abbrev pub systemctl_of : SuricataStartOptions → Bytes
systemctl_of opts =
    if is_empty (trim_space opts.systemctl_path) then codes "systemctl" else opts.systemctl_path

-- What systemd is asked to do for the start.
abbrev pub restart_args : SuricataStartOptions → List Bytes
restart_args opts = codes "restart" ∷ trim_space (trim_space opts.systemd_unit) ∷ []

-- One command was run, from the machine that the first probe left: the restart of the unit, which did not fail; and
-- then the socket accepted a connection.
abbrev pub Restarted : SuricataStartOptions → World → World → Type 0
Restarted opts w u =
    let ran = combined_output (systemctl_of opts) (restart_args opts) w in
    (trim_space opts.systemd_unit ≢ [])
    × (ran.0.failure ≡ none)
    × JustConnected opts.socket_candidates ran.1 u

restart_fine :
    (command unit : Bytes) (timeout : Duration) (w : World)
    → (restart command unit timeout w).0 ≡ none
    → let ran = combined_output command (codes "restart" ∷ trim_space unit ∷ []) w in
      (ran.0.failure ≡ none) × ((restart command unit timeout w).1 ≡ ran.1)
unfolding restart restart_outcome
restart_fine command unit timeout w h = ground (arith, h)

start_and_probe-Restarted :
    (opts : SuricataStartOptions) (w : World)
    → is_empty (trim_space opts.systemd_unit) ≡ false
    → w.faults ≡ []
    → (start_and_probe opts w).0 ≡ none
    → Restarted opts w (start_and_probe opts w).1
unfolding start_and_probe
start_and_probe-Restarted opts w named h r =
    let timeout = if le_zero opts.start_timeout then seconds 20 else opts.start_timeout in
    let command = manager_command opts.systemctl_path in
    let unit = trim_space opts.systemd_unit in
    let v = (restart command unit timeout w).1 in
    elim (Option-cases (restart command unit timeout w).0) [
      | inr (x, e) ↦ absurd (ground (arith, rw (e, start_and_probe) at r))
      | inl e ↦
          let r' = rw (e, start_and_probe) at r in
          let (fine, same) = restart_fine command unit timeout w e in
          elim (Option-cases (ensure_suricata_running opts.socket_candidates v).0) [
            | inr (x, k) ↦ absurd (ground (arith, rw (k, start_and_probe) at r'))
            | inl k ↦
                rw (e, start_and_probe)
                  (
                    (λ z. ground (arith, named, ap is_empty z)),
                    fine,
                    subst
                        (λ x.
                          JustConnected opts.socket_candidates x
                            (ensure_suricata_running opts.socket_candidates v).1)
                        same
                        (running-JustConnected opts.socket_candidates v
                          (restart-faults command unit timeout w ∙ h) k),
                  )
          ]
    ]

-- Where no look at a file fails, an answer without an error means one of two things. The first socket among the candidates
-- accepted a connection at once, and that is all that was done. Or the first probe gave an error; then the one command
-- that was run is a restart of the unit by systemctl, which did not fail; and the last thing done was a connection to the
-- first socket among the candidates, which accepted it.
pub ensure_suricata_started-Restarted :
    (opts : SuricataStartOptions) (w : World)
    → w.faults ≡ []
    → (ensure_suricata_started opts w).0 ≡ none
    → let probed = ensure_suricata_running opts.socket_candidates w in
      JustConnected opts.socket_candidates w (ensure_suricata_started opts w).1
      ⊎ ((probed.0 ≢ none) × Restarted opts probed.1 (ensure_suricata_started opts w).1)
unfolding ensure_suricata_started
ensure_suricata_started-Restarted opts w h r =
    let v = (ensure_suricata_running opts.socket_candidates w).1 in
    elim (Option-cases (ensure_suricata_running opts.socket_candidates w).0) [
      | inl e ↦
          rw (e, ensure_suricata_started) (inl (running-JustConnected opts.socket_candidates w h e))
      | inr (x, e) ↦
          let r' = rw (e, ensure_suricata_started) at r in
          elim (Bool-cases (is_empty (trim_space opts.systemd_unit))) [
            | inl k ↦ absurd (ground (arith, rw (k, ensure_suricata_started) at r'))
            | inr k ↦
                rw (e, ensure_suricata_started)
                  (rw (k, ensure_suricata_started)
                    (inr (
                      (λ z. cc),
                      start_and_probe-Restarted opts v k
                          (ensure_suricata_running-faults opts.socket_candidates w h)
                          (rw (k, ensure_suricata_started) at r'),
                    )))
          ]
    ]
