-- ===== src/Agent/Reloaded.antt =====
-- When the agent says that the rules were reloaded.
use integration_suricata_n_d.Base.{
  ℕ, zero, suc, Bool, true, Option, none, Option-cases, List, [], ◌∷◌, ◌≡◌, refl, arith, Bytes,
  codes, Bool-cases, inl, inr,
}
use integration_suricata_n_d.Text.{trim_space}
use integration_suricata_n_d.Config.{is_empty}
use integration_suricata_n_d.Sys.{Error, World, Result-cases, combined_output}
use integration_suricata_n_d.Service.{first_existing_socket}
use integration_suricata_n_d.Service.Later.{Later, now, ran, first_socket_of-Later}
use integration_suricata_n_d.Ready.{wait_suricata_ready}
use integration_suricata_n_d.Ready.Answers.{Answered, wait-Answered}
use integration_suricata_n_d.Agent.{
  Method, Deps, is_post, reload_attempts, suricata_reload_handler, command_or_default,
}

-- The last thing on the way from `w` to the machine was a run of suricatasc with the command, which worked.
abbrev pub Accepted : Bytes → Bytes → Bytes → World → World → Type 0
Accepted sc command socket w u =
    (v : World) × Later w v
    × ((combined_output sc (codes "-c" ∷ command ∷ socket ∷ []) v).0.failure ≡ none)
    × (u ≡ (combined_output sc (codes "-c" ∷ command ∷ socket ∷ []) v).1)

reload_attempts-Accepted :
    (n : ℕ) (sc command socket last : Bytes) (before w : World)
    → Later before w
    → (reload_attempts n sc command socket last w).0.0 ≡ true
    → Accepted sc command socket before (reload_attempts n sc command socket last w).1
unfolding reload_attempts
reload_attempts-Accepted zero sc command socket last before w l h = absurd (ground (arith, h))
reload_attempts-Accepted (suc n) sc command socket last before w l h =
    let r = (combined_output sc (codes "-c" ∷ command ∷ socket ∷ []) w).0 in
    elim (Option-cases r.failure) [
      | inl e ↦ rw (e, reload_attempts) (w, l, e, refl)
      | inr (x, e) ↦
          rw (e, reload_attempts)
            (reload_attempts-Accepted n sc command socket (trim_space r.output) before
              (combined_output sc (codes "-c" ∷ command ∷ socket ∷ []) w).1
              (ran sc (codes "-c" ∷ command ∷ socket ∷ []) l) (rw (e, reload_attempts) at h))
    ]

-- The handler answers 200 only to a POST, and only where Suricata has first answered on a socket that it is ready, and the
-- last thing done after that was a run of suricatasc with the reload command on that socket, which worked.
pub suricata_reload_handler-Accepted :
    (unmarshal : Bytes → Option Bytes) (done : Error) (clock : List Bool) (d : Deps) (m : Method)
    (w : World)
    → (suricata_reload_handler unmarshal done clock d m w).0.status ≡ 200
    → (is_post m ≡ true)
      × ((socket : Bytes) × (ready : World) × Answered unmarshal d.suricata_sc_path socket w ready
          × Accepted d.suricata_sc_path
              (command_or_default d.reload_command)
              socket
              ready
              (suricata_reload_handler unmarshal done clock d m w).1)
unfolding suricata_reload_handler
suricata_reload_handler-Accepted unmarshal done clock d m w h = elim (Bool-cases (is_post m)) [
  | inr p ↦ absurd (ground (arith, rw (p, suricata_reload_handler) at h))
  | inl p ↦ elim (Bool-cases (is_empty (trim_space sc))) [
    | inl k ↦
        absurd (
          ground (arith, rw (k, suricata_reload_handler) at (rw (p, suricata_reload_handler) at h)))
    | inr k ↦
        let h1 = rw (k, suricata_reload_handler) at (rw (p, suricata_reload_handler) at h) in
        elim (Result-cases (first_existing_socket d.suricata_socket_candidates w).0) [
          | inr (x, s) ↦ absurd (ground (arith, rw (s, suricata_reload_handler) at h1))
          | inl (socket, s) ↦
              let h2 = rw (s, suricata_reload_handler) at h1 in
              let w2 = (wait_suricata_ready unmarshal done clock sc socket w1).1 in
              elim (Option-cases (wait_suricata_ready unmarshal done clock sc socket w1).0) [
                | inr (x, r) ↦ absurd (ground (arith, rw (r, suricata_reload_handler) at h2))
                | inl r ↦
                    let h3 = rw (r, suricata_reload_handler) at h2 in
                    elim (Bool-cases (reload_attempts 5 sc command socket [] w2).0.0) [
                      | inr a ↦ absurd (ground (arith, rw (a, suricata_reload_handler) at h3))
                      | inl a ↦ (
                        p,
                        (
                          socket,
                          w2,
                          wait-Answered unmarshal done clock sc socket w w1
                              (first_socket_of-Later d.suricata_socket_candidates
                                d.suricata_socket_candidates w now)
                              r,
                          rw (p, suricata_reload_handler)
                              (rw (k, suricata_reload_handler)
                                (rw (s, suricata_reload_handler)
                                  (rw (r, suricata_reload_handler)
                                    (reload_attempts-Accepted 5 sc command socket [] w2 w2 now
                                      a)))),
                        ),
                      )
                    ]
              ]
        ]
  ]
]
  where
    sc : Bytes
    sc = d.suricata_sc_path

    command : Bytes
    command = command_or_default d.reload_command

    w1 : World
    w1 = (first_existing_socket d.suricata_socket_candidates w).1
