-- ===== src/Agent/Ensured.antt =====
-- When the agent says that Suricata runs.
use integration_suricata_n_d.Base.{
  Bool, true, false, some, Option-cases, List, [], ◌∷◌, ◌≡◌, refl, arith, Bytes, Bool-cases, inl,
  inr,
}
use integration_suricata_n_d.Sys.{World, ok, Result-cases}
use integration_suricata_n_d.Service.{connect_suricata, manager_command}
use integration_suricata_n_d.Service.Later.{Later, now, restart-Later, connect_suricata-Later}
use integration_suricata_n_d.Agent.{
  Method, Deps, poll, suricata_ensure_handler, is_post, restart_unit,
}

-- The last thing on the way from `w` to the machine was a connection to one of the candidates.
abbrev pub Connected : List Bytes → World → World → Type 0
Connected candidates w u =
    (p : Bytes) × (v : World) × Later w v
    × ((connect_suricata candidates v).0 ≡ ok p)
    × (u ≡ (connect_suricata candidates v).1)

poll-Connected :
    (candidates : List Bytes) (clock : List Bool) (before w : World) (p : Bytes)
    → Later before w
    → (poll candidates clock w).0 ≡ some p
    → Connected candidates before (poll candidates clock w).1
unfolding poll
poll-Connected candidates [] before w p l h = absurd (ground (arith, h))
poll-Connected candidates (false ∷ clock) before w p l h = absurd (ground (arith, h))
poll-Connected candidates (true ∷ clock) before w p l h =
    elim (Result-cases (connect_suricata candidates w).0) [
      | inl (q, e) ↦ rw (e, poll) (q, w, l, e, refl)
      | inr (x, e) ↦
          rw (e, poll)
            (poll-Connected candidates clock before (connect_suricata candidates w).1 p
              (connect_suricata-Later candidates w l) (rw (e, poll) at h))
    ]

-- The handler answers 200 only to a POST, and only where the last thing that it did was to connect to a socket among the
-- candidates.
pub suricata_ensure_handler-Connected :
    (clock : List Bool) (d : Deps) (m : Method) (w : World)
    → (suricata_ensure_handler clock d m w).0.status ≡ 200
    → (is_post m ≡ true)
      × Connected d.suricata_socket_candidates w (suricata_ensure_handler clock d m w).1
unfolding suricata_ensure_handler
suricata_ensure_handler-Connected clock d m w h = elim (Bool-cases (is_post m)) [
  | inr p ↦ absurd (ground (arith, rw (p, suricata_ensure_handler) at h))
  | inl p ↦
      let h1 = rw (p, suricata_ensure_handler) at h in
      rw (p, suricata_ensure_handler)
        (elim (Result-cases (connect_suricata candidates w).0) [
          | inl (q, e) ↦ (refl, rw (e, suricata_ensure_handler) (q, w, now, e, refl))
          | inr (x, e) ↦
              let h2 = rw (e, suricata_ensure_handler) at h1 in
              elim (Option-cases (restart_unit d w1).0) [
                | inr (y, r) ↦ absurd (ground (arith, rw (r, suricata_ensure_handler) at h2))
                | inl r ↦
                    let h3 = rw (r, suricata_ensure_handler) at h2 in
                    elim (Option-cases (poll candidates clock w2).0) [
                      | inl n ↦ absurd (ground (arith, rw (n, suricata_ensure_handler) at h3))
                      | inr (q, n) ↦ (
                        refl,
                        rw (e, suricata_ensure_handler)
                            (rw (r, suricata_ensure_handler)
                              (poll-Connected candidates clock w w2 q
                                (restart-Later (manager_command d.systemctl_path) d.suricata_unit
                                  d.restart_timeout w1 (connect_suricata-Later candidates w now))
                                n)),
                      )
                    ]
              ]
        ])
]
  where
    candidates : List Bytes
    candidates = d.suricata_socket_candidates

    w1 : World
    w1 = (connect_suricata candidates w).1

    w2 : World
    w2 = (restart_unit d w1).1
