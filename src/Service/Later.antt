-- ===== src/Service/Later.antt =====
-- The machines that a run comes to, one step of the machine after another.
use integration_suricata_n_d.Base.{
  List, [], ◌∷◌, Bytes, Duration, Bool-cases, inl, inr, le_zero, codes,
}
use integration_suricata_n_d.Text.{trim_space}
use integration_suricata_n_d.Config.{is_empty}
use integration_suricata_n_d.Sys.{
  Result-cases, World, stat, is_socket, dial_timeout, combined_output,
}
use integration_suricata_n_d.Service.{
  first_socket_of, first_existing_socket, probe_socket, ensure_suricata_running, connect_suricata,
  restart,
}

-- The machine comes from `w` by looks at paths, commands and connections.
pub data Later (w : World) : World → Type 0 where
  now : Later w w
  looked_at : (p : Bytes) {v : World} → Later w v → Later w (stat p v).1
  ran :
      (name : Bytes) (args : List Bytes) {v : World}
      → Later w v
      → Later w (combined_output name args v).1
  dialed : (p : Bytes) {v : World} → Later w v → Later w (dial_timeout p v).1

pub first_socket_of-Later :
    (all paths : List Bytes) {w : World} (v : World)
    → Later w v
    → Later w (first_socket_of all paths v).1
unfolding first_socket_of
first_socket_of-Later all [] v l = l
first_socket_of-Later all (p ∷ paths) v l = elim (Result-cases (stat p v).0) [
  | inr (x, e) ↦
      rw (e, first_socket_of) (first_socket_of-Later all paths (stat p v).1 (looked_at p l))
  | inl (n, e) ↦ elim (Bool-cases (is_socket n.kind)) [
    | inl k ↦ rw (e, first_socket_of) (rw (k, first_socket_of) (looked_at p l))
    | inr k ↦
        rw (e, first_socket_of)
          (rw (k, first_socket_of) (first_socket_of-Later all paths (stat p v).1 (looked_at p l)))
  ]
]

pub connect_suricata-Later :
    (candidates : List Bytes) {w : World} (v : World)
    → Later w v
    → Later w (connect_suricata candidates v).1
unfolding connect_suricata
connect_suricata-Later candidates v l =
    elim (Result-cases (first_socket_of candidates candidates v).0) [
      | inr (x, e) ↦ rw (e, connect_suricata) (first_socket_of-Later candidates candidates v l)
      | inl (p, e) ↦
          rw (e, connect_suricata) (dialed p (first_socket_of-Later candidates candidates v l))
    ]

pub restart-Later :
    (command unit : Bytes) (timeout : Duration) {w : World} (v : World)
    → Later w v
    → Later w (restart command unit timeout v).1
unfolding restart
restart-Later command unit timeout v l = elim (Bool-cases (is_empty (trim_space unit))) [
  | inl e ↦ rw (e, restart) l
  | inr e ↦ elim (Bool-cases (le_zero timeout)) [
    | inl k ↦ rw (e, restart) (rw (k, restart) l)
    | inr k ↦
        rw (e, restart) (rw (k, restart) (ran command (codes "restart" ∷ trim_space unit ∷ []) l))
  ]
]

pub probe_socket-Later :
    (p : Bytes) {w : World} (v : World) → Later w v → Later w (probe_socket p v).1
unfolding probe_socket
probe_socket-Later p v l = elim (Result-cases (stat p v).0) [
  | inr (x, e) ↦ rw (e, probe_socket) (looked_at p l)
  | inl (n, e) ↦ elim (Bool-cases (is_socket n.kind)) [
    | inl k ↦ rw (e, probe_socket) (rw (k, probe_socket) (dialed p (looked_at p l)))
    | inr k ↦ rw (e, probe_socket) (rw (k, probe_socket) (looked_at p l))
  ]
]

pub ensure_suricata_running-Later :
    (candidates : List Bytes) {w : World} (v : World)
    → Later w v
    → Later w (ensure_suricata_running candidates v).1
unfolding ensure_suricata_running
ensure_suricata_running-Later candidates v l =
    elim (Result-cases (first_socket_of candidates candidates v).0) [
      | inr (x, e) ↦
          rw (e, ensure_suricata_running) (first_socket_of-Later candidates candidates v l)
      | inl (p, e) ↦
          rw (e, ensure_suricata_running)
            (probe_socket-Later p (first_existing_socket candidates v).1
              (first_socket_of-Later candidates candidates v l))
    ]
