-- ===== src/Listener/Removal.antt =====
-- What the agent removes before it listens.
use integration_suricata_n_d.Base.{
  true, Option, none, some, Option-cases, ◌≡◌, ◌≢◌, ◌⊎◌, refl, ap, ◌∙◌, arith, Bytes, Bool-cases,
  inl, inr,
}
use integration_suricata_n_d.Sys.{
  Error, ok, conn_refused, not_exist, is_kind, Result-cases, World, Node, stat, call, remove,
  dial_timeout, is_socket,
}
use integration_suricata_n_d.Sys.Effects.{remove-SameBut, call-files, update_self}
use integration_suricata_n_d.Toggle.Disk.{stat-files}
use integration_suricata_n_d.Listener.{is_stale, remove_stale, remove_if_socket}

dial_timeout-files : (p : Bytes) (w : World) → (dial_timeout p w).1.files ≡ w.files
unfolding dial_timeout
dial_timeout-files p w = ground arith

stat_ok : (p : Bytes) (w : World) (n : Node) → (stat p w).0 ≡ ok n → w.files p ≡ some n
unfolding stat
stat_ok p w n h = ground (arith, call-files w, h)

-- A removal that works leaves nothing there, and one that fails changes nothing.
remove_ends :
    (p : Bytes) (w : World)
    → (((remove p w).0 ≡ none) × ((remove p w).1.files p ≡ none))
      ⊎ (((remove p w).0 ≢ none) × ((remove p w).1.files ≡ w.files))
unfolding remove
remove_ends p w = elim (Option-cases (call w).0) [
  | inr (x, e) ↦ rw (e, remove) (inr (λ z. ground (arith, z), call-files w))
  | inl e ↦ elim (Option-cases ((call w).1.files p)) [
    | inl k ↦ rw (e, remove) (rw (k, remove) (inr (λ z. ground (arith, z), call-files w)))
    | inr (n, k) ↦ rw (e, remove) (rw (k, remove) (inl (refl, update_self (call w).1.files p none)))
  ]
]

stale :
    (e : Error) → is_stale e ≡ true → (is_kind conn_refused e ≡ true) ⊎ (is_kind not_exist e ≡ true)
unfolding is_stale
stale e h = ground (arith, h)

-- The path held a socket that nobody answers on, and holds nothing now; the other files are the same.
abbrev pub Removed : Bytes → World → World → Type 0
Removed path w v =
    ((n : Node) × (w.files path ≡ some n) × (is_socket n.kind ≡ true))
    × (((e : Error) × ((dial_timeout path (stat path w).1).0 ≡ some e)
          × ((is_kind conn_refused e ≡ true) ⊎ (is_kind not_exist e ≡ true)))
        × ((v.files path ≡ none) × ((q : Bytes) → q ≢ path → v.files q ≡ w.files q)))

-- The agent removes nothing, or, with no error, the socket at the path: only where it is a socket, and the connection to it
-- right after the look at it was refused or found nothing. No other file changes, and with an error none does.
pub remove_if_socket-Removed :
    (path : Bytes) (w : World)
    → ((remove_if_socket path w).1.files ≡ w.files)
      ⊎ (((remove_if_socket path w).0 ≡ none) × Removed path w (remove_if_socket path w).1)
unfolding remove_if_socket remove_stale
remove_if_socket-Removed path w = elim (Result-cases (stat path w).0) [
  | inr (x, e) ↦ rw (e, remove_if_socket) (inl seen)
  | inl (n, e) ↦ elim (Bool-cases (is_socket n.kind)) [
    | inr k ↦ rw (e, remove_if_socket) (rw (k, remove_if_socket) (inl seen))
    | inl k ↦ elim (Option-cases (dial_timeout path w1).0) [
      | inl d ↦
          rw (e, remove_if_socket)
            (rw (k, remove_if_socket) (rw (d, remove_if_socket, remove_stale) (inl met)))
      | inr (x, d) ↦ elim (Bool-cases (is_stale x)) [
        | inr s ↦
            rw (e, remove_if_socket)
              (rw (k, remove_if_socket)
                (rw (d, remove_if_socket, remove_stale)
                  (rw (s, remove_if_socket, remove_stale) (inl met))))
        | inl s ↦
            rw (e, remove_if_socket)
              (rw (k, remove_if_socket)
                (rw (d, remove_if_socket, remove_stale)
                  (rw (s, remove_if_socket, remove_stale)
                    (elim (remove_ends path w2) [
                      | inr (bad, same) ↦ inl (same ∙ met)
                      | inl (fine, gone) ↦ inr (
                        rw fine refl,
                        (
                          (n, stat_ok path w n e, k),
                          (
                            (x, refl, stale x s),
                            (
                              gone,
                              λ q ne.
                                  remove-SameBut path w2 q ne
                                  ∙ ap (λ (f : Bytes → Option Node). f q) met,
                            ),
                          ),
                        ),
                      )
                    ]))))
      ]
    ]
  ]
]
  where
    w1 : World
    w1 = (stat path w).1

    w2 : World
    w2 = (dial_timeout path w1).1

    seen : w1.files ≡ w.files
    seen = stat-files path w

    met : w2.files ≡ w.files
    met = dial_timeout-files path w1 ∙ seen
