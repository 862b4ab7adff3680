-- ===== src/Service/Reach.antt =====
-- When the control socket of Suricata is reached.
use integration_suricata_n_d.Base.{
  Bool, true, false, Option, none, some, Option-cases, List, [], ◌∷◌, ◌++◌, ◌≡◌, ◌↔◌, refl, ap, ◌∙◌,
  arith, Bytes, if◌then◌else◌, Bool-cases, inl, inr, codes,
}
use integration_suricata_n_d.Sys.{
  Result, ok, err, World, Node, stat, is_socket, dial_timeout, call, missing, report, wrap, Fault,
}
use integration_suricata_n_d.Service.{
  first_socket_of, probe_socket, ensure_suricata_running, connect_suricata,
}

-- The path stands for a socket.
abbrev pub holds_socket : World → Bytes → Bool
holds_socket w p = elim (w.files p) [ none ↦ false | some n ↦ is_socket n.kind ]

-- The first of the paths that is a socket.
abbrev pub first_held : World → List Bytes → Option Bytes
first_held w [] = none
first_held w (p ∷ paths) = if holds_socket w p then some p else first_held w paths

pub call_fine : (w : World) → w.faults ≡ [] → call w ≡ (none, w)
unfolding call
call_fine w h =
    ap
      (λ (fs : List (Option Fault)). elim fs as (λ x. Option Fault × World) [
        | [] ↦ (none, w)
        | f ∷ gs ↦ (f, record w { faults = gs })
      ])
      h

-- What a look at a path gives, after the system call.
abbrev looked : Bytes → Option Fault × World → Result Node × World
looked p c = elim c.0 [
  | some x ↦ (err x.error, c.1)
  | none ↦ (elim (c.1.files p) [ none ↦ err missing | some n ↦ ok n ], c.1)
]

-- Where no system call fails, looking at a path gives what is there and leaves the machine as it is.
pub stat_fine :
    (p : Bytes) (w : World)
    → w.faults ≡ []
    → stat p w ≡ (elim (w.files p) [ none ↦ err missing | some n ↦ ok n ], w)
unfolding stat
stat_fine p w h = ap (looked p) (call_fine w h)

-- The answer of the search.
abbrev pub searched : List Bytes → Option Bytes → Result Bytes
searched all none = err (report (codes "no unix socket found in candidates: %v") all)
searched all (some p) = ok p

pub first_socket_of_lem :
    (all paths : List Bytes) (w : World)
    → w.faults ≡ []
    → first_socket_of all paths w ≡ (searched all (first_held w paths), w)
unfolding first_socket_of
first_socket_of_lem all [] w h = refl
first_socket_of_lem all (p ∷ paths) w h =
    let (answer, same) : ((stat p w).0 ≡ elim (w.files p) [ none ↦ err missing | some n ↦ ok n ])
        × ((stat p w).1 ≡ w) =
      (
        ap (λ (r : Result Node × World). r.0) (stat_fine p w h),
        ap (λ (r : Result Node × World). r.1) (stat_fine p w h),
      ) in
    let rest = first_socket_of_lem all paths w h in
    elim (Option-cases (w.files p)) [
      | inl e ↦
          let no : holds_socket w p ≡ false = rw (e, holds_socket) refl in
          rw (no, first_held)
            (rw (answer, first_socket_of)
              (rw (e, first_socket_of) (rw (same, first_socket_of) rest)))
      | inr (n, e) ↦
          let kind : holds_socket w p ≡ is_socket n.kind = rw (e, holds_socket) refl in
          elim (Bool-cases (is_socket n.kind)) [
            | inl k ↦
                rw (kind ∙ k, first_held)
                  (rw (answer, first_socket_of)
                    (rw (e, first_socket_of)
                      (rw (k, first_socket_of) (rw (same, first_socket_of) refl))))
            | inr k ↦
                rw (kind ∙ k, first_held)
                  (rw (answer, first_socket_of)
                    (rw (e, first_socket_of)
                      (rw (k, first_socket_of) (rw (same, first_socket_of) rest))))
          ]
    ]

pub first_held-is_socket :
    (w : World) (paths : List Bytes) (p : Bytes)
    → first_held w paths ≡ some p
    → holds_socket w p ≡ true
first_held-is_socket w [] p e = ground arith
first_held-is_socket w (q ∷ paths) p e = elim (Bool-cases (holds_socket w q)) [
  | inl k ↦ ground (arith, k)
  | inr k ↦ first_held-is_socket w paths p (ground (arith, k))
]

pub probe_socket_fine :
    (q : Bytes) (w : World)
    → w.faults ≡ []
    → holds_socket w q ≡ true
    → ((probe_socket q w).0 ≡ (elim (dial_timeout q w).0 [
      | none ↦ none
      | some e ↦
          some (wrap (codes "suricata socket exists but dial failed (" ++ (q ++ codes "): ")) e [])
    ]))
      × ((probe_socket q w).1 ≡ (dial_timeout q w).1)
unfolding probe_socket
probe_socket_fine q w h k = elim (Option-cases (w.files q)) [
  | inl e ↦ absurd (ground (arith, e, k))
  | inr (n, e) ↦
      let kind : is_socket n.kind ≡ true = ground (arith, e, k) in
      rw (ap (λ (r : Result Node × World). r.0) (stat_fine q w h), probe_socket)
        (rw (e, probe_socket)
          (rw (kind, probe_socket)
            (rw (ap (λ (r : Result Node × World). r.1) (stat_fine q w h), probe_socket)
              (refl, refl))))
]

-- There is a first socket among the candidates, and it accepts a connection.
abbrev pub Reached : World → List Bytes → Bytes → Type 0
Reached w candidates p = (first_held w candidates ≡ some p) × ((dial_timeout p w).0 ≡ none)

-- Where no look at a file fails, the probe and the connection succeed alike, just where the first socket among the
-- candidates accepts a connection, later candidates not being tried; the connection is to that socket, and the two leave
-- the machine alike.
pub connect_suricata-ensure_suricata_running :
    (candidates : List Bytes) (w : World)
    → w.faults ≡ []
    → (((ensure_suricata_running candidates w).0 ≡ none) ↔ ((p : Bytes) × Reached w candidates p))
      × ((p : Bytes) → ((connect_suricata candidates w).0 ≡ ok p) ↔ Reached w candidates p)
      × ((connect_suricata candidates w).1 ≡ (ensure_suricata_running candidates w).1)
unfolding ensure_suricata_running connect_suricata probe_socket
connect_suricata-ensure_suricata_running candidates w h =
    let found = first_socket_of_lem candidates candidates w h in
    let answer : (first_socket_of candidates candidates w).0
        ≡ searched candidates (first_held w candidates) =
      ap (λ (r : Result Bytes × World). r.0) found in
    let same : (first_socket_of candidates candidates w).1 ≡ w =
      ap (λ (r : Result Bytes × World). r.1) found in
    elim (Option-cases (first_held w candidates)) [
      | inl e ↦
          rw (answer, ensure_suricata_running, connect_suricata)
            (rw e (rw (same) (ground arith, λ p. ground arith, refl)))
      | inr (q, e) ↦
          let k = first_held-is_socket w candidates q e in
          let (probe, met) = probe_socket_fine q w h k in
          rw (answer, ensure_suricata_running, connect_suricata)
            (rw e (rw (same) (rw (probe, met) (ground arith, λ p. ground arith, refl))))
    ]
