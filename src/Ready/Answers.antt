-- ===== src/Ready/Answers.antt =====
-- What it means that Suricata is ready.
use integration_suricata_n_d.Base.{
  Bool, true, false, Option, none, some, List, [], ◌∷◌, ◌≡◌, refl, arith, Bytes, Bool-cases, inl,
  ◌⊎◌, ap, ◌∙◌, bytes_eq, bytes_eq_iff, Option-cases, codes, inr,
}
use integration_suricata_n_d.Text.{trim_space, contains, to_upper}
use integration_suricata_n_d.Config.{is_empty}
use integration_suricata_n_d.Sys.{Error, World, ok, Result-cases, RunResult, combined_output}
use integration_suricata_n_d.Service.Later.{Later, now, ran}
use integration_suricata_n_d.Ready.{probe_uptime, wait_loop, wait_suricata_ready}

-- The command worked, and the field `Return` of its output is "OK", or the output is no JSON and has "OK" in it in any case.
abbrev pub SaysReady : (Bytes → Option Bytes) → RunResult → Type 0
SaysReady unmarshal r =
    (r.failure ≡ none)
    × ((unmarshal (trim_space r.output) ≡ some (codes "OK"))
        ⊎ ((unmarshal (trim_space r.output) ≡ none)
            × (contains (to_upper r.output) (codes "OK") ≡ true)))

-- The last thing on the way from `w` to the machine was a run of suricatasc that asked for the uptime on the socket, and it
-- said that Suricata is ready.
abbrev pub Answered : (Bytes → Option Bytes) → Bytes → Bytes → World → World → Type 0
Answered unmarshal sc socket w u =
    (v : World) × Later w v
    × SaysReady unmarshal (combined_output sc (codes "-c" ∷ codes "uptime" ∷ socket ∷ []) v).0
    × (u ≡ (combined_output sc (codes "-c" ∷ codes "uptime" ∷ socket ∷ []) v).1)

probe_uptime-SaysReady :
    (unmarshal : Bytes → Option Bytes) (sc socket : Bytes) (v : World)
    → (probe_uptime unmarshal sc socket v).0 ≡ ok true
    → SaysReady unmarshal (combined_output sc (codes "-c" ∷ codes "uptime" ∷ socket ∷ []) v).0
unfolding probe_uptime
probe_uptime-SaysReady unmarshal sc socket v h =
    let r = (combined_output sc (codes "-c" ∷ codes "uptime" ∷ socket ∷ []) v).0 in
    elim (Option-cases r.failure) [
      | inr (x, e) ↦ absurd (ground (arith, rw (e, probe_uptime) at h))
      | inl e ↦
          let h1 = rw (e, probe_uptime) at h in
          elim (Option-cases (unmarshal (trim_space r.output))) [
            | inr (answer, u) ↦
                let same : bytes_eq answer (codes "OK") ≡ true =
                  ground (arith, rw (u, probe_uptime) at h1) in
                (e, inl (u ∙ ap some ((bytes_eq_iff answer (codes "OK")).0 same)))
            | inl u ↦ (e, inr (u, ground (arith, rw (u, probe_uptime) at h1)))
          ]
    ]

probe_uptime-Later :
    (unmarshal : Bytes → Option Bytes) (sc socket : Bytes) (before w : World)
    → Later before w
    → Later before (probe_uptime unmarshal sc socket w).1
unfolding probe_uptime
probe_uptime-Later unmarshal sc socket before w l =
    ran sc (codes "-c" ∷ codes "uptime" ∷ socket ∷ []) l

wait_loop-Answered :
    (unmarshal : Bytes → Option Bytes) (done : Error) (clock : List Bool) (last : Option Error)
    (sc socket : Bytes) (before w : World)
    → Later before w
    → (wait_loop unmarshal done clock last sc socket w).0 ≡ none
    → Answered unmarshal sc socket before (wait_loop unmarshal done clock last sc socket w).1
unfolding wait_loop
wait_loop-Answered unmarshal done [] last sc socket before w l h = absurd (ground (arith, h))
wait_loop-Answered unmarshal done (false ∷ clock) last sc socket before w l h =
    absurd (ground (arith, h))
wait_loop-Answered unmarshal done (true ∷ clock) last sc socket before w l h =
    elim (Result-cases (probe_uptime unmarshal sc socket w).0) [
      | inl (true, e) ↦
          rw (e, wait_loop)
            (w, l, probe_uptime-SaysReady unmarshal sc socket w e, unfold probe_uptime in refl)
      | inl (false, e) ↦
          rw (e, wait_loop)
            (wait_loop-Answered unmarshal done clock last sc socket before
              (probe_uptime unmarshal sc socket w).1
              (probe_uptime-Later unmarshal sc socket before w l) (rw (e, wait_loop) at h))
      | inr (x, e) ↦
          rw (e, wait_loop)
            (wait_loop-Answered unmarshal done clock (some x) sc socket before
              (probe_uptime unmarshal sc socket w).1
              (probe_uptime-Later unmarshal sc socket before w l) (rw (e, wait_loop) at h))
    ]

pub wait-Answered :
    (unmarshal : Bytes → Option Bytes) (done : Error) (clock : List Bool) (sc socket : Bytes)
    (before w : World)
    → Later before w
    → (wait_suricata_ready unmarshal done clock sc socket w).0 ≡ none
    → Answered unmarshal sc socket before (wait_suricata_ready unmarshal done clock sc socket w).1
unfolding wait_suricata_ready
wait-Answered unmarshal done clock sc socket before w l h = elim (Bool-cases (is_empty sc)) [
  | inl e ↦ absurd (ground (arith, rw (e, wait_suricata_ready) at h))
  | inr e ↦ elim (Bool-cases (is_empty socket)) [
    | inl k ↦
        absurd (ground (arith, rw (k, wait_suricata_ready) at (rw (e, wait_suricata_ready) at h)))
    | inr k ↦
        rw (e, wait_suricata_ready)
          (rw (k, wait_suricata_ready)
            (wait_loop-Answered unmarshal done clock none sc socket before w l
              (rw (k, wait_suricata_ready) at (rw (e, wait_suricata_ready) at h))))
  ]
]

-- The wait ends without an error only where the last thing that it did was a run of suricatasc that asked for the uptime on
-- the socket, which did not fail, and whose output has "OK" in the field `Return`, or is no JSON and has "OK" in it in any case.
pub wait_suricata_ready-Answered :
    (unmarshal : Bytes → Option Bytes) (done : Error) (clock : List Bool) (sc socket : Bytes)
    (w : World)
    → (wait_suricata_ready unmarshal done clock sc socket w).0 ≡ none
    → Answered unmarshal sc socket w (wait_suricata_ready unmarshal done clock sc socket w).1
wait_suricata_ready-Answered unmarshal done clock sc socket w h =
    wait-Answered unmarshal done clock sc socket w w now h
