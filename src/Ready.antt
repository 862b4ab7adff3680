-- ===== src/Ready.antt =====
-- pkg/hostagent/suricata_ready.go: asking Suricata for its uptime until it answers.
pub mod Answers
use integration_suricata_n_d.Base.{
  Bool, true, false, Option, none, some, List, [], ◌∷◌, if◌then◌else◌, Bytes, codes, bytes_eq,
}
use integration_suricata_n_d.Text.{trim_space, contains, to_upper}
use integration_suricata_n_d.Config.{is_empty}
use integration_suricata_n_d.Sys.{
  Error, msg, wrap, report, Result, ok, err, RunResult, M, combined_output,
}

-- `probeUptime`, given the field `Return` where the JSON package can read the output. The output of the machine stands
-- for the standard output; the outputs that the messages quote are left out of the one that wraps an error.
unfoldable pub probe_uptime : (Bytes → Option Bytes) → Bytes → Bytes → M (Result Bool)
probe_uptime unmarshal sc socket w =
    let (r, w') = combined_output sc (codes "-c" ∷ codes "uptime" ∷ socket ∷ []) w in
    (
      elim r.failure [
        | some e ↦ err (wrap (codes "suricatasc uptime failed: ") e [])
        | none ↦ elim (unmarshal (trim_space r.output)) [
          | some answer ↦ ok (bytes_eq answer (codes "OK"))
          | none ↦
              if contains (to_upper r.output) (codes "OK")
              then ok true
              else err (
                  report (codes "unexpected suricatasc uptime output: %q (stderr=%q)")
                    (r.output ∷ []))
        ]
      ],
      w',
    )

abbrev pub not_ready_error : Error → Option Error → Error
not_ready_error done none = wrap (codes "suricata not ready within %s: ") done []
not_ready_error done (some last) = wrap (codes "suricata not ready within %s: ") last []

-- The loop, on the readings of the context at its head, true while it is not done, and with `lastErr`. The context is done
-- after the last reading.
unfoldable pub wait_loop :
    (Bytes → Option Bytes) → Error → List Bool → Option Error → Bytes → Bytes → M (Option Error)
wait_loop unmarshal done [] last sc socket w = (some (not_ready_error done last), w)
wait_loop unmarshal done (false ∷ clock) last sc socket w = (some (not_ready_error done last), w)
wait_loop unmarshal done (true ∷ clock) last sc socket w =
    let (r, w') = probe_uptime unmarshal sc socket w in
    let again = wait_loop unmarshal done clock last sc socket w' in
    elim r [
      | ok ready ↦ if ready then (none, w') else again
      | err e ↦ wait_loop unmarshal done clock (some e) sc socket w'
    ]

-- `waitSuricataReady`
unfoldable pub wait_suricata_ready :
    (Bytes → Option Bytes) → Error → List Bool → Bytes → Bytes → M (Option Error)
wait_suricata_ready unmarshal done clock sc socket w =
    if is_empty sc
    then (some (msg (codes "suricatasc path is empty")), w)
    else if is_empty socket
    then (some (msg (codes "suricata socket is empty")), w)
    else wait_loop unmarshal done clock none sc socket w
