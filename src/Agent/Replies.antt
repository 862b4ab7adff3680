-- ===== src/Agent/Replies.antt =====
-- What the handlers of the agent do.
use integration_suricata_n_d.Base.{
  ℕ, zero, suc, ◌≤◌, Bool, true, false, Option, none, Option-cases, List, [], ◌∷◌, ◌++◌, ◌≡◌, ◌≢◌,
  ◌⊎◌, ◌↔◌, refl, sym, ◌∙◌, arith, Bytes, if◌then◌else◌, Bool-cases, inl, inr, codes, append_assoc,
  append-nil,
}
use integration_suricata_n_d.Text.{trim_space}
use integration_suricata_n_d.Sys.{
  Error, RunResult, Event, World, run, combined_output, Result, ok, err, Result-cases,
}
use integration_suricata_n_d.Sys.Effects.{combined_output-files, combined_output-log}
use integration_suricata_n_d.Toggle.{set_ndpi_enabled}
use integration_suricata_n_d.Agent.{
  Method, Deps, is_post, write_err_from_err, restart_unit, restart_changed, ndpi_toggle_handler,
  reload_attempts, classify_err,
}

-- The runs of one command, `n` times over.
abbrev pub attempts_log : ℕ → Event → List Event
attempts_log zero e = []
attempts_log (suc n) e = e ∷ attempts_log n e

module _ (sc command socket : Bytes) where
  abbrev pub this_run : Event
  this_run = run sc (codes "-c" ∷ command ∷ socket ∷ [])

  -- The loop runs suricatasc at least once if it has a round to go, and at most once a round; no file changes; and it runs
  -- all its rounds unless it reports that one worked.
  pub reload_attempts_runs :
      (n : ℕ) (last : Bytes) (w : World)
      → (k : ℕ) × (k ≤ n)
        × ((n ≡ 0) ⊎ (1 ≤ k))
        × ((reload_attempts n sc command socket last w).1.log ≡ w.log ++ attempts_log k this_run)
        × ((reload_attempts n sc command socket last w).1.files ≡ w.files)
        × (((reload_attempts n sc command socket last w).0.0 ≡ true) ⊎ (k ≡ n))
  unfolding reload_attempts
  reload_attempts_runs zero last w =
      (0, omega arith, inl refl, sym (append-nil w.log), refl, inr refl)
  reload_attempts_runs (suc n) last w = elim (Option-cases r.failure) [
    | inl e ↦
        rw (e, reload_attempts)
          (
            1,
            omega arith,
            inr (omega arith),
            combined_output-log sc args w,
            combined_output-files sc args w,
            inl refl,
          )
    | inr (x, e) ↦
        let (k, h, h', l, f, o) = reload_attempts_runs n (trim_space r.output) w' in
        rw (e, reload_attempts)
          (
            suc k,
            omega (arith, h),
            inr (omega arith),
            l
                ∙ rw (combined_output-log sc args w)
                    (append_assoc w.log (this_run ∷ []) (attempts_log k this_run)),
            f ∙ combined_output-files sc args w,
            ground (arith, o),
          )
  ]
    where
      args : List Bytes
      args = codes "-c" ∷ command ∷ socket ∷ []

      r : RunResult
      r = (combined_output sc args w).0

      w' : World
      w' = (combined_output sc args w).1

-- The status of an error is one of those of `classifyErr`.
write_err_from_err-status : (e : Error) → (write_err_from_err e).status ≢ 200
unfolding write_err_from_err classify_err
write_err_from_err-status e = ground arith

abbrev pub changed_by : Result (Bool × Bool) → Bool
changed_by (err e) = false
changed_by (ok (changed, enabled)) = changed

-- The toggle worked, and changed nothing or was followed by a restart that worked.
abbrev pub Works : Result (Bool × Bool) → Option Error → Type 0
Works (err e) restarted = ⊥
Works (ok (changed, enabled)) restarted = (changed ≡ false) ⊎ (restarted ≡ none)

-- Enabling or disabling answers 200 just where the request is a POST, the toggle worked, and it changed nothing or the
-- restart after it worked. Without a POST the machine stays as it is; and after the toggle nothing more is done unless it
-- worked and changed the file, and then the unit is restarted.
pub ndpi_toggle_handler_answers :
    (enable : Bool) (d : Deps) (m : Method) (w : World)
    → let set = set_ndpi_enabled d.suricata_cfg_path d.ndpi_plugin_path enable w in
      let answer = ndpi_toggle_handler enable d m w in
      ((answer.0.status ≡ 200) ↔ ((is_post m ≡ true) × Works set.0 ((restart_unit d set.1).0)))
      × (answer.1 ≡ (
          if is_post m then (if changed_by set.0 then (restart_unit d set.1).1 else set.1) else w))
unfolding ndpi_toggle_handler restart_changed write_err_from_err
ndpi_toggle_handler_answers enable d m w =
    let set = set_ndpi_enabled d.suricata_cfg_path d.ndpi_plugin_path enable w in
    elim (Bool-cases (is_post m)) [
      | inr p ↦ rw (p, ndpi_toggle_handler) (ground arith, refl)
      | inl p ↦ elim (Result-cases set.0) [
        | inr (x, e) ↦
            rw (p, ndpi_toggle_handler)
              (rw (e, ndpi_toggle_handler) (ground (arith, write_err_from_err-status x), refl))
        | inl ((false, on), e) ↦
            rw (p, ndpi_toggle_handler) (rw (e, ndpi_toggle_handler) (ground arith, refl))
        | inl ((true, on), e) ↦
            rw (p, ndpi_toggle_handler) (rw (e, ndpi_toggle_handler) (ground arith, refl))
      ]
    ]
