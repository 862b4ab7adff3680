-- ===== src/Apply/Commands.antt =====
-- What `ApplyConfigWithContext` runs, and what its answer says of it.
use integration_suricata_n_d.Base.{
  true, false, refl, Bytes, Bool-cases, inl, inr, bytes_eq_iff, Option, none, some, [], ◌∷◌, ◌≡◌,
  ◌⊎◌, ◌≢◌, ◌↔◌, arith, codes,
}
use integration_suricata_n_d.Text.{trim_space, to_lower}
use integration_suricata_n_d.Config.{is_shutdown, is_empty, normalized_command}
use integration_suricata_n_d.Options.{ApplyConfigOptions}
use integration_suricata_n_d.Sys.{
  deadline_exceeded, Error, is_kind, World, RunResult, combined_output,
}
use integration_suricata_n_d.Apply.{
  ApplyConfigReport, unset, reload_ok, is_none_command, reload_outcome, apply_config,
}

-- The context has ended, and not by its deadline.
abbrev pub Ended : Option Error → Type 0
Ended none = ⊥
Ended (some c) = is_kind deadline_exceeded c ≡ false

-- The command is the word, in any case and with any spacing around it.
abbrev pub IsCommand : Bytes → Bytes → Type 0
IsCommand word command = trim_space (to_lower command) ≡ word

-- The command is blank or "none".
abbrev pub Skips : Bytes → Type 0
Skips command = IsCommand (codes "") command ⊎ IsCommand (codes "none") command

is_shutdown_iff : (c : Bytes) → (is_shutdown c ≡ true) ↔ IsCommand (codes "shutdown") c
unfolding normalized_command
is_shutdown_iff c =
    let same = bytes_eq_iff (trim_space (to_lower c)) (codes "shutdown") in (same.0, same.1)

is_empty-nil : (s : Bytes) → (is_empty s ≡ true) ↔ (s ≡ [])
is_empty-nil [] = (λ h. refl, λ h. refl)
is_empty-nil (c ∷ s) = (λ h. cc, λ h. cc)

is_none_command_iff : (c : Bytes) → (is_none_command c ≡ true) ↔ Skips c
unfolding normalized_command
is_none_command_iff c =
    let s = trim_space (to_lower c) in ground (arith, is_empty-nil s, bytes_eq_iff s (codes "none"))

-- What the answer says of a command that was run.
reload_outcome_iff :
    (rep : ApplyConfigReport) (r : RunResult)
    → rep.reload_status ≡ unset
    → (((reload_outcome rep r).0.reload_status ≡ reload_ok)
        ↔ ((r.failure ≡ none) × (r.context ≡ none)))
      × (((reload_outcome rep r).1 ≢ none) ↔ ((r.failure ≡ none) × Ended r.context))
unfolding reload_outcome
reload_outcome_iff rep r h = (ground (arith, h), ground (arith, h))

-- For a reload command that is "shutdown", "none" or blank, in any case and spacing, the machine stays as it is; for any
-- other suricatasc is run once with it, and that is all that happens. The report says ok just where the command is not
-- "shutdown" and is "none" or blank, or ran with no error of its own or its context. There is an error just where the
-- command is "shutdown", or was run and did not fail while the context ended by something else than its deadline.
pub apply_config_commands :
    (opts : ApplyConfigOptions) (w : World)
    → let command = opts.reload_command in
      let ran = combined_output opts.suricata_sc_path (codes "-c" ∷ command ∷ []) w in
      let refused = IsCommand (codes "shutdown") command in
      ((((refused ⊎ Skips command) × ((apply_config opts w).1 ≡ w))
        ⊎ (((refused → ⊥) × (Skips command → ⊥)) × ((apply_config opts w).1 ≡ ran.1))))
      × (((apply_config opts w).0.0.reload_status ≡ reload_ok)
          ↔ ((refused → ⊥) × (Skips command ⊎ ((ran.0.failure ≡ none) × (ran.0.context ≡ none)))))
      × (((apply_config opts w).0.1 ≢ none)
          ↔ (refused ⊎ ((Skips command → ⊥) × ((ran.0.failure ≡ none) × Ended ran.0.context))))
unfolding apply_config reload_outcome
apply_config_commands opts w =
    let shut = is_shutdown_iff opts.reload_command in
    let skips = is_none_command_iff opts.reload_command in
    elim (Bool-cases (is_shutdown opts.reload_command)) [
      | inl e ↦
          let refused = shut.0 e in
          rw (e, apply_config)
            (
              inl (inl refused, refl),
              (λ h. cc, λ h. absurd (h.0 refused)),
              (λ h. inl refused, λ h z. cc),
            )
      | inr e ↦
          let not_refused : IsCommand (codes "shutdown") opts.reload_command → ⊥ =
            λ z. ground (arith, e, shut.1 z) in
          elim (Bool-cases (is_none_command opts.reload_command)) [
            | inl k ↦
                let skipped = skips.0 k in
                rw (e, apply_config)
                  (rw (k, apply_config)
                    (
                      inl (inr skipped, refl),
                      (λ h. (not_refused, inl skipped), λ h. refl),
                      (
                        λ h. absurd (h refl),
                        λ h. elim h [
                          | inl z ↦ absurd (not_refused z)
                          | inr z ↦ absurd (z.0 skipped)
                        ],
                      ),
                    ))
            | inr k ↦
                let not_skipped : Skips opts.reload_command → ⊥ =
                  λ z. ground (arith, k, skips.1 z) in
                let (ok_iff, error_iff) =
                  reload_outcome_iff _
                    (combined_output opts.suricata_sc_path (codes "-c" ∷ opts.reload_command ∷ [])
                      w).0
                    refl in
                rw (e, apply_config)
                  (rw (k, apply_config)
                    (
                      inr ((not_refused, not_skipped), refl),
                      (
                        λ h. (not_refused, inr (ok_iff.0 h)),
                        λ h. elim h.1 [ inl z ↦ absurd (not_skipped z) | inr z ↦ ok_iff.1 z ],
                      ),
                      (
                        λ h. inr (not_skipped, error_iff.0 h),
                        λ h. elim h [ inl z ↦ absurd (not_refused z) | inr z ↦ error_iff.1 z.1 ],
                      ),
                    ))
          ]
    ]
