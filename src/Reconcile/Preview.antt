-- ===== src/Reconcile/Preview.antt =====
-- The dry run against the real run.
use integration_suricata_n_d.Base.{
  Bool, true, false, Option, some, ◌≡◌, refl, sym, ◌∙◌, arith, Bytes, inl, inr,
}
use integration_suricata_n_d.Sys.{Result, ok, Result-cases, World, Node, read_file}
use integration_suricata_n_d.Options.{ApplyConfigOptions}
use integration_suricata_n_d.Patch.{patch_config}
use integration_suricata_n_d.Service.{first_existing_path}
use integration_suricata_n_d.Template.{render_template_strict}
use integration_suricata_n_d.Toggle.Disk.{read_file-files, read_file_ok}
use integration_suricata_n_d.Reconcile.{
  PlanReport, Texts, Prepared, stopped, ready, plan_texts, reconcile_texts, blank_plan, full_plan,
  prepare_target, prepare, plan_config, reconcile_config, not_done,
}
use integration_suricata_n_d.Reconcile.Plans.{
  Prepared-cases, first_path_of-files, reconcile_changed-plan,
}

-- The text is the template of the disk, with its variables filled in.
abbrev pub Rendered : (Bytes → Option Bytes) → Result Bytes → Bytes → World → Bytes → Type 0
Rendered env route template w rendered =
    (raw : Bytes) × ((read_file template w).0 ≡ ok raw)
    × (render_template_strict env route raw ≡ ok rendered)

module _ (env : Bytes → Option Bytes) (route : Result Bytes) (sha256_hex : Bytes → Bytes) where
  pub prepare_target-files :
      (t : Texts) (rendered target : Bytes) (w : World)
      → (prepare_target t rendered target w).1.files ≡ w.files
  unfolding prepare_target
  prepare_target-files t rendered target w = ground (arith, read_file-files target w)

  pub prepare-files :
      (t : Texts) (opts : ApplyConfigOptions) (w : World)
      → (prepare env route sha256_hex t opts w).1.files ≡ w.files
  unfolding prepare
  prepare-files t opts w = elim (Result-cases (read_file opts.template_path w).0) [
    | inr (x, e) ↦ rw (e, prepare) read
    | inl (raw, e) ↦ elim (Result-cases (render_template_strict env route raw)) [
      | inr (x, r) ↦ rw (e, prepare) (rw (r, prepare) read)
      | inl (rendered, r) ↦ elim (Result-cases (first_existing_path opts.config_candidates w1).0) [
        | inr (x, p) ↦ rw (e, prepare) (rw (r, prepare) (rw (p, prepare) (searched ∙ read)))
        | inl (target, p) ↦
            rw (e, prepare)
              (rw (r, prepare)
                (rw (p, prepare) (prepare_target-files t rendered target w2 ∙ searched ∙ read)))
      ]
    ]
  ]
    where
      w1 : World
      w1 = (read_file opts.template_path w).1

      w2 : World
      w2 = (first_existing_path opts.config_candidates w1).1

      read : w1.files ≡ w.files
      read = read_file-files opts.template_path w

      searched : w2.files ≡ w1.files
      searched = first_path_of-files opts.config_candidates opts.config_candidates w1

  -- What the first steps hand on: the target holds the current content, and the new content is its patch.
  abbrev pub Ready : World → Bytes → Bytes → Bytes → Bytes → Bool → Type 0
  Ready w rendered target current patched changed =
      (n : Node) × (w.files target ≡ some n)
      × (n.content ≡ current)
      × (patch_config rendered current ≡ ok (patched, changed))

  prepare_target_ready :
      (t : Texts) (rendered target : Bytes) (w : World) (target' current patched : Bytes)
      (changed : Bool)
      → (prepare_target t rendered target w).0 ≡ ready target' current patched changed
      → Ready w rendered target' current patched changed
  unfolding prepare_target
  prepare_target_ready t rendered target w target' current patched changed h =
      elim (Result-cases (read_file target w).0) [
        | inr (x, e) ↦ absurd (ground (arith, e))
        | inl (b, e) ↦ elim (Result-cases (patch_config rendered b)) [
          | inr (x, p) ↦ absurd (ground (arith, e, p))
          | inl ((out, c), p) ↦
              let (n, f, same) = read_file_ok target w b e in
              let same_target : target ≡ target' = ground (arith, e, p) in
              let same_current : b ≡ current = ground (arith, e, p) in
              let same_out : out ≡ patched = ground (arith, e, p) in
              let same_changed : c ≡ changed = ground (arith, e, p) in
              (
                n,
                rw (← same_target) f,
                same ∙ same_current,
                rw (← same_current, ← same_out, ← same_changed) p,
              )
        ]
      ]

  pub prepare_ready :
      (t : Texts) (opts : ApplyConfigOptions) (w : World) (target current patched : Bytes)
      (changed : Bool)
      → (prepare env route sha256_hex t opts w).0 ≡ ready target current patched changed
      → (rendered : Bytes) × Rendered env route opts.template_path w rendered
        × Ready w rendered target current patched changed
  unfolding prepare
  prepare_ready t opts w target current patched changed h =
      elim (Result-cases (read_file opts.template_path w).0) [
        | inr (x, e) ↦ absurd (ground (arith, e))
        | inl (raw, e) ↦ elim (Result-cases (render_template_strict env route raw)) [
          | inr (x, r) ↦ absurd (ground (arith, e, r))
          | inl (rendered, r) ↦
              elim (Result-cases (first_existing_path opts.config_candidates w1).0) [
                | inr (x, p) ↦ absurd (ground (arith, e, r, p))
                | inl (found, p) ↦ (
                  rendered,
                  (raw, e, r),
                  rw same at (
                      prepare_target_ready t rendered found w2 target current patched changed
                        (ground (arith, e, r, p))),
                )
              ]
        ]
      ]
    where
      w1 : World
      w1 = (read_file opts.template_path w).1

      w2 : World
      w2 = (first_existing_path opts.config_candidates w1).1

      same : w2.files ≡ w.files
      same =
          first_path_of-files opts.config_candidates opts.config_candidates w1
          ∙ read_file-files opts.template_path w

  -- The part of the reports that the first steps decide.
  plan_of : Bytes → Prepared → PlanReport
  plan_of template (stopped target e) = blank_plan template target
  plan_of template (ready target current patched changed) =
      full_plan env route sha256_hex template target current patched changed

  plan_of-prepare :
      (t t' : Texts) (opts : ApplyConfigOptions) (w : World) (template : Bytes)
      → plan_of template (prepare env route sha256_hex t opts w).0
        ≡ plan_of template (prepare env route sha256_hex t' opts w).0
  unfolding prepare prepare_target plan_of
  plan_of-prepare t t' opts w template = ground arith

  reconcile_config-plan :
      (opts : ApplyConfigOptions) (w : World)
      → (reconcile_config env route sha256_hex opts w).0.0.plan
        ≡ plan_of opts.template_path (prepare env route sha256_hex reconcile_texts opts w).0
  unfolding reconcile_config
  reconcile_config-plan opts w =
      elim (Prepared-cases (prepare env route sha256_hex reconcile_texts opts w).0) [
        | inl (target, x, e) ↦ rw (e, reconcile_config) (unfold plan_of in refl)
        | inr (target, current, patched, false, e) ↦
            rw (e, reconcile_config) (unfold plan_of in refl)
        | inr (target, current, patched, true, e) ↦
            rw (e, reconcile_config)
              (reconcile_changed-plan opts
                  (not_done
                    (full_plan env route sha256_hex opts.template_path target current patched true))
                  target patched (prepare env route sha256_hex reconcile_texts opts w).1
                ∙ unfold plan_of in refl)
      ]

  plan_config-plan :
      (opts : ApplyConfigOptions) (w : World)
      → (plan_config env route sha256_hex opts w).0.0
        ≡ plan_of opts.template_path (prepare env route sha256_hex plan_texts opts w).0
  unfolding plan_config plan_of
  plan_config-plan opts w = ground arith

  -- From the same machine the dry run and the real run report the same template, target, digests, sizes and change, also
  -- where they stop with an error; and the dry run changes no file.
  pub plan_config-reconcile_config :
      (opts : ApplyConfigOptions) (w : World)
      → ((plan_config env route sha256_hex opts w).0.0
          ≡ (reconcile_config env route sha256_hex opts w).0.0.plan)
        × ((plan_config env route sha256_hex opts w).1.files ≡ w.files)
  plan_config-reconcile_config opts w = (
    plan_config-plan opts w
        ∙ plan_of-prepare plan_texts reconcile_texts opts w opts.template_path
        ∙ sym (reconcile_config-plan opts w),
    unfold plan_config in ground (arith, prepare-files plan_texts opts w),
  )
