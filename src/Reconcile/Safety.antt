-- ===== src/Reconcile/Safety.antt =====
-- What a real run leaves on disk.
use integration_suricata_n_d.Base.{
  ℕ, true, false, Option, none, some, Option-cases, [], ◌∷◌, ◌≡◌, ◌≢◌, ◌⊎◌, refl, sym, ap, ◌∙◌,
  subst, arith, Bytes, inl, inr, codes, length, length-append,
}
use integration_suricata_n_d.Sys.{Error, Result, ok, World, Node, stat, remove, combined_output}
use integration_suricata_n_d.Sys.Effects.{remove-SameBut, combined_output-files}
use integration_suricata_n_d.Atomic.{write_file_atomic}
use integration_suricata_n_d.Atomic.Frame.{written, write_file_atomic-AllOrNothing}
use integration_suricata_n_d.Atomic.Others.{write_file_atomic_others}
use integration_suricata_n_d.Options.{ApplyConfigOptions}
use integration_suricata_n_d.Patch.{patch_config}
use integration_suricata_n_d.Toggle.{perm_of}
use integration_suricata_n_d.Toggle.Disk.{stat-files}
use integration_suricata_n_d.Reconcile.{
  PlanReport, ReconcileReport, reconcile_texts, full_plan, prepare, restart_after, install,
  check_and_install, reconcile_changed, reconcile_config, not_done, trimmed_or, integration_tmp,
}
use integration_suricata_n_d.Reconcile.Preview.{prepare-files, prepare_ready, Rendered}
use integration_suricata_n_d.Reconcile.Plans.{Prepared-cases, reconcile_changed-plan}

abbrev Answer : Type 0
Answer = (ReconcileReport × Option Error) × World

-- The target after the steps: the old file and a report that nothing was applied, or all of the new content and a
-- report that it was checked and applied.
abbrev pub Leaves : Bytes → Bytes → Node → Answer → Type 0
Leaves target patched old r =
    ((r.0.0.applied ≡ false) × (r.1.files target ≡ some old))
    ⊎ ((r.0.0.applied ≡ true)
        × (r.0.0.validated ≡ true)
        × ((n : Node) × (r.1.files target ≡ some n) × (n.content ≡ patched)))

integration_tmp-ne : (target : Bytes) → integration_tmp target ≢ target
integration_tmp-ne target e =
    absurd (omega (arith, ap length e, length-append target (codes ".integration.tmp")))

at : {f g : Bytes → Option Node} (q : Bytes) → f ≡ g → f q ≡ g q
at q p = ap (λ (f : Bytes → Option Node). f q) p

restart_after-files :
    (opts : ApplyConfigOptions) (rep : ReconcileReport) (w : World)
    → (restart_after opts rep w).1.files ≡ w.files
unfolding restart_after
restart_after-files opts rep w = ground (
  arith,
  combined_output-files (trimmed_or opts.systemctl_path (codes "/usr/bin/systemctl"))
      (codes "restart" ∷ trimmed_or opts.suricata_service (codes "suricata") ∷ []) w,
)

restart_after-report :
    (opts : ApplyConfigOptions) (rep : ReconcileReport) (w : World)
    → ((restart_after opts rep w).0.0.applied ≡ rep.applied)
      × ((restart_after opts rep w).0.0.validated ≡ rep.validated)
unfolding restart_after
restart_after-report opts rep w = (ground arith, ground arith)

-- Files that were there, other than the target and its temporary copy, stay.
abbrev pub KeepsOthers : Bytes → World → World → Type 0
KeepsOthers target w v =
    (q : Bytes) → q ≢ target → q ≢ integration_tmp target → w.files q ≢ none → v.files q ≡ w.files q

apart : (target : Bytes) → target ≢ integration_tmp target
apart target e = integration_tmp-ne target (sym e)

module _ (opts : ApplyConfigOptions) (target patched : Bytes) (perm : ℕ) (old : Node) where
  install-Leaves :
      (rep : ReconcileReport) (w : World)
      → rep.applied ≡ false
      → rep.validated ≡ true
      → w.files target ≡ some old
      → Leaves target patched old (install opts rep target (integration_tmp target) patched perm w)
        × KeepsOthers target w (install opts rep target (integration_tmp target) patched perm w).1
  unfolding install
  install-Leaves rep w na va held =
      let (ends, others) = write_file_atomic-AllOrNothing target patched perm w old held in
      let v = (write_file_atomic target patched perm w).1 in
      let u = (remove (integration_tmp target) v).1 in
      let gone = remove-SameBut (integration_tmp target) v in
      let kept : KeepsOthers target w u = λ q d d' k. gone q d' ∙ others q d k in
      elim (Option-cases (write_file_atomic target patched perm w).0) [
        | inr (x, e) ↦
            rw (e, install)
              (elim ends [
                | inl (fine, f) ↦ absurd (ground (arith, fine, e))
                | inr (bad, f) ↦ (inl (na, gone target (apart target) ∙ f), kept)
              ])
        | inl e ↦
            rw (e, install)
              (elim ends [
                | inr (bad, f) ↦ absurd (bad e)
                | inl (fine, f) ↦
                    let rep' = record rep { applied = true } in
                    let (ra, rv) = restart_after-report opts rep' u in
                    let same = restart_after-files opts rep' u in
                    (
                      inr (
                        ra,
                        rv ∙ va,
                        (
                          written patched perm,
                          at target same ∙ gone target (apart target) ∙ f,
                          refl,
                        ),
                      ),
                      λ q d d' k. at q same ∙ kept q d d' k,
                    )
              ])
      ]

  check_and_install-Leaves :
      (rep : ReconcileReport) (w : World)
      → rep.applied ≡ false
      → w.files target ≡ some old
      → Leaves target patched old
          (check_and_install opts rep target (integration_tmp target) patched perm w)
        × KeepsOthers target w
            (check_and_install opts rep target (integration_tmp target) patched perm w).1
  unfolding check_and_install
  check_and_install-Leaves rep w na held =
      let bin = trimmed_or opts.suricata_bin_path (codes "suricata") in
      let args = codes "-T" ∷ codes "-c" ∷ integration_tmp target ∷ [] in
      let v = (combined_output bin args w).1 in
      let same = combined_output-files bin args w in
      let gone = remove-SameBut (integration_tmp target) v in
      elim (Option-cases (combined_output bin args w).0.failure) [
        | inr (x, e) ↦
            rw (e, check_and_install)
              (
                inl (na, gone target (apart target) ∙ at target same ∙ held),
                λ q d d' k. gone q d' ∙ at q same,
              )
        | inl e ↦
            let (l, o) =
              install-Leaves (record rep { validated = true }) v na refl (at target same ∙ held) in
            rw (e, check_and_install) (l, λ q d d' k. o q d d' (rw (at q same) k) ∙ at q same)
      ]

reconcile_changed-Leaves :
    (opts : ApplyConfigOptions) (rep : ReconcileReport) (target patched : Bytes) (old : Node)
    (w : World)
    → rep.applied ≡ false
    → w.files target ≡ some old
    → Leaves target patched old (reconcile_changed opts rep target patched w)
      × KeepsOthers target w (reconcile_changed opts rep target patched w).1
unfolding reconcile_changed
reconcile_changed-Leaves opts rep target patched old w na held =
    let perm = perm_of (stat target w).0 in
    let w1 = (stat target w).1 in
    let seen = stat-files target w in
    let w2 = (write_file_atomic (integration_tmp target) patched perm w1).1 in
    let others = write_file_atomic_others (integration_tmp target) patched perm w1 in
    let kept : KeepsOthers target w w2 = λ q d d' k. others q d' (rw seen k) ∙ at q seen in
    let now : w2.files target ≡ some old =
      others target (apart target) (rw (seen, held) (λ e. cc)) ∙ at target seen ∙ held in
    elim (Option-cases (write_file_atomic (integration_tmp target) patched perm w1).0) [
      | inr (x, e) ↦ rw (e, reconcile_changed) (inl (na, now), kept)
      | inl e ↦
          let (l, o) = check_and_install-Leaves opts target patched perm old rep w2 na now in
          rw (e, reconcile_changed) (l, λ q d d' k. o q d d' (rw (kept q d d' k) k) ∙ kept q d d' k)
    ]

-- What a run leaves of the target: the old file, and a report that says that nothing was applied; or, after a check and
-- with a report that says so, the patch of the old file with one of the texts.
abbrev pub Outcome : (Bytes → Type 0) → Bytes → Node → Answer → Type 0
Outcome IsText target old r =
    ((r.0.0.applied ≡ false) × (r.1.files target ≡ some old))
    ⊎ ((r.0.0.applied ≡ true)
        × (r.0.0.validated ≡ true)
        × ((n : Node) × (rendered : Bytes) × (r.1.files target ≡ some n)
            × IsText rendered
            × (patch_config rendered old.content ≡ ok (n.content, true))))

Outcome-of_Leaves :
    (IsText : Bytes → Type 0) (target patched current rendered : Bytes) (old m : Node) (r : Answer)
    → IsText rendered
    → m ≡ old
    → m.content ≡ current
    → patch_config rendered current ≡ ok (patched, true)
    → Leaves target patched old r
    → Outcome IsText target old r
Outcome-of_Leaves IsText target patched current rendered old m r text same c p (inl l) = inl l
Outcome-of_Leaves IsText target patched current rendered old m r text same c p
      (inr (a, v, (n, f, g))) =
    inr (a, v, (n, rendered, f, text, rw (g, ← same, c) p))

-- Whatever system calls and commands fail, a real run leaves the target as it was and reports that nothing was applied, or
-- it reports that the new content was checked and applied and the target holds all of the patch of its old content with the
-- rendered template of the disk; and no
-- other file that was there is touched, but for the one that stands under the temporary name beside the target.
pub reconcile_config_safe :
    (env : Bytes → Option Bytes) (route : Result Bytes) (sha256_hex : Bytes → Bytes)
    (opts : ApplyConfigOptions) (w : World) (target : Bytes) (old : Node)
    → (reconcile_config env route sha256_hex opts w).0.0.target_config_path ≡ target
    → w.files target ≡ some old
    → Outcome
        (Rendered env route opts.template_path w)
        target
        old
        (reconcile_config env route sha256_hex opts w)
      × KeepsOthers target w (reconcile_config env route sha256_hex opts w).1
unfolding reconcile_config
reconcile_config_safe env route sha256_hex opts w target old t held =
    elim (Prepared-cases (prepare env route sha256_hex reconcile_texts opts w).0) [
      | inl (t', x, e) ↦
          rw (e, reconcile_config) (inl (refl, at target same ∙ held), λ q d d' k. at q same)
      | inr (t', current, patched, false, e) ↦
          rw (e, reconcile_config) (inl (refl, at target same ∙ held), λ q d d' k. at q same)
      | inr (t', current, patched, true, e) ↦
          let rep =
            not_done (full_plan env route sha256_hex opts.template_path t' current patched true) in
          let (rendered, text, (m, f, c, p)) =
            prepare_ready env route sha256_hex reconcile_texts opts w t' current patched true e in
          let reported : t' ≡ target =
            sym (
              ap (λ (x : PlanReport). x.target_config_path)
                (reconcile_changed-plan opts rep t' patched v))
            ∙ (rw (e, reconcile_config) at t) in
          let held' : w.files t' ≡ some old = ap w.files reported ∙ held in
          let whose : m ≡ old = ground (arith, f, held') in
          let r = reconcile_changed opts rep t' patched v in
          let (l, o) =
            reconcile_changed-Leaves opts rep t' patched old v refl (at t' same ∙ held') in
          rw (e, reconcile_config)
            (subst
              (λ x. Outcome (Rendered env route opts.template_path w) x old r × KeepsOthers x w r.1)
              reported
              (
                Outcome-of_Leaves (Rendered env route opts.template_path w) t' patched current
                    rendered old m r text whose c p l,
                λ q d d' k. o q d d' (rw (at q same) k) ∙ at q same,
              ))
    ]
  where
    v : World
    v = (prepare env route sha256_hex reconcile_texts opts w).1

    same : v.files ≡ w.files
    same = prepare-files env route sha256_hex reconcile_texts opts w
