-- ===== src/Reconcile/Plans.antt =====
-- The plan in the report of a real run: `integration/reconcile_config.go`.
use integration_suricata_n_d.Base.{
  ℕ, Bool, true, List, [], ◌∷◌, ◌≡◌, ◌⊎◌, refl, ◌∙◌, arith, Bytes, inl, inr, codes,
}
use integration_suricata_n_d.Sys.{Error, remove, combined_output, Result-cases, World, stat}
use integration_suricata_n_d.Atomic.{write_file_atomic}
use integration_suricata_n_d.Options.{ApplyConfigOptions}
use integration_suricata_n_d.Service.{first_path_of}
use integration_suricata_n_d.Toggle.{perm_of}
use integration_suricata_n_d.Toggle.Disk.{stat-files}
use integration_suricata_n_d.Reconcile.{
  ReconcileReport, Prepared, stopped, ready, restart_after, install, check_and_install,
  reconcile_changed, trimmed_or, integration_tmp,
}

pub first_path_of-files :
    (all paths : List Bytes) (w : World) → (first_path_of all paths w).1.files ≡ w.files
unfolding first_path_of
first_path_of-files all [] w = refl
first_path_of-files all (p ∷ paths) w = elim (Result-cases (stat p w).0) [
  | inl (n, e) ↦ rw (e, first_path_of) (stat-files p w)
  | inr (x, e) ↦ rw (e, first_path_of) (first_path_of-files all paths (stat p w).1 ∙ stat-files p w)
]

pub Prepared-cases :
    (p : Prepared)
    → ((target : Bytes) × (e : Error) × (p ≡ stopped target e))
      ⊎ ((target : Bytes) × (current : Bytes) × (patched : Bytes) × (changed : Bool) × (p
            ≡ ready target current patched changed))
Prepared-cases (stopped target e) = inl (target, e, refl)
Prepared-cases (ready target current patched changed) =
    inr (target, current, patched, changed, refl)

-- The plan that a real run reports is kept by all that it does.
restart_after-plan :
    (opts : ApplyConfigOptions) (rep : ReconcileReport) (w : World)
    → (restart_after opts rep w).0.0.plan ≡ rep.plan
unfolding restart_after
restart_after-plan opts rep w = ground arith

install-plan :
    (opts : ApplyConfigOptions) (rep : ReconcileReport) (target tmp patched : Bytes) (perm : ℕ)
    (w : World)
    → (install opts rep target tmp patched perm w).0.0.plan ≡ rep.plan
unfolding install
install-plan opts rep target tmp patched perm w = ground (
  arith,
  restart_after-plan opts (record rep { applied = true })
      (remove tmp (write_file_atomic target patched perm w).1).1,
)

check_and_install-plan :
    (opts : ApplyConfigOptions) (rep : ReconcileReport) (target tmp patched : Bytes) (perm : ℕ)
    (w : World)
    → (check_and_install opts rep target tmp patched perm w).0.0.plan ≡ rep.plan
unfolding check_and_install
check_and_install-plan opts rep target tmp patched perm w = ground (
  arith,
  install-plan opts (record rep { validated = true }) target tmp patched perm
      (combined_output (trimmed_or opts.suricata_bin_path (codes "suricata"))
        (codes "-T" ∷ codes "-c" ∷ tmp ∷ []) w).1,
)

pub reconcile_changed-plan :
    (opts : ApplyConfigOptions) (rep : ReconcileReport) (target patched : Bytes) (w : World)
    → (reconcile_changed opts rep target patched w).0.0.plan ≡ rep.plan
unfolding reconcile_changed
reconcile_changed-plan opts rep target patched w = ground (
  arith,
  check_and_install-plan opts rep target (integration_tmp target) patched
      (perm_of (stat target w).0)
      (write_file_atomic (integration_tmp target) patched (perm_of (stat target w).0)
        (stat target w).1).1,
)
