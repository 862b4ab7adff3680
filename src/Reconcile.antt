-- ===== src/Reconcile.antt =====
-- integration/plan_config.go and reconcile_config.go: the dry run, and the checked write and restart.
pub mod Preview
pub mod Plans
pub mod Safety
pub mod Named
use integration_suricata_n_d.Base.{
  ℕ, Bool, true, false, not, Option, none, some, List, [], ◌∷◌, ◌++◌, if◌then◌else◌, Bytes, codes,
  length, bytes_eq,
}
use integration_suricata_n_d.Text.{trim_space}
use integration_suricata_n_d.Config.{is_empty}
use integration_suricata_n_d.Options.{ApplyConfigOptions}
use integration_suricata_n_d.Sys.{
  Error, msg, wrap, report, Result, ok, err, RunResult, M, combined_output, stat, read_file, remove,
}
use integration_suricata_n_d.Atomic.{write_file_atomic}
use integration_suricata_n_d.Patch.{patch_config}
use integration_suricata_n_d.Service.{first_existing_path}
use integration_suricata_n_d.Template.{render_template_strict}
use integration_suricata_n_d.Toggle.{perm_of}

pub record PlanReport : Type 0 where
  pub template_path : Bytes
  pub target_config_path : Bytes
  pub current_sha256 : Bytes
  pub patched_sha256 : Bytes
  pub current_bytes : ℕ
  pub patched_bytes : ℕ
  pub would_change : Bool
  pub restart_required : Bool

-- `plan` holds the fields that the two reports share.
pub record ReconcileReport : Type 0 where
  pub plan : PlanReport
  pub open plan use *
  pub applied : Bool
  pub validated : Bool
  pub restart_performed : Bool
  pub restart_command : Bytes
  pub restart_output : Bytes

-- The texts before the error and the path that tell the two functions' first steps apart.
pub record Texts : Type 0 where
  pub read_template : Bytes
  pub render_template : Bytes
  pub not_found : Bytes
  pub read_current : Bytes
  pub patch : Bytes

-- How the first steps end: with an error and the target's path as far as it is known, or with the
-- target, its content, the patched content and `changed`.
pub data Prepared : Type 0 where
  stopped : Bytes → Error → Prepared
  ready : Bytes → Bytes → Bytes → Bool → Prepared

-- `fmt.Errorf(text + " %s: %w", path, err)`
abbrev at_path : Bytes → Bytes → Error → Error
at_path text path e = wrap (text ++ (path ++ codes ": ")) e []

abbrev blank_plan : Bytes → Bytes → PlanReport
blank_plan template target = record {
  template_path = template;
  target_config_path = target;
  current_sha256 = [];
  patched_sha256 = [];
  current_bytes = 0;
  patched_bytes = 0;
  would_change = false;
  restart_required = false;
}

abbrev plan_texts : Texts
plan_texts = record {
  read_template = codes "failed to read template ";
  render_template = codes "failed to render template ";
  not_found = codes "suricata.yaml not found in candidates: ";
  read_current = codes "failed to read current config ";
  patch = codes "failed to patch config ";
}

abbrev reconcile_texts : Texts
reconcile_texts = record {
  read_template = codes "read template ";
  render_template = codes "render template ";
  not_found = codes "suricata.yaml not found: ";
  read_current = codes "read current config ";
  patch = codes "patch config ";
}

-- From the target on: the current file and its patch.
unfoldable pub prepare_target : Texts → Bytes → Bytes → M Prepared
prepare_target t rendered target w =
    let (c, w') = read_file target w in
    elim c [
      | err e ↦ (stopped target (at_path t.read_current target e), w')
      | ok current ↦ (
        elim (patch_config rendered current) [
          | err e ↦ stopped target (at_path t.patch target e)
          | ok (patched, changed) ↦ ready target current patched changed
        ],
        w',
      )
    ]

-- A report before anything is done.
abbrev pub not_done : PlanReport → ReconcileReport
not_done p = record {
  plan = p;
  applied = false;
  validated = false;
  restart_performed = false;
  restart_command = [];
  restart_output = [];
}

-- `strings.TrimSpace(s)`, and a default for the empty text.
abbrev pub trimmed_or : Bytes → Bytes → Bytes
trimmed_or s d = if is_empty (trim_space s) then d else trim_space s

-- The restart after the new file is in place.
unfoldable pub restart_after :
    ApplyConfigOptions → ReconcileReport → M (ReconcileReport × Option Error)
restart_after opts rep w =
    let systemctl = trimmed_or opts.systemctl_path (codes "/usr/bin/systemctl") in
    let unit = trimmed_or opts.suricata_service (codes "suricata") in
    let (r, w') = combined_output systemctl (codes "restart" ∷ unit ∷ []) w in
    let rep' = record rep {
      restart_command = systemctl ++ (codes " restart " ++ unit);
      restart_output = trim_space r.output;
    } in
    elim r.failure [
      | some e ↦ (
        (
          rep',
          some (
              report (codes "suricata restart failed: err=%v output=%q")
                (trim_space r.output ∷ [])),
        ),
        w',
      )
      | none ↦ ((record rep' { restart_performed = true }, none), w')
    ]

-- The write of the target, once `suricata -T` has accepted the temporary file.
unfoldable pub install :
    ApplyConfigOptions
    → ReconcileReport
    → Bytes
    → Bytes
    → Bytes
    → ℕ
    → M (ReconcileReport × Option Error)
install opts rep target tmp patched perm w =
    let (e, w1) = write_file_atomic target patched perm w in
    let w2 = (remove tmp w1).1 in
    elim e [
      | some x ↦ ((rep, some (at_path (codes "write config ") target x)), w2)
      | none ↦ restart_after opts (record rep { applied = true }) w2
    ]

-- `suricata -T` on the temporary file, and what follows.
unfoldable pub check_and_install :
    ApplyConfigOptions
    → ReconcileReport
    → Bytes
    → Bytes
    → Bytes
    → ℕ
    → M (ReconcileReport × Option Error)
check_and_install opts rep target tmp patched perm w =
    let bin = trimmed_or opts.suricata_bin_path (codes "suricata") in
    let (r, w1) = combined_output bin (codes "-T" ∷ codes "-c" ∷ tmp ∷ []) w in
    elim r.failure [
      | some e ↦ (
        (
          rep,
          some (
              report (codes "suricata -T failed; config NOT applied. err=%v output=%q")
                (trim_space r.output ∷ [])),
        ),
        (remove tmp w1).1,
      )
      | none ↦ install opts (record rep { validated = true }) target tmp patched perm w1
    ]

-- `filepath.Clean(target + ".integration.tmp")`, for a path that is clean.
abbrev pub integration_tmp : Bytes → Bytes
integration_tmp target = target ++ codes ".integration.tmp"

-- The steps after `if !changed`.
unfoldable pub reconcile_changed :
    ApplyConfigOptions → ReconcileReport → Bytes → Bytes → M (ReconcileReport × Option Error)
reconcile_changed opts rep target patched w =
    let (st, w1) = stat target w in
    let tmp = integration_tmp target in
    let (e, w2) = write_file_atomic tmp patched (perm_of st) w1 in
    elim e [
      | some x ↦ ((rep, some (at_path (codes "write tmp config ") tmp x)), w2)
      | none ↦ check_and_install opts rep target tmp patched (perm_of st) w2
    ]

-- The environment, what reading /proc/net/route gives, and `sha256Hex` of integration/hash.go, whose digest is crypto/sha256's.
module _ (env : Bytes → Option Bytes) (route : Result Bytes) (sha256_hex : Bytes → Bytes) where
  -- The first steps of both functions.
  unfoldable pub prepare : Texts → ApplyConfigOptions → M Prepared
  prepare t opts w =
      let (tpl, w1) = read_file opts.template_path w in
      elim tpl [
        | err e ↦ (stopped [] (at_path t.read_template opts.template_path e), w1)
        | ok raw ↦ elim (render_template_strict env route raw) [
          | err e ↦ (stopped [] (at_path t.render_template opts.template_path e), w1)
          | ok rendered ↦ elim (first_existing_path opts.config_candidates w1).0 [
            | err e ↦ (
              stopped [] (wrap t.not_found e []),
              (first_existing_path opts.config_candidates w1).1,
            )
            | ok target ↦
                prepare_target t rendered target (first_existing_path opts.config_candidates w1).1
          ]
        ]
      ]

  abbrev pub full_plan : Bytes → Bytes → Bytes → Bytes → Bool → PlanReport
  full_plan template target current patched changed = record {
    template_path = template;
    target_config_path = target;
    current_sha256 = sha256_hex current;
    patched_sha256 = sha256_hex patched;
    current_bytes = length current;
    patched_bytes = length patched;
    would_change = changed;
    restart_required = changed;
  }

  unfoldable pub plan_config : ApplyConfigOptions → M (PlanReport × Option Error)
  plan_config opts w =
      let (p, w') = prepare plan_texts opts w in
      elim p [
        | stopped target e ↦ ((blank_plan opts.template_path target, some e), w')
        | ready target current patched changed ↦
            ((full_plan opts.template_path target current patched changed, none), w')
      ]

  unfoldable pub reconcile_config : ApplyConfigOptions → M (ReconcileReport × Option Error)
  reconcile_config opts w =
      let (p, w') = prepare reconcile_texts opts w in
      elim p [
        | stopped target e ↦ ((not_done (blank_plan opts.template_path target), some e), w')
        | ready target current patched changed ↦
            let rep = not_done (full_plan opts.template_path target current patched changed) in
            if not changed then ((rep, none), w') else reconcile_changed opts rep target patched w'
      ]
