-- ===== src/Runner/Checked.antt =====
-- What `Start` checks before it serves: `integration/runner.go`.
use integration_suricata_n_d.Base.{
  ℕ, true, Option, none, [], ◌≡◌, ◌↔◌, refl, ap, arith, Bytes, codes,
}
use integration_suricata_n_d.Config.{Config}
use integration_suricata_n_d.Options.{build_runner_options}
use integration_suricata_n_d.Sys.{Error, Result, M, World, Node, join_path}
use integration_suricata_n_d.Atomic.{then_return}
use integration_suricata_n_d.Service.Reach.{stat_fine}
use integration_suricata_n_d.Validate.{validate_local_resources, validate_ndpi_config}
use integration_suricata_n_d.Validate.Passed.{
  Ready, check_template_lem, validate_local_resources_iff, validate_ndpi_config-Ready,
}
use integration_suricata_n_d.Validate.Steps.{holds_file, holds_dir}
use integration_suricata_n_d.Runner.{
  explained, reach_suricata, step_resources, step_ndpi, step_suricata, check_context, start_checks,
}

then_return-none :
    (m rest : M (Option Error)) (w : World)
    → ((then_return m rest w).0 ≡ none) ↔ (((m w).0 ≡ none) × ((rest (m w).1).0 ≡ none))
then_return-none m rest w = ground arith

-- A step that leaves the machine as it is.
then_return_same :
    (m rest : M (Option Error)) (w : World)
    → (m w).1 ≡ w
    → ((then_return m rest w).0 ≡ none) ↔ (((m w).0 ≡ none) × ((rest w).0 ≡ none))
then_return_same m rest w same = ground (arith, same)

validate_local_resources_same :
    (glob_error : Bytes → Option Error) (rules template : Bytes) (w : World)
    → w.faults ≡ []
    → (validate_local_resources glob_error rules template w).1 ≡ w
unfolding validate_local_resources
validate_local_resources_same glob_error rules template w h =
    let same = ap (λ (r : Result Node × World). r.1) (stat_fine rules w h) in
    let kept = (check_template_lem template w h).1 in ground (arith, same, kept)

-- What `Start` asks for before it serves: the resources, the context at its four checks, and a connection to Suricata.
pub record Checked (context : ℕ → Option Error) (glob_error : Bytes → Option Error) (c : Config)
    (w : World) : Type 0 where
  pub not_done0 : context 0 ≡ none
  pub rules_there : holds_dir w c.paths.ndpi_rules_local ≡ true
  pub rules_listed : glob_error (join_path c.paths.ndpi_rules_local (codes "*")) ≡ none
  pub template_there : holds_file w c.paths.suricata_template ≡ true
  pub not_done1 : context 1 ≡ none
  pub ndpi_ready : Ready (build_runner_options c).ndpi_validate w
  pub not_done2 : context 2 ≡ none
  pub connected : (reach_suricata (build_runner_options c) w).0 ≡ none
  pub not_done3 : context 3 ≡ none

explained-none :
    (text : Bytes) (m : M (Option Error)) (w : World)
    → (((explained text m w).0 ≡ none) ↔ ((m w).0 ≡ none)) × ((explained text m w).1 ≡ (m w).1)
explained-none text m w = ground arith

module _ (context : ℕ → Option Error) (glob_error : Bytes → Option Error) where
  pub start_checks-Checked :
      (c : Config) (w : World)
      → w.faults ≡ []
      → ((start_checks context glob_error c w).0 ≡ none) ↔ Checked context glob_error c w
  unfolding start_checks
  start_checks-Checked c w h =
      let local =
        validate_local_resources_iff glob_error c.paths.ndpi_rules_local c.paths.suricata_template w
          h in
      let local_same =
        validate_local_resources_same glob_error c.paths.ndpi_rules_local c.paths.suricata_template
          w h in
      let (ndpi, ndpi_same) =
        validate_ndpi_config-Ready (build_runner_options c).ndpi_validate w h in
      let last = check_context (context 3) in
      let at3 = then_return (step_suricata c) last in
      let at2 = then_return (check_context (context 2)) at3 in
      let from_ndpi = then_return (step_ndpi c) at2 in
      let at1 = then_return (check_context (context 1)) from_ndpi in
      let from_resources = then_return (step_resources glob_error c) at1 in
      let a = then_return_same (check_context (context 0)) from_resources w refl in
      let b = then_return_same (step_resources glob_error c) at1 w local_same in
      let d = then_return_same (check_context (context 1)) from_ndpi w refl in
      let f = then_return_same (step_ndpi c) at2 w ndpi_same in
      let g = then_return_same (check_context (context 2)) at3 w refl in
      let k = then_return-none (step_suricata c) last w in
      let e0 =
        (explained-none (codes "step 1 (validate local resources) failed: ")
          (validate_local_resources glob_error c.paths.ndpi_rules_local c.paths.suricata_template)
          w).0 in
      let e1 =
        (explained-none (codes "step 2 (validate ndpi config) failed: ")
          (validate_ndpi_config (build_runner_options c).ndpi_validate) w).0 in
      let e2 =
        (explained-none (codes "step 3 (ensure suricata running) failed: ")
          (reach_suricata (build_runner_options c)) w).0 in
      (
        λ z.
            let (n0, z0) = a.0 z in
            let (r, z1) = b.0 z0 in
            let (n1, z2) = d.0 z1 in
            let (v, z3) = f.0 z2 in
            let (n2, z4) = g.0 z3 in
            let (s, n3) = k.0 z4 in
            let (there, listed, template) = local.0 (e0.0 r) in
            record {
              not_done0 = n0;
              rules_there = there;
              rules_listed = listed;
              template_there = template;
              not_done1 = n1;
              ndpi_ready = ndpi.0 (e1.0 v);
              not_done2 = n2;
              connected = e2.0 s;
              not_done3 = n3;
            },
        λ y. a.1 (
          y.not_done0,
          b.1 (
            e0.1 (local.1 (y.rules_there, y.rules_listed, y.template_there)),
            d.1 (
              y.not_done1,
              f.1 (
                e1.1 (ndpi.1 y.ndpi_ready),
                g.1 (y.not_done2, k.1 (e2.1 y.connected, y.not_done3)),
              ),
            ),
          ),
        ),
      )
