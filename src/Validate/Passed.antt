-- ===== src/Validate/Passed.antt =====
-- What it means that a check before a start has passed.
use integration_suricata_n_d.Base.{
  true, false, Option, none, some, Option-cases, [], ◌≡◌, ◌↔◌, refl, ap, subst, arith, Bytes, codes,
  Bool-cases, inl, inr, le_zero,
}
use integration_suricata_n_d.Config.{is_shutdown}
use integration_suricata_n_d.Options.{NdpiValidateOptions}
use integration_suricata_n_d.Sys.{Error, Result, World, Node, is_dir, join_path}
use integration_suricata_n_d.Service.Reach.{stat_fine}
use integration_suricata_n_d.Validate.{
  must_be_file, must_be_dir, template_error, check_reload, check_text, check_template,
  validate_local_resources, validate_ndpi_config,
}
use integration_suricata_n_d.Validate.Steps.{
  Mentions, holds_dir, holds_file, must_be_dir_lem, must_be_file_lem, read_file_fine,
  template_error_lem,
}

-- What the checks of `ValidateNDPIConfig` ask for.
pub record Ready (o : NdpiValidateOptions) (w : World) : Type 0 where
  pub plugin_there : holds_file w o.ndpi_plugin_path ≡ true
  pub rules_there : holds_dir w o.ndpi_rules_dir ≡ true
  pub template : Node
  pub template_there : w.files o.suricata_template_path ≡ some template
  pub template_is_file : is_dir template.kind ≡ false
  pub template_mentions : Mentions o.ndpi_plugin_path template.content
  pub suricatasc_there : holds_file w o.suricata_sc_path ≡ true
  pub no_shutdown : is_shutdown o.reload_command ≡ false
  pub time_left : le_zero o.reload_timeout ≡ false

check_reload_lem :
    (o : NdpiValidateOptions) (w : World)
    → w.faults ≡ []
    → (((check_reload o w).0 ≡ none) ↔ (
        (holds_file w o.suricata_sc_path ≡ true)
        × (is_shutdown o.reload_command ≡ false)
        × (le_zero o.reload_timeout ≡ false)))
      × ((check_reload o w).1 ≡ w)
unfolding check_reload
check_reload_lem o w h =
    let (there, same) = must_be_file_lem o.suricata_sc_path (codes "suricatasc") w h in
    (ground (arith, there), same)

not_mentioned :
    (plugin text : Bytes) (x : Error)
    → template_error plugin text ≡ some x
    → Mentions plugin text
    → ⊥
not_mentioned plugin text x t m = ground (arith, t, (template_error_lem plugin text).1 m)

Mentions-same :
    (plugin : Bytes) (n m : Node)
    → some n ≡ some m
    → Mentions plugin m.content
    → Mentions plugin n.content
Mentions-same plugin n m e h =
    let same : m ≡ n = ground (arith, e) in subst (λ (k : Node). Mentions plugin k.content) same h

check_text_lem :
    (o : NdpiValidateOptions) (w : World)
    → w.faults ≡ []
    → (((check_text o w).0 ≡ none) ↔ (
        (n : Node) × (w.files o.suricata_template_path ≡ some n)
        × (is_dir n.kind ≡ false)
        × Mentions o.ndpi_plugin_path n.content
        × ((check_reload o w).0 ≡ none)))
      × ((check_text o w).1 ≡ w)
unfolding check_text
check_text_lem o w h =
    let answer =
      ap (λ (r : Result Bytes × World). r.0) (read_file_fine o.suricata_template_path w h) in
    let same =
      ap (λ (r : Result Bytes × World). r.1) (read_file_fine o.suricata_template_path w h) in
    elim (Option-cases (w.files o.suricata_template_path)) [
      | inl e ↦ rw (answer, check_text) (rw (e, check_text) (ground (arith), same))
      | inr (n, e) ↦ elim (Bool-cases (is_dir n.kind)) [
        | inl k ↦
            rw (answer, check_text)
              (rw (e, check_text)
                (rw (k, check_text)
                  (
                    (λ z. absurd (ground (arith, z)), λ z. absurd (ground (arith, z.1, z.2, k))),
                    same,
                  )))
        | inr k ↦ elim (Option-cases (template_error o.ndpi_plugin_path n.content)) [
          | inl t ↦
              let there = (template_error_lem o.ndpi_plugin_path n.content).0 t in
              rw (answer, check_text)
                (rw (e, check_text)
                  (rw (k, check_text)
                    (rw (t, check_text)
                      (rw (same, check_text)
                        ((λ z. (n, refl, k, there, z), λ z. z.4), (check_reload_lem o w h).1)))))
          | inr (x, t) ↦
              rw (answer, check_text)
                (rw (e, check_text)
                  (rw (k, check_text)
                    (rw (t, check_text)
                      (
                        (
                          λ z. absurd (ground (arith, z)),
                          λ z. absurd (
                              not_mentioned o.ndpi_plugin_path n.content x t
                                (Mentions-same o.ndpi_plugin_path n z.0 z.1 z.3)),
                        ),
                        same,
                      ))))
        ]
      ]
    ]

-- Where no system call fails, `ValidateNDPIConfig` gives no error just where what it asks for is there; and it leaves the
-- machine as it is.
pub validate_ndpi_config-Ready :
    (o : NdpiValidateOptions) (w : World)
    → w.faults ≡ []
    → (((validate_ndpi_config o w).0 ≡ none) ↔ Ready o w) × ((validate_ndpi_config o w).1 ≡ w)
unfolding validate_ndpi_config
validate_ndpi_config-Ready o w h =
    let (plugin, same) = must_be_file_lem o.ndpi_plugin_path (codes "nDPI plugin (ndpi.so)") w h in
    let (rules, same') = must_be_dir_lem o.ndpi_rules_dir (codes "nDPI rules directory") w h in
    let (text, kept) = check_text_lem o w h in
    let (reload, _) = check_reload_lem o w h in
    elim (Option-cases (must_be_file o.ndpi_plugin_path (codes "nDPI plugin (ndpi.so)") w).0) [
      | inr (x, e) ↦
          rw (e, validate_ndpi_config)
            (
              (
                λ z. absurd (ground (arith, z)),
                λ z. absurd (ground (arith, e, plugin.1 z.plugin_there)),
              ),
              same,
            )
      | inl e ↦
          rw (e, validate_ndpi_config)
            (rw (same, validate_ndpi_config)
              (elim (Option-cases
                (must_be_dir o.ndpi_rules_dir (codes "nDPI rules directory") w).0) [
                  | inr (x, f) ↦
                      rw (f, validate_ndpi_config)
                        (
                          (
                            λ z. absurd (ground (arith, z)),
                            λ z. absurd (ground (arith, f, rules.1 z.rules_there)),
                          ),
                          rw same same',
                        )
                  | inl f ↦
                      rw (f, validate_ndpi_config)
                        (rw same (
                          rw same' (
                            (
                              λ z.
                                  let (n, there, is_file, mentions, checked) = text.0 z in
                                  let (sc, allowed, time) = reload.0 checked in
                                  record {
                                    plugin_there = plugin.0 e;
                                    rules_there = rules.0 f;
                                    template = n;
                                    template_there = there;
                                    template_is_file = is_file;
                                    template_mentions = mentions;
                                    suricatasc_there = sc;
                                    no_shutdown = allowed;
                                    time_left = time;
                                  },
                              λ z. text.1 (
                                z.template,
                                z.template_there,
                                z.template_is_file,
                                z.template_mentions,
                                reload.1 (z.suricatasc_there, z.no_shutdown, z.time_left),
                              ),
                            ),
                            kept,
                          )))
                ]))
    ]

pub check_template_lem :
    (path : Bytes) (w : World)
    → w.faults ≡ []
    → (((check_template path w).0 ≡ none) ↔ (holds_file w path ≡ true))
      × ((check_template path w).1 ≡ w)
unfolding check_template
check_template_lem path w h =
    let answer = ap (λ (r : Result Node × World). r.0) (stat_fine path w h) in
    let same = ap (λ (r : Result Node × World). r.1) (stat_fine path w h) in
    (rw (answer, check_template) (ground arith), same)

-- Where no system call fails, `ValidateLocalResources` gives no error just where the rules' path is a directory that can be
-- listed and the template's is there and is none.
pub validate_local_resources_iff :
    (glob_error : Bytes → Option Error) (rules template : Bytes) (w : World)
    → w.faults ≡ []
    → ((validate_local_resources glob_error rules template w).0 ≡ none) ↔ (
        (holds_dir w rules ≡ true)
        × (glob_error (join_path rules (codes "*")) ≡ none)
        × (holds_file w template ≡ true))
unfolding validate_local_resources
validate_local_resources_iff glob_error rules template w h =
    let answer = ap (λ (r : Result Node × World). r.0) (stat_fine rules w h) in
    let same = ap (λ (r : Result Node × World). r.1) (stat_fine rules w h) in
    let (last, kept) = check_template_lem template w h in
    elim (Option-cases (w.files rules)) [
      | inl e ↦
          rw (answer, validate_local_resources) (rw (e, validate_local_resources) (ground arith))
      | inr (n, e) ↦ elim (Bool-cases (is_dir n.kind)) [
        | inr k ↦
            rw (answer, validate_local_resources)
              (rw (e, validate_local_resources) (rw (k, validate_local_resources) (ground arith)))
        | inl k ↦ elim (Option-cases (glob_error (join_path rules (codes "*")))) [
          | inr (x, g) ↦
              rw (answer, validate_local_resources)
                (rw (e, validate_local_resources)
                  (rw (k, validate_local_resources)
                    (rw (g, validate_local_resources) (ground (arith, g)))))
          | inl g ↦
              rw (answer, validate_local_resources)
                (rw (e, validate_local_resources)
                  (rw (k, validate_local_resources)
                    (rw (g, validate_local_resources)
                      (rw (same, validate_local_resources) (ground (arith, last, g))))))
        ]
      ]
    ]
