-- ===== src/Tests/Machine.antt =====
-- Writing, reconciling, reloading and answering, on a concrete machine.
use integration_suricata_n_d.Base.{
  ℕ, ◌≤◌, true, Option, none, some, [], ◌∷◌, ◌++◌, ◌≡◌, ◌≢◌, ◌⊎◌, ◌↔◌, refl, Bytes, codes, bytes_eq,
  if◌then◌else◌, seconds, sym, ap, ◌∙◌,
}
use integration_suricata_n_d.Options.{ApplyConfigOptions}
use integration_suricata_n_d.Sys.{
  Result, ok, World, Node, RunResult, run, regular, socket, outer, other, combined_output,
  read_file, call, stat,
}
use integration_suricata_n_d.Atomic.{write_file_atomic}
use integration_suricata_n_d.Atomic.Frame.{AllOrNothing, written, write_file_atomic-AllOrNothing}
use integration_suricata_n_d.Toggle.{set_ndpi_enabled}
use integration_suricata_n_d.Toggle.Disk.{SetEnds, Keeps, set_ndpi_enabled_ends}
use integration_suricata_n_d.Reconcile.{
  plan_config, reconcile_config, PlanReport, prepare, prepare_target,
}
use integration_suricata_n_d.Reconcile.Preview.{Rendered, plan_config-reconcile_config}
use integration_suricata_n_d.Reconcile.Safety.{Outcome, KeepsOthers, reconcile_config_safe}
use integration_suricata_n_d.Template.{render_template_strict, vars_of, pieces_from, match_var}
use integration_suricata_n_d.Patch.{
  patch_config, patch_lines, find_block, block_body, find_ndpi_plugin_line, split_lines,
  ensure_block_exact, ensure_plugins_ndpi, ensure_found, ensure_in_block, scan_plugins,
}
use integration_suricata_n_d.Line.{normalize_key, indent_width, is_commented}
use integration_suricata_n_d.Text.{
  split, replace_crlf, trim_space, trim_by, is_ascii_space, space_width, space_width_back,
  has_prefix, trim_prefix, contains, trim_left_blank,
}
use integration_suricata_n_d.Apply.{apply_config, reload_ok}
use integration_suricata_n_d.Apply.Commands.{IsCommand, Skips, Ended, apply_config_commands}
use integration_suricata_n_d.Service.{first_path_of, ensure_suricata_running, connect_suricata}
use integration_suricata_n_d.Service.Reach.{Reached, connect_suricata-ensure_suricata_running}
use integration_suricata_n_d.Agent.{
  Deps, post, is_post, ndpi_toggle_handler, restart_unit, reload_attempts,
}
use integration_suricata_n_d.Agent.Replies.{
  attempts_log, reload_attempts_runs, changed_by, Works, ndpi_toggle_handler_answers,
}

abbrev pub config_path : Bytes
config_path = codes "/e/s"

abbrev pub template_path : Bytes
template_path = codes "/t"

abbrev pub socket_path : Bytes
socket_path = codes "/r/s"

abbrev file : Bytes → Node
file content = record { content = content; mode = 0o600; kind = regular }

abbrev pub old_config : Node
old_config = file (b'p' ∷ codes "lugins:")

-- The configuration, a template and the socket.
abbrev disk : Bytes → Option Node
disk p =
    if bytes_eq p config_path
    then some old_config
    else if bytes_eq p template_path
    then some (file (codes "plugins:" ++ (b'\n' ∷ codes "  - ndpi.so")))
    else if bytes_eq p socket_path
    then some (record { content = []; mode = 0o600; kind = socket })
    else none

abbrev pub fine : RunResult
fine = record { output = codes "OK"; failure = none; context = none }

abbrev pub failed : RunResult
failed = record {
  output = codes "busy";
  failure = some (outer other (codes "exit status 1"));
  context = none;
}

-- No system call fails.
abbrev pub machine : World
machine = record {
  files = disk;
  faults = [];
  temps = codes "1" ∷ codes "2" ∷ [];
  results = fine ∷ fine ∷ [];
  dials = [];
  log = [];
}

-- The third system call fails, as a write does on a disk that is full.
abbrev full_machine : World
full_machine = record machine {
  faults = none ∷ some (record { error = outer other (codes "no space"); done = 3 }) ∷ [];
}

abbrev pub options : ApplyConfigOptions
options = record {
  template_path = template_path;
  config_candidates = codes "/none" ∷ config_path ∷ [];
  socket_candidates = socket_path ∷ [];
  suricata_sc_path = codes "/s/c";
  suricata_bin_path = [];
  systemctl_path = [];
  suricata_service = [];
  reload_command = codes "reload-rules";
  reload_timeout = seconds 5;
}

abbrev pub deps : Deps
deps = record {
  socket_path = codes "/r/a";
  suricata_cfg_path = config_path;
  ndpi_plugin_path = codes "/p/ndpi.so";
  suricata_unit = codes "suricata";
  suricata_socket_candidates = socket_path ∷ [];
  suricata_connect_timeout = seconds 1;
  suricata_sc_path = codes "/s/c";
  reload_command = [];
  reload_timeout = seconds 5;
  restart_timeout = seconds 20;
  systemctl_path = [];
}

pub config_held : machine.files config_path ≡ some old_config
unfolding bytes_eq
config_held = refl

config_held_full : full_machine.files config_path ≡ some old_config
unfolding bytes_eq
config_held_full = refl

write_file_atomic-AllOrNothing_example :
    AllOrNothing config_path
      (written (codes "new") 0o644)
      full_machine
      old_config
      (write_file_atomic config_path (codes "new") 0o644 full_machine)
write_file_atomic-AllOrNothing_example =
    write_file_atomic-AllOrNothing config_path (codes "new") 0o644 full_machine old_config
      config_held_full

set_ndpi_enabled_ends_example :
    SetEnds config_path
      (codes "/p/ndpi.so")
      true
      machine
      old_config
      (set_ndpi_enabled config_path (codes "/p/ndpi.so") true machine)
    × Keeps config_path machine (set_ndpi_enabled config_path (codes "/p/ndpi.so") true machine).1
set_ndpi_enabled_ends_example =
    set_ndpi_enabled_ends config_path (codes "/p/ndpi.so") true machine old_config config_held

abbrev pub environment : Bytes → Option Bytes
environment v = none

abbrev pub route : Result Bytes
route = ok []

abbrev pub digest : Bytes → Bytes
digest s = codes "0"

plan_config-reconcile_config_example :
    ((plan_config environment route digest options machine).0.0
      ≡ (reconcile_config environment route digest options machine).0.0.plan)
    × ((plan_config environment route digest options machine).1.files ≡ machine.files)
plan_config-reconcile_config_example =
    plan_config-reconcile_config environment route digest options machine

target_planned :
    (plan_config environment route digest options machine).0.0.target_config_path ≡ config_path
unfolding plan_config prepare read_file call bytes_eq render_template_strict vars_of pieces_from
    match_var first_path_of stat prepare_target patch_config patch_lines find_block block_body
    find_ndpi_plugin_line split_lines split replace_crlf normalize_key indent_width trim_space
    trim_by is_ascii_space space_width space_width_back has_prefix trim_prefix contains
    ensure_block_exact ensure_plugins_ndpi ensure_found ensure_in_block scan_plugins is_commented
    trim_left_blank
target_planned = refl

pub target_reported :
    (reconcile_config environment route digest options machine).0.0.target_config_path ≡ config_path
target_reported =
    sym (
      ap (λ (p : PlanReport). p.target_config_path)
        (plan_config-reconcile_config environment route digest options machine).0)
    ∙ target_planned

reconcile_config_safe_example :
    Outcome
      (Rendered environment route options.template_path machine)
      config_path
      old_config
      (reconcile_config environment route digest options machine)
    × KeepsOthers config_path machine (reconcile_config environment route digest options machine).1
reconcile_config_safe_example =
    reconcile_config_safe environment route digest options machine config_path old_config
      target_reported config_held

apply_config_commands_example :
    let command = options.reload_command in
    let ran = combined_output (codes "/s/c") (codes "-c" ∷ command ∷ []) machine in
    let refused = IsCommand (codes "shutdown") command in
    (((refused ⊎ Skips command) × ((apply_config options machine).1 ≡ machine))
      ⊎ (((refused → ⊥) × (Skips command → ⊥)) × ((apply_config options machine).1 ≡ ran.1)))
    × (((apply_config options machine).0.0.reload_status ≡ reload_ok)
        ↔ ((refused → ⊥) × (Skips command ⊎ ((ran.0.failure ≡ none) × (ran.0.context ≡ none)))))
    × (((apply_config options machine).0.1 ≢ none)
        ↔ (refused ⊎ ((Skips command → ⊥) × ((ran.0.failure ≡ none) × Ended ran.0.context))))
apply_config_commands_example = apply_config_commands options machine

connect_suricata-ensure_suricata_running_example :
    (((ensure_suricata_running (config_path ∷ socket_path ∷ []) machine).0 ≡ none)
      ↔ ((p : Bytes) × Reached machine (config_path ∷ socket_path ∷ []) p))
    × ((p : Bytes)
        → ((connect_suricata (config_path ∷ socket_path ∷ []) machine).0 ≡ ok p)
          ↔ Reached machine (config_path ∷ socket_path ∷ []) p)
    × ((connect_suricata (config_path ∷ socket_path ∷ []) machine).1
        ≡ (ensure_suricata_running (config_path ∷ socket_path ∷ []) machine).1)
connect_suricata-ensure_suricata_running_example =
    connect_suricata-ensure_suricata_running (config_path ∷ socket_path ∷ []) machine refl

abbrev busy : World
busy = record machine { results = failed ∷ failed ∷ fine ∷ [] }

abbrev rounds : ℕ
rounds = 5

reload_attempts_runs_example :
    (k : ℕ) × (k ≤ rounds)
    × ((rounds ≡ 0) ⊎ (1 ≤ k))
    × ((reload_attempts rounds (codes "/s/c") (codes "reload-rules") socket_path [] busy).1.log
        ≡ busy.log
          ++ attempts_log k
              (run (codes "/s/c") (codes "-c" ∷ codes "reload-rules" ∷ socket_path ∷ [])))
    × ((reload_attempts rounds (codes "/s/c") (codes "reload-rules") socket_path [] busy).1.files
        ≡ busy.files)
    × (((reload_attempts rounds (codes "/s/c") (codes "reload-rules") socket_path [] busy).0.0
          ≡ true)
        ⊎ (k ≡ rounds))
reload_attempts_runs_example =
    reload_attempts_runs (codes "/s/c") (codes "reload-rules") socket_path rounds [] busy

ndpi_toggle_handler_answers_example :
    let set = set_ndpi_enabled config_path (codes "/p/ndpi.so") true machine in
    let answer = ndpi_toggle_handler true deps post machine in
    ((answer.0.status ≡ 200) ↔ ((is_post post ≡ true) × Works set.0 ((restart_unit deps set.1).0)))
    × (answer.1 ≡ (
        if is_post post
        then (if changed_by set.0 then (restart_unit deps set.1).1 else set.1)
        else machine))
ndpi_toggle_handler_answers_example = ndpi_toggle_handler_answers true deps post machine
