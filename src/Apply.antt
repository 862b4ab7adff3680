-- ===== src/Apply.antt =====
-- `ApplyConfigWithContext` of integration/apply_config.go: the reload through suricatasc.
pub mod Commands
use integration_suricata_n_d.Base.{
  Bool, true, false, ◌||◌, Option, none, some, List, [], ◌∷◌, ◌++◌, if◌then◌else◌, Bytes, codes,
  Duration, le_zero, seconds, bytes_eq,
}
use integration_suricata_n_d.Text.{trim_space}
use integration_suricata_n_d.Config.{is_empty, normalized_command, is_shutdown}
use integration_suricata_n_d.Options.{ApplyConfigOptions}
use integration_suricata_n_d.Sys.{
  deadline_exceeded, Error, msg, report, is_kind, RunResult, M, combined_output,
}

-- `unset` is the empty status that a report starts with.
pub data ReloadStatus : Type 0 where
  unset reload_ok reload_timed_out reload_failed : ReloadStatus

-- A warning: its format, and the texts among its arguments.
pub record Warning : Type 0 where
  pub format : Bytes
  pub args : List Bytes

-- `TargetConfigPath` is never set.
pub record ApplyConfigReport : Type 0 where
  pub reload_command : Bytes
  pub reload_timeout : Duration
  pub reload_status : ReloadStatus
  pub reload_output : Bytes
  pub warnings : List Warning

-- `cmdNormalized == "" || cmdNormalized == "none"`
abbrev pub is_none_command : Bytes → Bool
is_none_command command =
    is_empty (normalized_command command) || bytes_eq (normalized_command command) (codes "none")

abbrev pub effective_timeout : Duration → Duration
effective_timeout t = if le_zero t then seconds 10 else t

-- The report for a command that ended with `r`, from the report with its output.
unfoldable pub reload_outcome : ApplyConfigReport → RunResult → ApplyConfigReport × Option Error
reload_outcome rep r =
    let failed : ApplyConfigReport = record rep {
      reload_status = reload_failed;
      warnings =
          record {
            format = codes "suricatasc error: command=%q err=%v output=%q";
            args = rep.reload_command ∷ rep.reload_output ∷ [];
          }
          ∷ [];
    } in
    let timed_out : ApplyConfigReport = record rep {
      reload_status = reload_timed_out;
      warnings =
          record {
            format = codes "suricatasc timeout: command=%q timeout=%s";
            args = rep.reload_command ∷ [];
          }
          ∷ [];
    } in
    elim r.context [
      | some c ↦
          if is_kind deadline_exceeded c
          then (timed_out, none)
          else elim r.failure [ none ↦ (rep, some c) | some e ↦ (failed, none) ]
      | none ↦ elim r.failure [
        | none ↦ (record rep { reload_status = reload_ok }, none)
        | some e ↦ (failed, none)
      ]
    ]

unfoldable pub apply_config : ApplyConfigOptions → M (ApplyConfigReport × Option Error)
apply_config opts w =
    let start : ApplyConfigReport = record {
      reload_command = opts.reload_command;
      reload_timeout = opts.reload_timeout;
      reload_status = unset;
      reload_output = [];
      warnings = [];
    } in
    if is_shutdown opts.reload_command
    then ((start, some (msg (codes "reload_command=shutdown is forbidden"))), w)
    else if is_none_command opts.reload_command
    then (
      (
        record start {
          reload_status = reload_ok;
          warnings =
              record { format = codes "reload_command empty/none: reload skipped"; args = [] } ∷ [];
        },
        none,
      ),
      w,
    )
    else (let (r, w') =
          combined_output opts.suricata_sc_path (codes "-c" ∷ opts.reload_command ∷ []) w in
        (
          reload_outcome
              (record start {
                reload_timeout = effective_timeout opts.reload_timeout;
                reload_output = trim_space r.output;
              })
              r,
          w',
        ))
