-- ===== src/Options.antt =====
-- The options of integration/types.go and how integration/options.go fills them. `CommandRunner`, `FS`,
-- `Dialer` and `Systemd` are the machine of the model.
use integration_suricata_n_d.Base.{List, Bytes, Duration}
use integration_suricata_n_d.Config.{Config}

pub record ApplyConfigOptions : Type 0 where
  pub template_path : Bytes
  pub config_candidates : List Bytes
  pub socket_candidates : List Bytes
  pub suricata_sc_path : Bytes
  pub suricata_bin_path : Bytes
  pub systemctl_path : Bytes
  pub suricata_service : Bytes
  pub reload_command : Bytes
  pub reload_timeout : Duration

pub record NdpiValidateOptions : Type 0 where
  pub ndpi_plugin_path : Bytes
  pub ndpi_rules_dir : Bytes
  pub suricata_template_path : Bytes
  pub suricata_sc_path : Bytes
  pub reload_command : Bytes
  pub reload_timeout : Duration
  pub expected_rules_pattern : Bytes

pub record SuricataStartOptions : Type 0 where
  pub socket_candidates : List Bytes
  pub systemctl_path : Bytes
  pub systemd_unit : Bytes
  pub start_timeout : Duration

pub record RunnerOptions : Type 0 where
  pub apply : ApplyConfigOptions
  pub ndpi_validate : NdpiValidateOptions
  pub suricata_start : SuricataStartOptions

unfoldable pub build_runner_options : Config → RunnerOptions
build_runner_options c = record {
  apply = record {
    template_path = c.paths.suricata_template;
    config_candidates = c.suricata.config_candidates;
    socket_candidates = c.suricata.socket_candidates;
    suricata_sc_path = c.paths.suricatasc;
    suricata_bin_path = c.paths.suricata_bin;
    systemctl_path = c.system.systemctl;
    suricata_service = c.system.suricata_service;
    reload_command = c.reload.command;
    reload_timeout = c.reload.timeout;
  };
  ndpi_validate = record {
    ndpi_plugin_path = c.paths.ndpi_plugin_path;
    ndpi_rules_dir = c.paths.ndpi_rules_local;
    suricata_template_path = c.paths.suricata_template;
    suricata_sc_path = c.paths.suricatasc;
    reload_command = c.reload.command;
    reload_timeout = c.reload.timeout;
    expected_rules_pattern = c.ndpi.expected_rules_pattern;
  };
  suricata_start = record {
    socket_candidates = c.suricata.socket_candidates;
    systemctl_path = c.system.systemctl;
    systemd_unit = c.system.suricata_service;
    start_timeout = c.suricata.start_timeout;
  };
}
