-- ===== src/Tests/Settings.antt =====
-- The configuration of the program, at a concrete file.
use integration_suricata_n_d.Base.{true, false, [], ◌∷◌, ◌≡◌, ◌↔◌, Bytes, codes, seconds}
use integration_suricata_n_d.Sys.{Result, ok}
use integration_suricata_n_d.Config.{Config, apply_defaults, load}
use integration_suricata_n_d.Config.Checks.{
  IsValid, IsComplete, apply_defaults-IsValid, load_iff, HasDefaults,
}

-- A file that sets what has no default.
abbrev pub written_config : Config
written_config = record {
  http = record { addr = []; host_agent_socket = []; host_agent_timeout = seconds 0 };
  paths = record {
    ndpi_rules_local = codes "/n/rules";
    ndpi_plugin_path = codes "/n/ndpi.so";
    suricata_template = codes "/n/t";
    suricatasc = codes "/s/c";
    suricata_bin = [];
  };
  ndpi = record { expected_rules_pattern = []; enabled = true };
  suricata = record {
    socket_candidates = codes "/r/s" ∷ [];
    config_candidates = codes "/e/s" ∷ [];
    start_timeout = seconds 0;
  };
  apply = record { overwrite_suricata_yaml = false; restart_if_yaml_changed = false };
  reload = record { timeout = seconds 0; command = [] };
  system = record { systemctl = []; suricata_service = [] };
}

abbrev pub unmarshal : Bytes → Result Config
unmarshal raw = ok written_config

apply_defaults-IsValid_example : IsValid (apply_defaults written_config) ↔ IsComplete written_config
apply_defaults-IsValid_example = apply_defaults-IsValid written_config

load_iff_example : (load unmarshal (codes "/c") (ok []) ≡ ok (apply_defaults written_config)) ↔ (
    (raw : Bytes) × (c : Config) × (ok [] ≡ ok raw)
    × (unmarshal raw ≡ ok c)
    × IsComplete c
    × HasDefaults c (apply_defaults written_config))
load_iff_example = load_iff unmarshal (codes "/c") (ok []) (apply_defaults written_config)
