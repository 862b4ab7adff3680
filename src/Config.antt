-- ===== src/Config.antt =====
-- internal/config: the records, `applyDefaults`, `validate` and `Load`; and integration/options.go.
pub mod Checks
use integration_suricata_n_d.Base.{
  Bool, true, false, ◌||◌, Option, none, some, List, [], ◌∷◌, ◌++◌, bytes_eq, if◌then◌else◌, Bytes,
  codes, ℤ, Duration, le_zero, is_zero, seconds,
}
use integration_suricata_n_d.Text.{trim_space, to_lower}
use integration_suricata_n_d.Sys.{Error, msg, wrap, Result, ok, err}

pub record HttpConfig : Type 0 where
  pub addr : Bytes
  pub host_agent_socket : Bytes
  pub host_agent_timeout : Duration

pub record PathsConfig : Type 0 where
  pub ndpi_rules_local : Bytes
  pub ndpi_plugin_path : Bytes
  pub suricata_template : Bytes
  pub suricatasc : Bytes
  pub suricata_bin : Bytes

pub record NdpiConfig : Type 0 where
  pub expected_rules_pattern : Bytes
  pub enabled : Bool

pub record SuricataConfig : Type 0 where
  pub socket_candidates : List Bytes
  pub config_candidates : List Bytes
  pub start_timeout : Duration

pub record ApplyConfig : Type 0 where
  pub overwrite_suricata_yaml : Bool
  pub restart_if_yaml_changed : Bool

pub record ReloadConfig : Type 0 where
  pub timeout : Duration
  pub command : Bytes

pub record SystemConfig : Type 0 where
  pub systemctl : Bytes
  pub suricata_service : Bytes

pub record Config : Type 0 where
  pub http : HttpConfig
  pub paths : PathsConfig
  pub ndpi : NdpiConfig
  pub suricata : SuricataConfig
  pub apply : ApplyConfig
  pub reload : ReloadConfig
  pub system : SystemConfig

abbrev pub is_empty : Bytes → Bool
is_empty [] = true
is_empty (c ∷ s) = false

abbrev pub no_items : List Bytes → Bool
no_items [] = true
no_items (x ∷ xs) = false

-- `if s == "" { s = d }`, and the same for a duration that is 0.
abbrev pub or_default : Bytes → Bytes → Bytes
or_default s d = if is_empty s then d else s

abbrev pub or_default_time : Duration → Duration → Duration
or_default_time t d = if is_zero t then d else t

unfoldable pub apply_defaults : Config → Config
apply_defaults c = record c {
  http = record {
    addr = or_default c.http.addr (codes ":8080");
    host_agent_socket = or_default c.http.host_agent_socket (codes "/run/ndpi-agent.sock");
    host_agent_timeout = or_default_time c.http.host_agent_timeout (seconds 10);
  };
  paths = record (c.paths) {
    suricata_bin = or_default c.paths.suricata_bin (codes "/usr/bin/suricata");
  };
  reload = record {
    timeout = or_default_time c.reload.timeout (seconds 5);
    command = or_default c.reload.command (codes "reconfigure");
  };
  suricata = record (c.suricata) {
    start_timeout = or_default_time c.suricata.start_timeout (seconds 30);
  };
  system = record {
    systemctl = or_default c.system.systemctl (codes "/usr/bin/systemctl");
    suricata_service = or_default c.system.suricata_service (codes "suricata");
  };
}

-- `strings.TrimSpace(strings.ToLower(command))`
unfoldable pub normalized_command : Bytes → Bytes
normalized_command command = trim_space (to_lower command)

abbrev pub is_shutdown : Bytes → Bool
is_shutdown command = bytes_eq (normalized_command command) (codes "shutdown")

-- The first check that fails.
unfoldable pub validate : Config → Option Error
validate c =
    if is_empty c.paths.ndpi_rules_local
    then some (msg (codes "config: paths.ndpi_rules_local is required"))
    else if is_empty c.paths.suricata_template
    then some (msg (codes "config: paths.suricata_template is required"))
    else if is_empty c.paths.suricatasc
    then some (msg (codes "config: paths.suricatasc is required"))
    else if is_empty c.paths.suricata_bin
    then some (msg (codes "config: paths.suricata_bin is required"))
    else if no_items c.suricata.socket_candidates
    then some (msg (codes "config: suricata.socket_candidates is required"))
    else if no_items c.suricata.config_candidates
    then some (msg (codes "config: suricata.config_candidates is required"))
    else if le_zero c.reload.timeout
    then some (msg (codes "config: reload.timeout must be > 0"))
    else if is_shutdown c.reload.command
    then some (msg (codes "config: reload.command=shutdown is forbidden"))
    else if le_zero c.suricata.start_timeout
    then some (msg (codes "config: suricata.start_timeout must be > 0"))
    else none

-- `Load`, given what reading the file gives and what the YAML package makes of the bytes.
unfoldable pub load : (Bytes → Result Config) → Bytes → Result Bytes → Result Config
load unmarshal path (err e) =
    err (wrap (codes "couldn't read the config " ++ (path ++ codes ": ")) e [])
load unmarshal path (ok raw) = elim (unmarshal raw) [
  | err e ↦ err (wrap (codes "couldn't parse yaml " ++ (path ++ codes ": ")) e [])
  | ok c ↦ let c' = apply_defaults c in elim (validate c') [ some e ↦ err e | none ↦ ok c' ]
]
