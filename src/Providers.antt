-- ===== src/Providers.antt =====
-- internal/wire/providers.go and the flags of internal/cli: what the two programs are made of.
pub mod Chosen
use integration_suricata_n_d.Base.{
  Bool, true, false, Option, none, some, List, [], ◌∷◌, if◌then◌else◌, Bytes, codes, Duration,
  seconds, millis,
}
use integration_suricata_n_d.Text.{trim_space}
use integration_suricata_n_d.Config.{Config, is_empty, load, or_default}
use integration_suricata_n_d.Sys.{Result, ok, err, M, read_file}
use integration_suricata_n_d.Service.{first_existing_path}
use integration_suricata_n_d.Agent.{Deps}
use integration_suricata_n_d.Runner.{Runner, new_runner}
use integration_suricata_n_d.Serve.{Server, Outside, new_server}

pub record HostAgentOptions : Type 0 where
  pub config_path : Bytes
  pub socket_path : Bytes
  pub suricata_config : Bytes
  pub ndpi_plugin_path : Bytes
  pub systemd_unit : Bytes
  pub systemctl_path : Bytes
  pub restart_timeout : Duration
  pub shutdown_timeout : Duration

-- `newIntegrationService`
abbrev pub new_integration_service : Bytes → Runner
new_integration_service = new_runner

-- `firstNonEmpty`: the first that is not blank.
unfoldable pub first_non_empty : List Bytes → Bytes
first_non_empty [] = []
first_non_empty (s ∷ v) = if is_empty (trim_space s) then first_non_empty v else s

-- The dependencies of the agent, with the path of Suricata's configuration.
abbrev pub agent_deps : HostAgentOptions → Config → Bytes → Deps
agent_deps opts c path = record {
  socket_path = first_non_empty (opts.socket_path ∷ c.http.host_agent_socket ∷ []);
  suricata_cfg_path = path;
  ndpi_plugin_path = or_default opts.ndpi_plugin_path c.paths.ndpi_plugin_path;
  suricata_unit = or_default opts.systemd_unit c.system.suricata_service;
  suricata_socket_candidates = c.suricata.socket_candidates;
  suricata_connect_timeout = millis 300;
  suricata_sc_path = c.paths.suricatasc;
  reload_command = c.reload.command;
  reload_timeout = c.reload.timeout;
  restart_timeout = opts.restart_timeout;
  systemctl_path = or_default opts.systemctl_path c.system.systemctl;
}

-- The path of Suricata's configuration.
unfoldable pub suricata_path : HostAgentOptions → Config → M (Result Bytes)
suricata_path opts c w =
    if is_empty opts.suricata_config
    then first_existing_path c.suricata.config_candidates w
    else (ok opts.suricata_config, w)

-- `newHostAgentService`, from the loaded configuration on.
unfoldable pub agent_of_config : Outside → HostAgentOptions → Config → M (Result Server)
agent_of_config o opts c w =
    let (p, w') = suricata_path opts c w in
    elim p [ err e ↦ (err e, w') | ok path ↦ new_server o (agent_deps opts c path) w' ]

-- `newHostAgentService`, given what the YAML package makes of a file.
unfoldable pub new_host_agent_service :
    (Bytes → Result Config) → Outside → HostAgentOptions → M (Result Server)
new_host_agent_service unmarshal o opts w =
    let (raw, w') = read_file opts.config_path w in
    elim (load unmarshal opts.config_path raw) [
      | err e ↦ (err e, w')
      | ok c ↦ agent_of_config o opts c w'
    ]

-- The flags of `serve`, as far as they are given.
pub record ServeFlags : Type 0 where
  pub config : Option Bytes
  pub sock : Option Bytes
  pub unit : Option Bytes
  pub suricata_config : Option Bytes
  pub ndpi_plugin : Option Bytes
  pub systemctl : Option Bytes
  pub restart_timeout : Option Duration
  pub shutdown_timeout : Option Duration

abbrev pub given : {A : Type 0} → Option A → A → A
given none d = d
given (some a) d = a

-- The options of `serve`, with the flags' defaults.
unfoldable pub serve_options : ServeFlags → HostAgentOptions
serve_options f = record {
  config_path = given f.config (codes "config/config.yaml");
  socket_path = given f.sock (codes "/run/ndpi-agent.sock");
  suricata_config = given f.suricata_config [];
  ndpi_plugin_path = given f.ndpi_plugin [];
  systemd_unit = given f.unit [];
  systemctl_path = given f.systemctl [];
  restart_timeout = given f.restart_timeout (seconds 20);
  shutdown_timeout = given f.shutdown_timeout (seconds 10);
}
