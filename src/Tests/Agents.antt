-- ===== src/Tests/Agents.antt =====
-- The making of a host agent, on a concrete machine.
use integration_suricata_n_d.Base.{true, none, some, [], ◌∷◌, ◌≡◌, ◌↔◌, codes}
use integration_suricata_n_d.Sys.{ok, outer, other}
use integration_suricata_n_d.Config.{Config, apply_defaults}
use integration_suricata_n_d.Agent.{Deps}
use integration_suricata_n_d.Serve.{
  Outside, Server, activated, with_defaults, agent_server, new_server,
}
use integration_suricata_n_d.Serve.Made.{IsComplete, Listens, HasTimes, new_server-Listens}
use integration_suricata_n_d.Providers.{HostAgentOptions, agent_deps, ServeFlags, serve_options}
use integration_suricata_n_d.Tests.Machine.{machine, deps, config_path}
use integration_suricata_n_d.Tests.Settings.{written_config, unmarshal}

-- Systemd hands over a socket.
abbrev outside : Outside
outside = record {
  listeners = ok (codes "/run/a" ∷ []);
  listen = λ p w. (none, w);
  unmarshal = λ s. none;
  done = outer other (codes "done");
  ensure_clock = true ∷ [];
  reload_clock = true ∷ [];
}

abbrev server_of : Deps → Server
server_of d = record {
  deps = with_defaults d;
  listener = activated (codes "/run/a");
  server = agent_server;
}

new_server-Listens_example : ((new_server outside deps machine).0 ≡ ok (server_of deps)) ↔ (
    IsComplete deps
    × Listens outside deps.socket_path machine (server_of deps).listener
    × HasTimes deps (server_of deps).deps
    × ((server_of deps).server ≡ agent_server))
new_server-Listens_example = new_server-Listens outside deps machine (server_of deps)

-- `serve --config /e/s`
abbrev flags : ServeFlags
flags = record {
  config = some config_path;
  sock = none;
  unit = none;
  suricata_config = none;
  ndpi_plugin = none;
  systemctl = none;
  restart_timeout = none;
  shutdown_timeout = none;
}

abbrev options : HostAgentOptions
options = serve_options flags

abbrev served : Server
served = server_of (agent_deps options (apply_defaults written_config) config_path)
