-- ===== src/Tests/Replies.antt =====
-- Starting, ensuring and reloading, on a concrete machine.
use integration_suricata_n_d.Base.{
  Bool, true, Option, none, some, List, [], ◌∷◌, ◌≡◌, refl, Bytes, codes, bytes_eq, seconds,
}
use integration_suricata_n_d.Options.{SuricataStartOptions}
use integration_suricata_n_d.Sys.{
  Error, World, deadline_exceeded, outer, other, stat, call, combined_output, dial_timeout,
}
use integration_suricata_n_d.Text.{
  trim_space, trim_by, is_ascii_space, space_width, space_width_back,
}
use integration_suricata_n_d.Service.{
  first_socket_of, probe_socket, ensure_suricata_running, connect_suricata, restart,
  restart_outcome, start_and_probe, ensure_suricata_started,
}
use integration_suricata_n_d.Service.Started.{
  JustConnected, Restarted, ensure_suricata_started-Restarted,
}
use integration_suricata_n_d.Base.{◌≢◌, ◌⊎◌}
use integration_suricata_n_d.Ready.{probe_uptime, wait_loop, wait_suricata_ready}
use integration_suricata_n_d.Ready.Answers.{Answered, wait_suricata_ready-Answered}
use integration_suricata_n_d.Agent.{
  post, is_post, poll, suricata_ensure_handler, reload_attempts, suricata_reload_handler,
  command_or_default,
}
use integration_suricata_n_d.Agent.Ensured.{Connected, suricata_ensure_handler-Connected}
use integration_suricata_n_d.Agent.Reloaded.{Accepted, suricata_reload_handler-Accepted}
use integration_suricata_n_d.Tests.Machine.{machine, deps, fine, failed, socket_path, config_path}

abbrev refused : Option Error
refused = some (outer other (codes "connection refused"))

-- The socket refuses the first connection and accepts the next; suricatasc fails once.
abbrev stopped : World
stopped = record machine { dials = refused ∷ none ∷ []; results = fine ∷ failed ∷ fine ∷ [] }

abbrev start_options : SuricataStartOptions
start_options = record {
  socket_candidates = config_path ∷ socket_path ∷ [];
  systemctl_path = [];
  systemd_unit = codes "suricata";
  start_timeout = seconds 0;
}

started : (ensure_suricata_started start_options stopped).0 ≡ none
unfolding ensure_suricata_started ensure_suricata_running first_socket_of stat call bytes_eq
    probe_socket dial_timeout start_and_probe restart restart_outcome combined_output trim_space
    trim_by is_ascii_space space_width space_width_back
started = refl

ensure_suricata_started-Restarted_example :
    let probed = ensure_suricata_running (config_path ∷ socket_path ∷ []) stopped in
    let after = (ensure_suricata_started start_options stopped).1 in
    JustConnected (config_path ∷ socket_path ∷ []) stopped after
    ⊎ ((probed.0 ≢ none) × Restarted start_options probed.1 after)
ensure_suricata_started-Restarted_example =
    ensure_suricata_started-Restarted start_options stopped refl started

abbrev clock : List Bool
clock = true ∷ true ∷ []

ensured : (suricata_ensure_handler clock deps post stopped).0.status ≡ 200
unfolding suricata_ensure_handler poll connect_suricata first_socket_of stat call bytes_eq
    dial_timeout restart restart_outcome combined_output trim_space trim_by is_ascii_space
    space_width space_width_back
ensured = refl

suricata_ensure_handler-Connected_example :
    (is_post post ≡ true)
    × Connected (socket_path ∷ []) stopped (suricata_ensure_handler clock deps post stopped).1
suricata_ensure_handler-Connected_example =
    suricata_ensure_handler-Connected clock deps post stopped ensured

abbrev unmarshal : Bytes → Option Bytes
unmarshal s = some s

abbrev done : Error
done = outer deadline_exceeded (codes "context deadline exceeded")

answered : (wait_suricata_ready unmarshal done clock (codes "/s/c") socket_path machine).0 ≡ none
unfolding wait_suricata_ready wait_loop probe_uptime combined_output bytes_eq trim_space trim_by
    is_ascii_space space_width space_width_back
answered = refl

wait_suricata_ready-Answered_example :
    Answered unmarshal
      (codes "/s/c")
      socket_path
      machine
      (wait_suricata_ready unmarshal done clock (codes "/s/c") socket_path machine).1
wait_suricata_ready-Answered_example =
    wait_suricata_ready-Answered unmarshal done clock (codes "/s/c") socket_path machine answered

reloaded : (suricata_reload_handler unmarshal done clock deps post stopped).0.status ≡ 200
unfolding suricata_reload_handler reload_attempts wait_suricata_ready wait_loop probe_uptime
    first_socket_of stat call combined_output bytes_eq trim_space trim_by is_ascii_space space_width
    space_width_back
reloaded = refl

suricata_reload_handler-Accepted_example :
    (is_post post ≡ true)
    × ((socket : Bytes) × (ready : World) × Answered unmarshal (codes "/s/c") socket stopped ready
        × Accepted
            (codes "/s/c")
            (command_or_default [])
            socket
            ready
            (suricata_reload_handler unmarshal done clock deps post stopped).1)
suricata_reload_handler-Accepted_example =
    suricata_reload_handler-Accepted unmarshal done clock deps post stopped reloaded
