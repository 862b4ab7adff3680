-- ===== src/Tests/Checks.antt =====
-- The checks before a start and the removal of a stale socket, on a concrete machine.
use integration_suricata_n_d.Base.{none, some, [], ◌∷◌, ◌≡◌, ◌⊎◌, ◌↔◌, refl, codes, seconds}
use integration_suricata_n_d.Options.{NdpiValidateOptions}
use integration_suricata_n_d.Sys.{World, conn_refused, outer}
use integration_suricata_n_d.Validate.{validate_ndpi_config}
use integration_suricata_n_d.Validate.Passed.{Ready, validate_ndpi_config-Ready}
use integration_suricata_n_d.Listener.{remove_if_socket}
use integration_suricata_n_d.Listener.Removal.{Removed, remove_if_socket-Removed}
use integration_suricata_n_d.Tests.Machine.{machine, socket_path, template_path}

abbrev checked : NdpiValidateOptions
checked = record {
  ndpi_plugin_path = template_path;
  ndpi_rules_dir = codes "/n/rules";
  suricata_template_path = template_path;
  suricata_sc_path = codes "/s/c";
  reload_command = codes "none";
  reload_timeout = seconds 5;
  expected_rules_pattern = [];
}

validate_ndpi_config-Ready_example :
    (((validate_ndpi_config checked machine).0 ≡ none) ↔ Ready checked machine)
    × ((validate_ndpi_config checked machine).1 ≡ machine)
validate_ndpi_config-Ready_example = validate_ndpi_config-Ready checked machine refl

-- Nobody answers on the socket.
abbrev stale : World
stale = record machine { dials = some (outer conn_refused (codes "connection refused")) ∷ [] }

remove_if_socket-Removed_example :
    ((remove_if_socket socket_path stale).1.files ≡ stale.files)
    ⊎ (((remove_if_socket socket_path stale).0 ≡ none)
        × Removed socket_path stale (remove_if_socket socket_path stale).1)
remove_if_socket-Removed_example = remove_if_socket-Removed socket_path stale
