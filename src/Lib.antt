-- ===== src/Lib.antt =====
-- Integration of Suricata and nDPI: a model of the program's logic, and what makes it correct.
--
-- The program edits the configuration of Suricata, has Suricata check it, installs it, and restarts or
-- reloads Suricata. A host agent toggles the nDPI plugin, ensures that Suricata runs and reloads its rules
-- on request. A text is the list of its bytes, a file a text with a mode, and an operation that touches the
-- machine is a function from a `World` to its answer and the next `World`. A `World` has the files by path,
-- the outcome of each coming system call (so that any call may fail, and a failed write may have written a
-- part), the names that `CreateTemp` will draw, the results of the coming commands and connections, and the
-- log of those made.
--
-- Base, Text, Line: shared helpers; Go's strings, bytes and bufio functions over bytes, which the source
--   calls; the line edits of integration/ndpi_toggle.go and integration/patch_suricata_config.go.
-- Sys: errors, the machine, and pkg/fsutil, pkg/executil and pkg/netutil as its operations.
-- Atomic: `writeFileAtomic` of integration/atomic_write.go, each early return and the deferred removal.
-- Toggle: integration/ndpi_toggle.go; `match_ndpi_plugin_line` is `matchNDPIPluginLine`, `set_ndpi_enabled`
--   is `SetNDPIEnabledWithFS` with its loop as `toggle_lines`, `ndpi_status` is `NDPIStatusWithFS`.
-- Patch: integration/patch_suricata_config.go; Patch/Blocks has the functions on blocks of lines,
--   Patch/Plugins the plugin line and `patch_config`, which is `PatchSuricataConfigFromTemplate`; its lines
--   before they are joined are `patch_lines`.
-- Template: integration/render_template.go; the regular expression is the cut of a text into pieces.
-- Config, Options: internal/config, integration/types.go and integration/options.go.
-- Service: integration/paths.go, socket_candidates.go, service_manager.go, start_suricata.go and
--   connect_suricata.go, and pkg/systemd/manager.go.
-- Reconcile: integration/plan_config.go and reconcile_config.go, whose first steps are the one function
--   `prepare`, with the texts of the errors as its argument.
-- Apply: integration/apply_config.go.
-- Validate: integration/validate_config.go and validate_ndpi_config.go.
-- Ready: pkg/hostagent/suricata_ready.go.
-- Listener, Serve: pkg/hostagent/server.go; Listener is `removeIfSocket`, and Serve has `New`, `getListener`,
--   the routes, `Start` and `Stop`; Serve/Delivery says how a request of the client gets to a route.
-- Agent: pkg/hostagent/handlers.go and handlers_reload.go, with the answers as values before JSON.
-- Json, Client: pkg/agentclient; the JSON of the agent's answers as objects of flags and texts.
-- Api: internal/httpapi, over the operations of a record `ApiDeps`, which the runner fills.
-- Runner: integration/runner.go and http_server.go; `start` is `Start`, with the result of the wait at its
--   end as an argument, and `register_routes` has the operations.
-- Lifecycle: `RunWithSignals` of internal/app/run.go as a step relation.
-- Providers: internal/wire/providers.go, and the flags of internal/cli/hostagent.go.
-- Tests: the theorems at concrete inputs.
--
-- Bounds: a line of 64 KiB or more ends a scan with an error, as bufio.Scanner has it. `CreateTemp` draws
-- names from a list and fails when none is left. The wait for the socket after a restart takes the readings
-- of the clock as a list, and the wait for an answer those of its context; each stops after the last one, as
-- both do at their deadline. The reload makes five attempts. All other loops go down a list, so every
-- function of the model ends.
--
-- Left out: logging, the lock of the runner and locks against other processes, the limits of connections,
-- what the limits of time of the HTTP servers and clients do, the passing of time but for those readings,
-- and the files that a command may write. In JSON a text is taken to be UTF-8. Case is folded for ASCII, and
-- paths are taken to be clean. A command that has a context shows what the context was when it ended. The
-- digest, the YAML and JSON packages, the error of a glob, the environment, the routing table, the
-- listeners, the exchange through net/http and what `Shutdown` gives are parameters. A URL with a path that
-- no pattern has, or a request that is not well formed, is answered by net/http. Not modelled: what has no
-- logic of its own, which is pkg/logger, the doubles in internal/mocks, integration/hash.go, the program's
-- entry points, and pkg/runner.
pub mod Base
pub mod Text
pub mod Line
pub mod Sys
pub mod Atomic
pub mod Toggle
pub mod Patch
pub mod Template
pub mod Config
pub mod Options
pub mod Service
pub mod Reconcile
pub mod Apply
pub mod Ready
pub mod Validate
pub mod Listener
pub mod Agent
pub mod Json
pub mod Client
pub mod Api
pub mod Runner
pub mod Serve
pub mod Lifecycle
pub mod Providers
pub mod Tests
