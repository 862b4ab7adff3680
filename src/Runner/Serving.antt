-- ===== src/Runner/Serving.antt =====
-- When the service starts to serve.
use integration_suricata_n_d.Base.{ℕ, Option, none, ◌≡◌, Bytes}
use integration_suricata_n_d.Config.{Config, load}
use integration_suricata_n_d.Sys.{Error, Result, ok, World, read_file}
use integration_suricata_n_d.Runner.{Runner}
use integration_suricata_n_d.Runner.Checked.{Checked}

-- The configuration that is read from the runner's file.
abbrev pub loaded : (Bytes → Result Config) → Runner → World → Result Config
loaded unmarshal r w = load unmarshal r.config_path (read_file r.config_path w).0

-- What a start needs to serve.
abbrev pub CanServe :
    (Bytes → Result Config)
    → (ℕ → Option Error)
    → (Bytes → Option Error)
    → (Bytes → Option Error)
    → Runner
    → World
    → Type 0
CanServe unmarshal context glob_error listen r w =
    (c : Config) × (loaded unmarshal r w ≡ ok c)
    × Checked context glob_error c w
    × (listen c.http.addr ≡ none)
