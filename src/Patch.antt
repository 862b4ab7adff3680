-- ===== src/Patch.antt =====
-- integration/patch_suricata_config.go: bringing the `unix-command` block and the nDPI plugin line of
-- a template into the current configuration.
mod Blocks
mod Plugins
pub mod Ranges
pub mod Settled
pub mod Stops
pub mod Item
pub mod Plain
pub mod Listed
pub mod Again
pub mod Whole
pub mod Kept
pub mod Written
pub mod Flag
pub mod Lost
unfoldable pub use Blocks.*
unfoldable pub use Plugins.*
