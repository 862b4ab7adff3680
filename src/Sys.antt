-- ===== src/Sys.antt =====
-- What the program runs on: Go errors, the file system behind `fsutil.FS` (pkg/fsutil/fsutil.go)
-- and `executil.Runner` (pkg/executil/executil.go), and the paths of `path/filepath`.
mod Errors
mod Machine
mod Files
mod Paths
pub mod Effects
unfoldable pub use Errors.*
unfoldable pub use Machine.*
unfoldable pub use Files.*
unfoldable pub use Paths.*
