-- ===== src/Text.antt =====
-- The functions of Go's `strings`, `bytes` and `bufio` packages that the program calls, over bytes.
mod SearchDefs
mod TrimDefs
mod SplitDefs
pub mod Blanks
pub mod Ascii
pub mod Inside
pub mod Joined
unfoldable pub use SearchDefs.*
unfoldable pub use TrimDefs.*
unfoldable pub use SplitDefs.*
