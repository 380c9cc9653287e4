-- ===== src/Ring.antt =====
-- user_src/ntb_utils.c and ntb_profiling.c: the ring of the profiling tool.
mod Bounds
mod Emission
mod Writes
pub mod Fresh
pub mod Invariant
pub mod Locals
mod Layout
pub mod Progress
pub mod Schedule
mod Reception
pub mod Safety
mod Setup
mod Transfer
unfoldable pub use Layout.*
unfoldable pub use Setup.*
unfoldable pub use Transfer.*
