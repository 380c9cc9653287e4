-- ===== src/System.antt =====
-- The two machines over one shared memory: each has its own device, and a guest's access of a
-- register runs that machine's handler.
mod Defs
pub mod Delivery
unfoldable pub use Defs.*
