-- ===== src/Frames.antt =====
-- kernel_src/ntb-idt-app/ntb-idt-app.c: the driver that carries frames between the two machines.
mod State
mod Setup
pub mod Attendance
pub mod Online
mod Service
pub mod Histories
pub mod Loss
pub mod Steady
mod Transfer
mod Requests
mod Probe
unfoldable pub use State.*
unfoldable pub use Setup.*
unfoldable pub use Service.*
unfoldable pub use Transfer.*
unfoldable pub use Requests.*
unfoldable pub use Probe.*
