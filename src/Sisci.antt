-- ===== src/Sisci.antt =====
-- kernel_src/ntb-idt-sisci-app/ntb-idt-sisci-app.c: the driver of a shared-memory segment on each
-- side of the switch.
mod State
mod Segment
pub mod Sane
mod Service
mod Requests
mod Allocation
mod Attendance
pub mod Announcement
pub mod Histories
mod Probe
pub mod Release
unfoldable pub use State.*
unfoldable pub use Segment.*
unfoldable pub use Service.*
unfoldable pub use Requests.*
unfoldable pub use Probe.*
