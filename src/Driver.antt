-- ===== src/Driver.antt =====
-- kernel_src: what the two test drivers share, the NTB driver of the Linux kernel that they call and
-- the commands that they exchange through its message registers.
mod Kernel
pub mod Correctness
pub mod Ledger
pub mod Outgoing
pub mod Mailbox
pub mod RoundTrip
mod Monad
mod Commands
mod Values
pub use Kernel.*
unfoldable pub use Monad.*
unfoldable pub use Commands.*
unfoldable pub use Values.*
