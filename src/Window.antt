-- ===== src/Window.antt =====
-- qemu_src/hw/misc/idt_ntb_ivshmem.c: the memory windows. BARs 2 to 4 show a part of the other
-- machine's memory, directly by an alias (Alias) and otherwise access by access (Access).
mod Environment
mod Alias
mod Access
pub mod Frame
pub mod Shown
pub mod Placement
pub mod Bytes
pub mod Transfer
unfoldable pub use Environment.*
unfoldable pub use Alias.*
unfoldable pub use Access.*
