-- ===== src/Io.antt =====
-- qemu_src/hw/misc/idt_ntb_ivshmem.c: the handlers of BAR 0, ivshmem_io_read (Read) and
-- ivshmem_io_write (Write). A handler decodes the address and runs the register's case.
pub mod Write
pub mod Read
pub mod Effects
pub mod Faults
mod SameBox
pub mod Mail
unfoldable pub use Write.*
unfoldable pub use Read.*
