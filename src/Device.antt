-- ===== src/Device.antt =====
-- qemu_src/hw/misc/idt_ntb_ivshmem.c: the device's own state and the monad of its operations.
mod State
mod Monad
mod Correctness
unfoldable pub use State.*
unfoldable pub use Correctness.*
unfoldable pub use Monad.*
