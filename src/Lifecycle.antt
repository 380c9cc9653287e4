-- ===== src/Lifecycle.antt =====
-- qemu_src/hw/misc/idt_ntb_ivshmem.c: the device's start and end, ivshmem_setup_interrupts,
-- ivshmem_common_realize to ivshmem_post_load, and ivshmem_ntb_idt_init.
mod Start
mod Stop
pub mod Ending
unfoldable pub use Start.*
unfoldable pub use Stop.*
