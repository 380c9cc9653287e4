-- ===== src/Registers.antt =====
-- qemu_src/hw/misc/idt_ntb_ivshmem.c: the enumerations of register addresses, fields and values.
-- A register of an array stands with its index.
mod Table
mod Laws
unfoldable pub use Table.*
unfoldable pub use Laws.*
