-- ===== src/Shm.antt =====
-- qemu_src/hw/misc/idt_ntb_ivshmem.c: the memory that the two QEMU processes share, one record
-- for each packed struct, and the half of it that one of the machines owns.
use qemu_ntb_switch.Prelude.{ℕ}

-- `BARConfig`
pub record BarConfig : Type 0 where
  pub setup : ℕ
  pub limit : ℕ
  pub ltbase : ℕ
  pub utbase : ℕ

-- `idt_global_registers`
pub record GlobalRegisters : Type 0 where
  pub segsigsts : ℕ
  pub segsigmsk : ℕ
  pub nt_int_mask : ℕ
  pub ntmtbl0 : ℕ

-- `idt_shared_registers`; the arrays have four elements each.
pub record SharedRegisters : Type 0 where
  pub db : ℕ
  pub db_mask : ℕ
  pub inbound_mw_part : ℕ
  pub ntctl : ℕ
  pub msgsts : ℕ
  pub msgsts_mask : ℕ
  pub msg : ℕ → ℕ
  pub intsts : ℕ
  pub part0_msg_control : ℕ → ℕ
  pub inb_msg_src : ℕ → ℕ

-- `idt_ivshmem_vm_shm_storage`; there are six BAR configurations.
pub record VmShmStorage : Type 0 where
  pub id : ℕ
  pub regs : SharedRegisters
  pub bar_config : ℕ → BarConfig

-- `idt_ivshmem_shm_storage`
pub record ShmStorage : Type 0 where
  pub gregs : GlobalRegisters
  pub vm1 : VmShmStorage
  pub vm2 : VmShmStorage

-- The halves of the storage. Both machines' register pointers point into them.
pub data Slot : Type 0 where
  first second : Slot

abbrev pub other : Slot → Slot
other first = second
other second = first

abbrev pub half : Slot → ShmStorage → VmShmStorage
half first m = m.vm1
half second m = m.vm2

abbrev pub set_half : Slot → VmShmStorage → ShmStorage → ShmStorage
set_half first v m = record m { vm1 = v }
set_half second v m = record m { vm2 = v }
