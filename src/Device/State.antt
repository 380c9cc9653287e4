-- ===== src/Device/State.antt =====
-- `IVShmemState`, `Peer`, `MSIVector` and `idt_local_registers`, and what a running handler can
-- reach: the device, the shared memory and the calls that it makes of QEMU.
use qemu_ntb_switch.Prelude.{ℕ, Bool, Option, List, ℤ}
use qemu_ntb_switch.Shm.{ShmStorage, Slot}

-- The array `eventfds` of a peer: its number of notifiers, or what became of the pointer.
pub data Eventfds : Type 0 where
  null freed : Eventfds
  allocated : ℕ → Eventfds

-- `Peer`
pub record Peer : Type 0 where
  pub nb_eventfds : ℕ
  pub eventfds : Eventfds

-- `MSIVector`; of the pointer to the device only whether it is set.
pub record MsiVector : Type 0 where
  pub pdev : Bool
  pub virq : ℕ
  pub unmasked : Bool

-- `idt_local_registers`
pub record LocalRegisters : Type 0 where
  pub gasaaddr : ℕ
  pub nt_mtb_addr : ℕ
  pub inbound_mw_bar : ℕ

pub data OnOffAuto : Type 0 where
  auto on off : OnOffAuto

-- `IVShmemState`. `slot` stands for the seven pointers into the shared memory, which are set
-- together: `none` while they are null, and otherwise the half that `regs` points into. The
-- window's memory regions are in `bars_addr`, the guest's address of each BAR.
pub record IvshmemState : Type 0 where
  pub features : ℕ
  pub ivshmem_bar2 : Bool
  pub bars_addr : ℕ → ℕ
  pub peer_ram_initialized : Bool
  pub peer_ram_alias_initialized : ℕ → Bool
  pub peer_ram_alias_mapped : ℕ → Bool
  pub peer_ram_size : ℕ
  pub peers : ℕ → Peer
  pub nb_peers : ℕ
  pub vectors : ℕ
  pub msi_vectors : Option (ℕ → MsiVector)
  pub msg_buf : List ℕ
  pub master : OnOffAuto
  pub migration_blocker : Bool
  pub self_number : ℕ
  pub vm_id : ℕ
  pub other_vm_id : ℤ
  pub slot : Option Slot
  pub lregs : LocalRegisters
  pub peer_mem : Bool

-- The calls of QEMU and of the host that change something outside of the device.
pub data Call : Type 0 where
  event_notifier_set : (posn vector : ℕ) → Call
  event_notifier_init_fd : (posn vector fd : ℕ) → Call
  event_notifier_cleanup : (posn vector : ℕ) → Call
  set_fd_handler : (vector : ℕ) → Call
  msi_notify : (vector : ℕ) → Call
  init_alias set_alias : (idx offset size : ℕ) → Call
  add_subregion del_subregion : (idx : ℕ) → Call
  close : (fd : ℕ) → Call
  error_report : Call
  kvm_release_virq : (virq : ℕ) → Call
  kvm_add_irqfd kvm_remove_irqfd : (virq : ℕ) → Call
  msix_vector_use msix_set_pending : (vector : ℕ) → Call
  msix_set_notifiers msix_unset_notifiers : Call

-- `calls` has the latest call first.
pub record World : Type 0 where
  pub dev : IvshmemState
  pub shm : ShmStorage
  pub calls : List Call
