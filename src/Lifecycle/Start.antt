-- ===== src/Lifecycle/Start.antt =====
-- ivshmem_ntb_idt_init, ivshmem_setup_interrupts and ivshmem_common_realize.
use qemu_ntb_switch.Prelude.{
  ℕ, ◌^◌, Bool, true, false, not, ◌&&◌, ◌||◌, some, List, ltb, ◌==◌, if◌then◌else◌, bit_or, negsuc,
}
use qemu_ntb_switch.Shm.{BarConfig, VmShmStorage, Slot, first, second, other}
use qemu_ntb_switch.Registers.{value_nt_barsetup0, value_nt_barsetup2}
use qemu_ntb_switch.Device.{
  M, pure, assert, OnOffAuto, auto, on, off, MsiVector, get_dev, put_dev, get_half, put_half,
  get_gregs, put_gregs, ◌>>=◌, ◌>>◌,
}
use qemu_ntb_switch.Peers.{
  Kvm, ShmFile, Transmission, Setup, set_up, setup_failed, ivshmem_recv_setup, resize_peers,
  ivshmem_has_feature, ivshmem_ioeventfd, ivshmem_msi,
}
use qemu_ntb_switch.Irqfd.{ivshmem_msix_vector_use}

unfoldable pub ivshmem_ntb_idt_init : M (Unit {0})
ivshmem_ntb_idt_init = do
  s ← get_dev
  put_dev (record s { features = bit_or s.features (2 ^ ivshmem_msi); other_vm_id = negsuc 0 })

-- The value written to `nt_int_mask`: every interrupt that the device knows is masked.
abbrev pub masked_interrupts : ℕ
masked_interrupts =
    bit_or 0x1 (bit_or (2 ^ 1) (bit_or (2 ^ 3) (bit_or (2 ^ 4) (bit_or (2 ^ 5) (2 ^ 7)))))

-- What QEMU answers while a device is set up: whether each call succeeds.
pub record Qemu : Type 0 where
  pub msix_inits : Bool
  pub msi_inits : Bool
  pub adds_blocker : Bool

abbrev pub fresh_vector : MsiVector
fresh_vector = record { pdev = false; virq = 0; unmasked = false }

-- `true` where it fails.
unfoldable pub ivshmem_setup_interrupts : Qemu → M Bool
ivshmem_setup_interrupts q = do
  s ← get_dev
  put_dev (record s { msi_vectors = some (λ _. fresh_vector) })
  if ivshmem_has_feature s ivshmem_msi
      then if not q.msix_inits then pure true else (do ivshmem_msix_vector_use; pure false)
      else pure false

-- `s->bar_config` with the setups of a machine that starts.
unfoldable pub with_setup : ℕ → BarConfig → BarConfig
with_setup v c = record c { setup = v }

unfoldable pub initial_bars : (ℕ → BarConfig) → ℕ → BarConfig
unfolding with_setup
initial_bars bars i =
    if i == 0
    then with_setup value_nt_barsetup0 (bars i)
    else if ltb 1 i && ltb i 5
    then with_setup value_nt_barsetup2 (bars i)
    else bars i

-- The machine's half, its NTCTL cleared.
unfoldable pub start_half : VmShmStorage → VmShmStorage
unfolding initial_bars
start_half v = record v {
  regs = record v.regs { ntctl = 0 };
  bar_config = initial_bars v.bar_config;
}

-- The other half's BARs are filled in if the other machine has not started yet.
unfoldable pub prepare_peer : (ℕ → BarConfig) → VmShmStorage → VmShmStorage
prepare_peer bars v =
    if (v.bar_config 0).setup == 0
    then record v { bar_config = λ i. if ltb i 6 then bars i else v.bar_config i }
    else v

-- The end of `ivshmem_common_realize`, from the register pointers on.
unfoldable pub connect_registers : Slot → M (Unit {0})
unfolding start_half prepare_peer
connect_registers p = do
  g ← get_gregs
  put_gregs (record g { nt_int_mask = masked_interrupts })
  s ← get_dev
  put_dev (record s { slot = some p })
  v ← get_half p
  put_half p (start_half v)
  o ← get_half (other p)
  put_half (other p) (prepare_peer (start_half v).bar_config o)

unfoldable pub slot_of_number : ℕ → Slot
slot_of_number n = if n == 0 then first else second

unfoldable pub default_master : OnOffAuto → ℕ → OnOffAuto
default_master auto vm_id = if vm_id == 0 then on else off
default_master m vm_id = m

unfoldable pub is_on : OnOffAuto → Bool
is_on on = true
is_on _ = false

unfoldable pub is_auto : OnOffAuto → Bool
is_auto auto = true
is_auto _ = false

unfoldable pub ivshmem_is_master : M Bool
unfolding is_on is_auto
ivshmem_is_master = do s ← get_dev; assert (not (is_auto s.master)); pure (is_on s.master)

-- A device that is not the master blocks migration; `true` where that fails.
unfoldable pub block_migration : Qemu → Bool → M Bool
block_migration q true = pure false
block_migration q false = do
  s ← get_dev
  put_dev (record s { migration_blocker = true })
  pure (not q.adds_blocker)

unfoldable pub finish_realize : Qemu → M Setup
unfolding default_master ivshmem_is_master block_migration connect_registers slot_of_number
finish_realize q = do
  s ← get_dev
  put_dev (record s { master = default_master s.master s.vm_id })
  master ← ivshmem_is_master
  blocked ← block_migration q master
  if blocked
      then pure setup_failed
      else (do connect_registers (slot_of_number s.self_number); pure set_up)

unfoldable pub setup_msi : Qemu → M Setup
unfolding ivshmem_setup_interrupts finish_realize
setup_msi q = do
  s ← get_dev
  if is_on s.master && not (s.vm_id == 0) then pure setup_failed else (do
    err ← ivshmem_setup_interrupts q
    if err || not q.msi_inits then pure setup_failed else finish_realize q)

unfoldable pub after_recv_setup : Qemu → Setup → M Setup
unfolding setup_msi
after_recv_setup q set_up = setup_msi q
after_recv_setup q r = pure r

-- The device has no host memory backend: no property sets `hostmem`. The memory regions and PCI
-- BARs that the function registers with QEMU are not part of the model.
unfoldable pub ivshmem_common_realize : ℕ → Kvm → ShmFile → Qemu → List Transmission → M Setup
unfolding after_recv_setup ivshmem_has_feature
ivshmem_common_realize version k f q ts = do
  s ← get_dev
  if ivshmem_has_feature s ivshmem_ioeventfd && not (ivshmem_has_feature s ivshmem_msi)
      then pure setup_failed
      else (do resize_peers 16; r ← ivshmem_recv_setup version k f ts; after_recv_setup q r)
