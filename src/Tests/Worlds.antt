-- ===== src/Tests/Worlds.antt =====
-- Two machines whose devices have met: each has sent its two notifiers, and the first machine's
-- other half has nothing pending.
use qemu_ntb_switch.Prelude.{
  if◌then◌else◌, ◌==◌, ℕ, true, false, none, some, [], negsuc, update, ◌*◌,
}
use qemu_ntb_switch.Shm.{BarConfig, SharedRegisters, VmShmStorage, ShmStorage, Slot, first}
use qemu_ntb_switch.Device.{Peer, allocated, IvshmemState, off, World}
use qemu_ntb_switch.Registers.{value_nt_barsetup2}
use qemu_ntb_switch.Peers.{Kvm}
use qemu_ntb_switch.Window.{Host}

abbrev pub no_config : BarConfig
no_config = record { setup = 0; limit = 0; ltbase = 0; utbase = 0 }

abbrev pub clear_regs : SharedRegisters
clear_regs = record {
  db = 0;
  db_mask = 0;
  inbound_mw_part = 5;
  ntctl = 0;
  msgsts = 0;
  msgsts_mask = 0;
  msg = λ _. 0;
  intsts = 0;
  part0_msg_control = λ _. 0;
  inb_msg_src = λ _. 0;
}

abbrev pub quiet_half : ℕ → VmShmStorage
quiet_half n = record { id = n; regs = clear_regs; bar_config = λ _. no_config }

-- No interrupt is masked.
abbrev pub quiet_shm : ShmStorage
quiet_shm = record {
  gregs = record { segsigsts = 0; segsigmsk = 0; nt_int_mask = 0; ntmtbl0 = 0 };
  vm1 = quiet_half 0;
  vm2 = quiet_half 1;
}

abbrev pub connected_peer : ℕ → Peer
connected_peer i = record { nb_eventfds = 2; eventfds = allocated 2 }

abbrev pub device : ℕ → Slot → IvshmemState
device n p = record {
  features = 3;
  ivshmem_bar2 = true;
  bars_addr = λ i. 0x1000_0000 * i;
  peer_ram_initialized = false;
  peer_ram_alias_initialized = λ _. false;
  peer_ram_alias_mapped = λ _. false;
  peer_ram_size = 0;
  peers = connected_peer;
  nb_peers = 16;
  vectors = 2;
  msi_vectors = none;
  msg_buf = [];
  master = off;
  migration_blocker = true;
  self_number = n;
  vm_id = n;
  other_vm_id = negsuc 0;
  slot = some p;
  lregs = record { gasaaddr = 0; nt_mtb_addr = 0; inbound_mw_bar = 2 };
  peer_mem = false;
}

abbrev pub first_world : World
first_world = record { dev = device 0 first; shm = quiet_shm; calls = [] }

abbrev pub host : Host
host = record {
  opens = true;
  file_size = some 0x4000_0000;
  inits_ram = true;
  mmaps = true;
  requester_id = 0;
}

-- The BAR 2 is enabled up to one mebibyte above its address, and shows the memory at 0x4b00000.
abbrev pub window_config : BarConfig
window_config = record {
  setup = value_nt_barsetup2;
  limit = 0x2010_0000;
  ltbase = 0x4b0_0000;
  utbase = 0;
}

abbrev pub window_half : VmShmStorage
window_half = record (quiet_half 0) { bar_config = update (λ _. no_config) 2 window_config }

abbrev pub window_world : World
window_world = record first_world { shm = record quiet_shm { vm1 = window_half } }

-- KVM adds a route for the vector 0 only.
abbrev pub kvm : Kvm
kvm = record {
  msi_via_irqfd = true;
  msix_enabled = false;
  msix_masked = λ _. false;
  add_msi_route = λ i. if i == 0 then some 7 else none;
}
