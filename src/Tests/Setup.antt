-- ===== src/Tests/Setup.antt =====
-- The setup with the messages that ivshmem-server sends first, as bytes.
use qemu_ntb_switch.Prelude.{◌≡◌, refl, arith, false, true, some, none, [], ◌∷◌, pos, negsuc}
use qemu_ntb_switch.Device.{World, ok}
use qemu_ntb_switch.Peers.{
  ShmFile, Transmission, bytes, interrupted, set_up, ivshmem_recv_setup, ivshmem_recv_msg,
}
use qemu_ntb_switch.Peers.Handshake.{Reads, ivshmem_recv_setup-completes}
use qemu_ntb_switch.Tests.Worlds.{first_world, kvm}

abbrev start_world : World
start_world = record first_world { dev = record first_world.dev { ivshmem_bar2 = false } }

abbrev file : ShmFile
file = record { file_size = some 0x10_0000; inits_ram = true }

-- The version 0.
abbrev version : Transmission
version = record { reads = bytes (0 ∷ 0 ∷ 0 ∷ 0 ∷ 0 ∷ 0 ∷ 0 ∷ 0 ∷ []) ∷ []; fd = none }

-- The identifier 3, in two pieces with an interrupted read between them.
abbrev identifier : Transmission
identifier = record {
  reads = bytes (3 ∷ 0 ∷ 0 ∷ []) ∷ interrupted ∷ bytes (0 ∷ 0 ∷ 0 ∷ 0 ∷ 0 ∷ []) ∷ [];
  fd = none;
}

-- -1, with the descriptor of the shared memory.
abbrev shared_memory : Transmission
shared_memory = record {
  reads = bytes (255 ∷ 255 ∷ 255 ∷ 255 ∷ 255 ∷ 255 ∷ 255 ∷ 255 ∷ []) ∷ [];
  fd = some 9;
}

version-Reads : Reads version (record { number = pos 0; fd = none })
unfolding ivshmem_recv_msg
version-Reads = refl

identifier-Reads : Reads identifier (record { number = pos 3; fd = none })
unfolding ivshmem_recv_msg
identifier-Reads = refl

shared_memory-Reads : Reads shared_memory (record { number = negsuc 0; fd = some 9 })
unfolding ivshmem_recv_msg
shared_memory-Reads = refl

ivshmem_recv_setup-completes_example :
    ivshmem_recv_setup 0 kvm file (version ∷ identifier ∷ shared_memory ∷ []) start_world
    ≡ ok set_up
        (record start_world { dev = record start_world.dev { vm_id = 3; ivshmem_bar2 = true } })
ivshmem_recv_setup-completes_example =
    ivshmem_recv_setup-completes 0 kvm file version identifier shared_memory [] 3 9 0x10_0000
      start_world version-Reads identifier-Reads (omega arith) shared_memory-Reads refl refl refl
