-- ===== src/Tests/Peers.antt =====
-- Instances of the theorems about the server's messages and the device's setup.
use qemu_ntb_switch.Prelude.{◌≡◌, refl, arith, true, some, none, [], ◌∷◌, List}
use qemu_ntb_switch.Device.{fault, use_after_free, ◌>>=◌, ◌>>◌}
use qemu_ntb_switch.Peers.{
  ShmFile, process_msg_connect, process_msg_disconnect, recv_loop, received, interrupted, bytes,
  ReadResult, ivshmem_read,
}
use qemu_ntb_switch.Peers.Framing.{payload, has_failure, recv_loop-payload, ivshmem_read-append}
use qemu_ntb_switch.Peers.Reconnect.{process_msg_connect-process_msg_disconnect}
use qemu_ntb_switch.Tests.Worlds.{first_world, kvm}

abbrev file : ShmFile
file = record { file_size = some 0x10_0000; inits_ram = true }

-- Eight bytes in two pieces, with an interrupted read between them.
abbrev pieces : List ReadResult
pieces = bytes (1 ∷ 2 ∷ 3 ∷ []) ∷ interrupted ∷ bytes (4 ∷ 5 ∷ 6 ∷ 7 ∷ 8 ∷ []) ∷ []

recv_loop-payload_example : recv_loop pieces [] ≡ received (1 ∷ 2 ∷ 3 ∷ 4 ∷ 5 ∷ 6 ∷ 7 ∷ 8 ∷ [])
unfolding payload has_failure
recv_loop-payload_example = recv_loop-payload pieces [] refl (omega arith) refl

ivshmem_read-append_example :
    (ivshmem_read kvm file (1 ∷ []) none >> ivshmem_read kvm file (2 ∷ 3 ∷ []) none) first_world
    ≡ ivshmem_read kvm file (1 ∷ 2 ∷ 3 ∷ []) none first_world
ivshmem_read-append_example =
    ivshmem_read-append kvm file (1 ∷ []) (2 ∷ 3 ∷ []) none none first_world (omega arith)
      (omega arith)

process_msg_connect-process_msg_disconnect_example :
    (process_msg_disconnect 1 >>= λ _. process_msg_connect kvm 1 30) first_world
    ≡ fault use_after_free
process_msg_connect-process_msg_disconnect_example =
    process_msg_connect-process_msg_disconnect kvm 1 2 30 first_world (omega arith) (omega arith)
      (omega arith) refl
