-- ===== src/Tests/Members.antt =====
-- Instances of the theorems about the table of peers, the device's end and its interrupt vectors.
use qemu_ntb_switch.Prelude.{
  ℕ, ◌≡◌, refl, arith, true, false, some, ◌∷◌, List, ltb, leb, if◌then◌else◌, min, pos, ◌+◌,
}
use qemu_ntb_switch.Shm.{first}
use qemu_ntb_switch.Device.{
  World, MsiVector, Call, event_notifier_set, Ensures, allocated, fault, assertion, double_free,
  ◌>>=◌,
}
use qemu_ntb_switch.Notify.Safety.{PeersFit, peer_at}
use qemu_ntb_switch.Peers.{process_peer_msg, process_msg_connect, process_msg_disconnect}
use qemu_ntb_switch.Peers.Members.{Sized, process_peer_msg-Counts}
use qemu_ntb_switch.Lifecycle.{ivshmem_exit}
use qemu_ntb_switch.Lifecycle.Ending.{
  closed_peer, ivshmem_exit-closes, ivshmem_exit-process_msg_disconnect,
}
use qemu_ntb_switch.Irqfd.{KvmAnswers, ivshmem_vector_notify, ivshmem_write_config}
use qemu_ntb_switch.Irqfd.Meeting.{ivshmem_vector_notify-delivers}
use qemu_ntb_switch.Irqfd.Routes.{ivshmem_write_config-aborts}
use qemu_ntb_switch.Prelude.{complement, update}
use qemu_ntb_switch.Tests.Worlds.{first_world, host, kvm}

first_world-Sized : Sized first_world.dev
first_world-Sized i lt = (refl, omega arith)

-- A client beyond the table's end connects.
process_peer_msg-Counts_example : Ensures (process_peer_msg kvm 20 (some 31) first_world) (λ err w'.
    Sized w'.dev
    × ((w'.dev.peers 20).nb_eventfds ≡ min ((peer_at first_world.dev 20).nb_eventfds + 1) 2)
    × (err ≡ leb 2 (peer_at first_world.dev 20).nb_eventfds))
process_peer_msg-Counts_example =
    process_peer_msg-Counts kvm 20 31 first_world first_world-Sized (omega arith)

ivshmem_exit-closes_example :
    Ensures
      (ivshmem_exit first_world)
      (λ _ w'. w'.dev.peers 3 ≡ (if ltb 3 16 then closed_peer else first_world.dev.peers 3))
ivshmem_exit-closes_example = ivshmem_exit-closes 3 first_world first_world-Sized

ivshmem_exit-process_msg_disconnect_example :
    (process_msg_disconnect 5 >>= λ _. ivshmem_exit) first_world ≡ fault double_free
ivshmem_exit-process_msg_disconnect_example =
    ivshmem_exit-process_msg_disconnect 5 first_world first_world-Sized (omega arith) (omega arith)

first_world-fits : PeersFit first_world.dev
first_world-fits i = ground arith

-- The other machine has a message waiting, and is not known yet.
abbrev unmet_world : World
unmet_world = record first_world {
  shm = record first_world.shm {
    vm2 = record first_world.shm.vm2 { regs = record first_world.shm.vm2.regs { intsts = 1 } };
  };
}

ivshmem_vector_notify-delivers_example :
    Ensures (ivshmem_vector_notify host 0 true unmet_world) (λ _ w'.
      (w'.dev.other_vm_id ≡ pos 1)
      × (w'.shm ≡ unmet_world.shm)
      × ((cs : List Call) × (w'.calls ≡ event_notifier_set 1 1 ∷ cs)))
unfolding complement
ivshmem_vector_notify-delivers_example =
    ivshmem_vector_notify-delivers host unmet_world first 1 2 first_world-fits refl (omega arith)
      refl (omega arith) refl (omega arith) (omega arith) refl

abbrev free_vectors : ℕ → MsiVector
free_vectors i = record { pdev = false; virq = 0; unmasked = false }

abbrev free_world : World
free_world = record first_world { dev = record first_world.dev { msi_vectors = some free_vectors } }

abbrev answers : KvmAnswers
answers = record { updates_route = true; adds_irqfd = true; removes_irqfd = true }

-- Nothing has been received for the device's own position.
abbrev started_world : World
started_world = record free_world {
  dev = record free_world.dev {
    peers = update free_world.dev.peers 0 (record { nb_eventfds = 0; eventfds = allocated 2 });
  };
}

ivshmem_write_config-aborts_example :
    (process_msg_connect kvm 0 30 >>= λ _. ivshmem_write_config kvm answers true false false true)
      started_world
    ≡ fault assertion
ivshmem_write_config-aborts_example =
    ivshmem_write_config-aborts kvm answers true false 2 30 free_vectors started_world (omega arith)
      (omega arith) (omega arith) refl refl refl refl
