-- ===== src/Irqfd/Routes.antt =====
-- The switch of MSI-X on a device that has received its own first notifier.
use qemu_ntb_switch.Prelude.{ℕ, ◌<◌, ◌≡◌, arith, Bool, true, false, some, update, ◌∷◌, ◌∙◌}
use qemu_ntb_switch.Device.{
  World, ok, fault, assertion, MsiVector, allocated, ◌>>=◌, >>=-ok, event_notifier_init_fd,
  set_fd_handler, check_eventfds,
}
use qemu_ntb_switch.Peers.{
  Kvm, process_msg_connect, setup_interrupt, watch_vector_notifier, get_msi_vector, put_msi_vector,
  ivshmem_add_kvm_msi_virq, after_connect,
}
use qemu_ntb_switch.Irqfd.{
  KvmAnswers, add_virqs, own_eventfds, ivshmem_enable_irqfd, ivshmem_write_config,
}

-- The device's first notifier is there, with a handler of its own.
abbrev watched : ℕ → ℕ → (ℕ → MsiVector) → World → World
watched n fd table w = record w {
  dev = record w.dev {
    peers = update w.dev.peers w.dev.vm_id (record { nb_eventfds = 1; eventfds = allocated n });
    msi_vectors = some (update table 0 (record (table 0) { pdev = true }));
  };
  calls = set_fd_handler 0 ∷ event_notifier_init_fd w.dev.vm_id 0 fd ∷ w.calls;
}

module _ (k : Kvm) (n fd : ℕ) (table : ℕ → MsiVector) (w : World) (some_vectors : 0 < w.dev.vectors)
    (vectors : w.dev.msi_vectors ≡ some table) where
  first_notifier :
      0 < n
      → w.dev.peers w.dev.vm_id ≡ record { nb_eventfds = 0; eventfds = allocated n }
      → (table 0).pdev ≡ false
      → process_msg_connect k w.dev.vm_id fd w ≡ ok false (watched n fd table w)
  unfolding process_msg_connect setup_interrupt watch_vector_notifier get_msi_vector put_msi_vector
      check_eventfds after_connect
  first_notifier some_room e free = ground arith

  switched_on :
      (a : KvmAnswers) (sets_notifiers has_notifier : Bool)
      → w.dev.vm_id < w.dev.nb_peers
      → k.msi_via_irqfd ≡ true
      → ivshmem_write_config k a sets_notifiers has_notifier false true (watched n fd table w)
        ≡ fault assertion
  unfolding ivshmem_write_config ivshmem_enable_irqfd own_eventfds add_virqs
      ivshmem_add_kvm_msi_virq get_msi_vector
  switched_on a sets_notifiers has_notifier lt via = ground arith

-- On a device with interrupt vectors that has an array for its own notifiers and has received
-- none of them, and where the first vector has no handler: once its own first notifier arrives,
-- a guest that switches MSI-X on, with KVM handling MSI through irqfds, makes QEMU stop at an
-- assertion, since the vector already has the handler of that notifier.
pub ivshmem_write_config-aborts :
    (k : Kvm) (a : KvmAnswers) (sets_notifiers has_notifier : Bool) (n fd : ℕ)
    (table : ℕ → MsiVector) (w : World)
    → w.dev.vm_id < w.dev.nb_peers
    → 0 < w.dev.vectors
    → 0 < n
    → w.dev.peers w.dev.vm_id ≡ record { nb_eventfds = 0; eventfds = allocated n }
    → w.dev.msi_vectors ≡ some table
    → (table 0).pdev ≡ false
    → k.msi_via_irqfd ≡ true
    → (process_msg_connect k w.dev.vm_id fd >>= λ _.
          ivshmem_write_config k a sets_notifiers has_notifier false true)
        w
      ≡ fault assertion
ivshmem_write_config-aborts k a sets_notifiers has_notifier n fd table w lt some_vectors some_room e
      vectors free via =
    >>=-ok (process_msg_connect k w.dev.vm_id fd)
      (λ _. ivshmem_write_config k a sets_notifiers has_notifier false true) w
      (watched n fd table w) false
      (first_notifier k n fd table w some_vectors vectors some_room e free)
    ∙ switched_on k n fd table w some_vectors vectors a sets_notifiers has_notifier lt via
