-- ===== src/Irqfd.antt =====
-- qemu_src/hw/misc/idt_ntb_ivshmem.c: the interrupt vectors, ivshmem_vector_notify to
-- ivshmem_vector_poll, and the binding of MSI-X vectors to KVM, ivshmem_remove_kvm_msi_virq to
-- ivshmem_write_config.
pub mod Meeting
pub mod Routes
use qemu_ntb_switch.Prelude.{
  ℕ, zero, suc, ◌+◌, ◌-◌, Bool, true, false, not, ◌&&◌, ◌||◌, ◌==◌, if◌then◌else◌, ltb, min,
  to_signed,
}
use qemu_ntb_switch.Shm.{other}
use qemu_ntb_switch.Device.{
  M, pure, fail, out_of_bounds, when, assert, call, error_report, get_dev, put_dev, get_slot,
  get_half, check_notifier, msix_vector_use, msix_set_pending, msix_set_notifiers,
  msix_unset_notifiers, kvm_release_virq, kvm_add_irqfd, kvm_remove_irqfd, ◌>>=◌, ◌>>◌,
}
use qemu_ntb_switch.Notify.{
  eventfd_vm_id, eventfd_interrupt_host, idt_kick_peer_interrupt, interrupt_notify,
}
use qemu_ntb_switch.Window.{Host, idt_bar_refresh_peer_ram_aliases}
use qemu_ntb_switch.Peers.{
  Kvm, get_msi_vector, put_msi_vector, ivshmem_add_kvm_msi_virq, ivshmem_has_feature, ivshmem_msi,
}

-- `other_vm_id` is read anew, the aliases follow what the other machine has configured, and an
-- interrupt that waited for the other machine is announced.
unfoldable pub meet_other_vm : Host → M (Unit {0})
meet_other_vm h = do
  s ← get_dev
  p ← get_slot
  v ← get_half (other p)
  put_dev (record s { other_vm_id = to_signed 32 v.id })
  idt_bar_refresh_peer_ram_aliases h
  idt_kick_peer_interrupt

-- `was_set` is what `event_notifier_test_and_clear` answers.
unfoldable pub ivshmem_vector_notify : Host → ℕ → Bool → M (Unit {0})
unfolding check_notifier meet_other_vm interrupt_notify
ivshmem_vector_notify h vector was_set = do
  s ← get_dev
  check_notifier s.vm_id vector
  if not was_set
      then pure tt
      else if vector == eventfd_vm_id
      then meet_other_vm h
      else if vector == eventfd_interrupt_host
      then interrupt_notify 0
      else call error_report

-- The answers of KVM to one request for a vector.
pub record KvmAnswers : Type 0 where
  pub updates_route : Bool
  pub adds_irqfd : Bool
  pub removes_irqfd : Bool

-- `true` where the vector is unmasked, `false` for a negative result.
unfoldable pub ivshmem_vector_unmask : KvmAnswers → ℕ → M Bool
ivshmem_vector_unmask a vector = do
  v ← get_msi_vector vector
  if not v.pdev then (do call error_report; pure false) else (do
    assert (not v.unmasked)
    if not a.updates_route || not a.adds_irqfd then pure false else (do
      call (kvm_add_irqfd v.virq)
      put_msi_vector vector (record v { unmasked = true })
      pure true))

unfoldable pub ivshmem_vector_mask : KvmAnswers → ℕ → M (Unit {0})
ivshmem_vector_mask a vector = do
  v ← get_msi_vector vector
  if not v.pdev then call error_report else (do
    assert v.unmasked
    if not a.removes_irqfd then call error_report else (do
      call (kvm_remove_irqfd v.virq)
      put_msi_vector vector (record v { unmasked = false })))

-- One vector of the poll; a masked vector whose notifier is set becomes pending.
unfoldable pub poll_vector : (ℕ → Bool) → (ℕ → Bool) → ℕ → M (Unit {0})
poll_vector masked is_set vector = when (masked vector) (do
  s ← get_dev
  check_notifier s.vm_id vector
  when (is_set vector) (call (msix_set_pending vector)))

unfoldable pub poll_loop : (ℕ → Bool) → (ℕ → Bool) → ℕ → ℕ → M (Unit {0})
unfolding poll_vector
poll_loop masked is_set vector zero = pure tt
poll_loop masked is_set vector (suc n) = do
  poll_vector masked is_set vector
  poll_loop masked is_set (vector + 1) n

unfoldable pub ivshmem_vector_poll : (ℕ → Bool) → (ℕ → Bool) → ℕ → ℕ → M (Unit {0})
unfolding poll_loop
ivshmem_vector_poll masked is_set vector_start vector_end = do
  s ← get_dev
  poll_loop masked is_set vector_start (min vector_end s.vectors - vector_start)

unfoldable pub use_vectors : ℕ → ℕ → M (Unit {0})
use_vectors i zero = pure tt
use_vectors i (suc n) = do call (msix_vector_use i); use_vectors (i + 1) n

unfoldable pub ivshmem_msix_vector_use : M (Unit {0})
unfolding use_vectors
ivshmem_msix_vector_use = do s ← get_dev; use_vectors 0 s.vectors

unfoldable pub ivshmem_remove_kvm_msi_virq : ℕ → M (Unit {0})
ivshmem_remove_kvm_msi_virq vector = do
  v ← get_msi_vector vector
  when v.pdev (do call (kvm_release_virq v.virq); put_msi_vector vector (record v { pdev = false }))

-- `while (--i >= 0)`
unfoldable pub undo_irqfd : ℕ → M (Unit {0})
unfolding ivshmem_remove_kvm_msi_virq
undo_irqfd zero = pure tt
undo_irqfd (suc i) = do ivshmem_remove_kvm_msi_virq i; undo_irqfd i

-- The loop from the vector `i` over `n` vectors, and the vectors that were added, or the undo.
unfoldable pub add_virqs : Kvm → ℕ → ℕ → M Bool
unfolding undo_irqfd
add_virqs k i zero = pure true
add_virqs k i (suc n) = do
  err ← ivshmem_add_kvm_msi_virq k i
  elim err [ true ↦ do call error_report; undo_irqfd i; pure false | false ↦ add_virqs k (i + 1) n ]

-- `s->peers[s->vm_id].nb_eventfds`, which the loops do not change.
unfoldable pub own_eventfds : M ℕ
own_eventfds = do
  s ← get_dev
  if ltb s.vm_id s.nb_peers then pure (s.peers s.vm_id).nb_eventfds else fail out_of_bounds

-- `sets_notifiers` is whether `msix_set_vector_notifiers` succeeds.
unfoldable pub ivshmem_enable_irqfd : Kvm → Bool → M (Unit {0})
unfolding add_virqs own_eventfds
ivshmem_enable_irqfd k sets_notifiers = do
  n ← own_eventfds
  added ← add_virqs k 0 n
  when added
      (if sets_notifiers then call msix_set_notifiers else (do call error_report; undo_irqfd n))

unfoldable pub release_virqs : KvmAnswers → ℕ → ℕ → M (Unit {0})
unfolding ivshmem_vector_mask ivshmem_remove_kvm_msi_virq
release_virqs a i zero = pure tt
release_virqs a i (suc n) = do
  v ← get_msi_vector i
  when v.unmasked (ivshmem_vector_mask a i)
  ivshmem_remove_kvm_msi_virq i
  release_virqs a (i + 1) n

-- `has_notifier` is whether `pdev->msix_vector_use_notifier` is set.
unfoldable pub ivshmem_disable_irqfd : KvmAnswers → Bool → M (Unit {0})
unfolding release_virqs own_eventfds
ivshmem_disable_irqfd a has_notifier =
    when has_notifier (do call msix_unset_notifiers; n ← own_eventfds; release_virqs a 0 n)

unfoldable pub ivshmem_reset : KvmAnswers → Bool → M (Unit {0})
unfolding ivshmem_disable_irqfd ivshmem_msix_vector_use
ivshmem_reset a has_notifier = do
  ivshmem_disable_irqfd a has_notifier
  s ← get_dev
  when (ivshmem_has_feature s ivshmem_msi) ivshmem_msix_vector_use

-- The switches of MSI-X by a write of the configuration space, which QEMU has already made.
unfoldable pub ivshmem_write_config : Kvm → KvmAnswers → Bool → Bool → Bool → Bool → M (Unit {0})
unfolding ivshmem_enable_irqfd ivshmem_disable_irqfd
ivshmem_write_config k a sets_notifiers has_notifier was_enabled is_enabled = when k.msi_via_irqfd (
    if not was_enabled && is_enabled
    then ivshmem_enable_irqfd k sets_notifiers
    else when (was_enabled && not is_enabled) (ivshmem_disable_irqfd a has_notifier))
