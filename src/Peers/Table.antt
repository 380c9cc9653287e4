-- ===== src/Peers/Table.antt =====
-- close_peer_eventfds, resize_peers, init_vm_ids, watch_vector_notifier and setup_interrupt.
use qemu_ntb_switch.Prelude.{
  ℕ, zero, suc, ◌+◌, ◌^◌, Bool, true, false, not, ◌&&◌, ◌||◌, Option, none, some, ltb, leb, ◌==◌,
  nonzero, if◌then◌else◌, bit_and, u32, update, to_signed,
}
use qemu_ntb_switch.Shm.{other}
use qemu_ntb_switch.Device.{
  M, pure, fail, out_of_bounds, double_free, when, assert, call, require, event_notifier_cleanup,
  set_fd_handler, kvm_add_irqfd, Eventfds, null, freed, allocated, Peer, MsiVector, IvshmemState,
  get_dev, put_dev, get_slot, get_half, put_half, ◌>>=◌, ◌>>◌,
}
use qemu_ntb_switch.Notify.{
  eventfd_vm_id, eventfd_interrupt_host, notify_other, idt_kick_peer_interrupt,
}

-- Features, IVSHMEM_IOEVENTFD and IVSHMEM_MSI.
abbrev pub ivshmem_ioeventfd : ℕ
ivshmem_ioeventfd = 0

abbrev pub ivshmem_msi : ℕ
ivshmem_msi = 1

unfoldable pub ivshmem_has_feature : IvshmemState → ℕ → Bool
ivshmem_has_feature s feature = nonzero (bit_and s.features (2 ^ feature))

-- What QEMU's KVM and MSI-X code answers.
pub record Kvm : Type 0 where
  pub msi_via_irqfd : Bool
  pub msix_enabled : Bool
  pub msix_masked : ℕ → Bool
  pub add_msi_route : ℕ → Option ℕ

-- The clean-up of the notifiers `i`, `i + 1`, … of which there are `n`.
unfoldable pub cleanup_notifiers : ℕ → ℕ → ℕ → M (Unit {0})
cleanup_notifiers posn i zero = pure tt
cleanup_notifiers posn i (suc n) = do
  call (event_notifier_cleanup posn i)
  cleanup_notifiers posn (i + 1) n

unfoldable pub free_eventfds : Eventfds → M (Unit {0})
free_eventfds null = pure tt
free_eventfds freed = fail double_free
free_eventfds (allocated n) = pure tt

-- `ivshmem_del_eventfd` does nothing. The pointer stays behind when its array is freed.
unfoldable pub close_peer_eventfds : ℕ → M (Unit {0})
unfolding cleanup_notifiers free_eventfds
close_peer_eventfds posn = do
  s ← get_dev
  assert (ltb posn s.nb_peers)
  cleanup_notifiers posn 0 (s.peers posn).nb_eventfds
  free_eventfds (s.peers posn).eventfds
  s' ← get_dev
  put_dev
      (record s' { peers = update s'.peers posn (record { nb_eventfds = 0; eventfds = freed }) })

-- The peers from `old` on are new; `vectors` notifiers are allocated for each.
unfoldable pub grow_peers : (ℕ → Peer) → ℕ → ℕ → ℕ → ℕ → Peer
grow_peers peers old nb vectors i =
    if leb old i && ltb i nb
    then record { nb_eventfds = 0; eventfds = allocated vectors }
    else peers i

unfoldable pub resize_peers : ℕ → M (Unit {0})
unfolding grow_peers
resize_peers nb_peers = do
  s ← get_dev
  assert (ltb s.nb_peers nb_peers)
  put_dev
      (record s { peers = grow_peers s.peers s.nb_peers nb_peers s.vectors; nb_peers = nb_peers })

unfoldable pub init_vm_ids : M (Unit {0})
init_vm_ids = do
  s ← get_dev
  p ← get_slot
  v ← get_half p
  put_half p (record v { id = u32 s.vm_id })
  when (not (s.self_number == 0)) (do
    o ← get_half (other p)
    put_dev (record s { other_vm_id = to_signed 32 o.id })
    notify_other eventfd_vm_id)

-- `s->msi_vectors[vector]`
unfoldable pub get_msi_vector : ℕ → M MsiVector
get_msi_vector vector = do
  s ← get_dev
  table ← require s.msi_vectors
  if ltb vector s.vectors then pure (table vector) else fail out_of_bounds

unfoldable pub put_msi_vector : ℕ → MsiVector → M (Unit {0})
put_msi_vector vector v = do
  s ← get_dev
  table ← require s.msi_vectors
  put_dev (record s { msi_vectors = some (update table vector v) })

unfoldable pub watch_vector_notifier : ℕ → M (Unit {0})
unfolding get_msi_vector put_msi_vector
watch_vector_notifier vector = do
  v ← get_msi_vector vector
  assert (not v.pdev)
  put_msi_vector vector (record v { pdev = true })
  call (set_fd_handler vector)

-- `true` where an error is set.
unfoldable pub ivshmem_add_kvm_msi_virq : Kvm → ℕ → M Bool
unfolding get_msi_vector put_msi_vector
ivshmem_add_kvm_msi_virq k vector = do
  v ← get_msi_vector vector
  assert (not v.pdev)
  elim (k.add_msi_route vector) [
    | none ↦ pure true
    | some virq ↦ do put_msi_vector vector (record v { virq = virq; pdev = true }); pure false
  ]

-- `true` where an error is set. The vectors 0 and 1 return early.
unfoldable pub setup_interrupt : Kvm → ℕ → M Bool
unfolding init_vm_ids watch_vector_notifier ivshmem_add_kvm_msi_virq ivshmem_has_feature
setup_interrupt k vector = do
  s ← get_dev
  if vector == eventfd_vm_id || vector == eventfd_interrupt_host
      then (do
        watch_vector_notifier vector
        when (vector == eventfd_interrupt_host) (do init_vm_ids; idt_kick_peer_interrupt)
        pure false)
      else if not (k.msi_via_irqfd && ivshmem_has_feature s ivshmem_msi)
      then (do watch_vector_notifier vector; pure false)
      else if not k.msix_enabled
      then pure false
      else (do
        err ← ivshmem_add_kvm_msi_virq k vector
        v ← get_msi_vector vector
        when (not err && not (k.msix_masked vector)) (call (kvm_add_irqfd v.virq))
        pure err)
