-- ===== src/Sisci/Histories.antt =====
-- ntb-idt-sisci-app.c: what holds after any history of service work, requests and moves of the
-- hardware, and after the removal.
use qemu_ntb_switch.Prelude.{
  ℕ, ◌≡◌, List, [], ◌∷◌, Bool, Bool-cases, true, false, inl, inr, nonzero, arith, ◌&&◌,
}
use qemu_ntb_switch.Driver.{Ntb, Driver, D, pure, ◌>>=◌, ◌>>◌, tell, is_some}
use qemu_ntb_switch.Driver.Correctness.{Preserves}
use qemu_ntb_switch.Sisci.State.{
  SisciDev, Overtaken, has_peer_segment, sisci_set_removed, sisci_overtaken,
}
use qemu_ntb_switch.Sisci.Segment.{publish_unavailable_locked}
use qemu_ntb_switch.Sisci.Service.{sisci_service_work}
use qemu_ntb_switch.Sisci.Requests.{
  SisciRequest, get_info, create, prepare, available, unavailable, remove, connect, store_barrier,
  unknown, names_other_segment, with_segment, set_available, set_unavailable, remove_segment,
  finish_connect, connect_segment, create_segment, sisci_request, reads_argument, sisci_ioctl,
}
use qemu_ntb_switch.Sisci.Probe.{sisci_fresh}
use qemu_ntb_switch.Sisci.Sane.{
  IsSane, sisci_set_removed-IsSane, sisci_overtaken-IsSane, free_local_segment_locked-IsSane,
  publish_available_locked-IsSane, publish_unavailable_locked-IsSane,
}
use qemu_ntb_switch.Sisci.Allocation.{alloc_local_segment_locked-IsSane}
use qemu_ntb_switch.Sisci.Attendance.{sisci_service_work-IsSane}

-- What can happen to a driver. While a request waits for a segment other things happen, before it in
-- the history; the number is what the wait returns.
pub data SisciEvent (H : Type 0) : Type 0 where
  works : ℕ → SisciEvent H
  requests : Bool → ℕ → Bool → Bool → SisciRequest → SisciEvent H
  moves : (H → H) → SisciEvent H
  -- The removal sets its flag.
  begins_removal : SisciEvent H
  -- A handler that was running then has written flags after it.
  overtakes : Overtaken → SisciEvent H

module _ {H : Type 0} (ntb : Ntb H) (buffer_size : ℕ) where
  unfoldable pub sisci_event : SisciEvent H → D SisciDev H (Unit {0})
  sisci_event (works most) = sisci_service_work ntb most
  sisci_event (requests nonblock waited in_fails out_fails request) = do
    reply ← sisci_ioctl ntb buffer_size nonblock (pure waited) in_fails out_fails request
    pure tt
  sisci_event (moves f) = tell f
  sisci_event begins_removal = sisci_set_removed
  sisci_event (overtakes o) = sisci_overtaken o

  unfoldable pub sisci_history : List (SisciEvent H) → D SisciDev H (Unit {0})
  sisci_history [] = pure tt
  sisci_history (e ∷ es) = do sisci_event e; sisci_history es

  with_segment-IsSane :
      (id : ℕ) (act : D SisciDev H ℕ) (w : Driver SisciDev H)
      → IsSane w.app w.calls
      → (w.app.removed ≡ false
          → is_some w.app.local_buf ≡ true
          → IsSane (act w).1.app (act w).1.calls)
      → IsSane (with_segment id act w).1.app (with_segment id act w).1.calls
  unfolding with_segment names_other_segment
  with_segment-IsSane id act w g k = elim (Bool-cases w.app.removed) [
    | inl e ↦ simp e g
    | inr e ↦ simp e (elim (Bool-cases (names_other_segment w.app id)) [
      | inl f ↦ rw f g
      | inr f ↦ rw f (k e (ground arith))
    ])
  ]

  set_available-IsSane : (id : ℕ) → Preserves IsSane (set_available ntb id)
  unfolding set_available
  set_available-IsSane id w g =
      with_segment-IsSane id _ w g (λ e b. publish_available_locked-IsSane ntb _ (ground arith))

  remove_segment-IsSane : (id : ℕ) → Preserves IsSane (remove_segment ntb id)
  unfolding remove_segment
  remove_segment-IsSane id w g = with_segment-IsSane id _ w g (λ e b.
      let u = publish_unavailable_locked ntb id w in
      let p = publish_unavailable_locked-IsSane ntb id w g in
      elim (Bool-cases (nonzero u.0)) [
        | inl f ↦ rw f p
        | inr f ↦ rw f (free_local_segment_locked-IsSane ntb u.1 p)
      ])

  connect_segment-IsSane :
      (nonblock : Bool) (waited id : ℕ)
      → Preserves IsSane (connect_segment nonblock (pure {H = H} waited) id)
  unfolding connect_segment finish_connect
  connect_segment-IsSane true waited id w g = elim (Bool-cases (has_peer_segment w.app id)) [
    | inl e ↦ rw e g
    | inr e ↦ rw e g
  ]
  connect_segment-IsSane false waited id w g = elim (Bool-cases (nonzero waited)) [
    | inl e ↦ rw e g
    | inr e ↦ rw e g
  ]

  sisci_request-IsSane :
      (nonblock : Bool) (waited : ℕ) (r : SisciRequest)
      → Preserves IsSane (sisci_request ntb buffer_size nonblock (pure waited) r)
  unfolding sisci_request
  sisci_request-IsSane nonblock waited get_info w g = g
  sisci_request-IsSane nonblock waited (create id size) w g =
      unfold create_segment in (alloc_local_segment_locked-IsSane ntb buffer_size id size w g)
  sisci_request-IsSane nonblock waited (prepare id) w g =
      with_segment-IsSane id (pure 0) w g (λ _ _. g)
  sisci_request-IsSane nonblock waited (available id) w g = set_available-IsSane id w g
  sisci_request-IsSane nonblock waited (unavailable id) w g =
      unfold set_unavailable in
      (with_segment-IsSane id _ w g (λ _ _. publish_unavailable_locked-IsSane ntb id w g))
  sisci_request-IsSane nonblock waited (remove id) w g = remove_segment-IsSane id w g
  sisci_request-IsSane nonblock waited (connect id) w g =
      connect_segment-IsSane nonblock waited id w g
  sisci_request-IsSane nonblock waited store_barrier w g = g
  sisci_request-IsSane nonblock waited unknown w g = g

  sisci_event-IsSane : (e : SisciEvent H) → Preserves IsSane (sisci_event e)
  unfolding sisci_event sisci_ioctl
  sisci_event-IsSane (works most) w g = sisci_service_work-IsSane ntb most w g
  sisci_event-IsSane (requests nonblock waited in_fails out_fails r) w g =
      elim (Bool-cases (in_fails && reads_argument r)) [
        | inl e ↦ rw e g
        | inr e ↦ rw e (sisci_request-IsSane nonblock waited r w g)
      ]
  sisci_event-IsSane (moves f) w g = g
  sisci_event-IsSane begins_removal w g = sisci_set_removed-IsSane w g
  sisci_event-IsSane (overtakes o) w g = sisci_overtaken-IsSane o w g

  pub continued-IsSane : (es : List (SisciEvent H)) → Preserves IsSane (sisci_history es)
  unfolding sisci_history
  continued-IsSane [] w g = g
  continued-IsSane (e ∷ es) w g = continued-IsSane es (sisci_event e w).1 (sisci_event-IsSane e w g)

  sisci_fresh-IsSane : (peer : ℕ) → IsSane (sisci_fresh peer) []
  unfolding sisci_fresh
  sisci_fresh-IsSane peer = ground arith

  abbrev pub probed : ℕ → H → Driver SisciDev H
  probed peer h = record { app = sisci_fresh peer; hw = h; calls = [] }

  -- After any history of service work, requests, failures of the kernel's functions, moves of
  -- the hardware, and the removal's flag, with the flags that a handler that was running then
  -- may write after it, on a freshly probed SISCI driver: a peer that is ready is mapped, the
  -- link is up, and the usable size is within the mapped one; a segment that is published has
  -- the link up, one that is available has its buffer; until the removal has set its flag, a
  -- peer that is ready is also announced and a segment that is published is available; and the
  -- driver holds exactly the buffer, with its size, and the mapping that its fields name,
  -- having lost none and given none back twice.
  pub sisci_history-IsSane :
      (es : List (SisciEvent H)) (peer : ℕ) (h : H)
      → let w = (sisci_history es (probed peer h)).1 in IsSane w.app w.calls
  sisci_history-IsSane es peer h = continued-IsSane es (probed peer h) (sisci_fresh-IsSane peer)
