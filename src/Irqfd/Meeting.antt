-- ===== src/Irqfd/Meeting.antt =====
-- What happens when the other machine announces itself with the device's first notifier.
use qemu_ntb_switch.Prelude.{
  ℕ, ◌<◌, ◌≡◌, refl, arith, true, some, ap, ◌∙◌, ◌∷◌, List, pos, to_signed, bit_and, complement,
  nonzero,
}
use qemu_ntb_switch.Shm.{Slot, other, half}
use qemu_ntb_switch.Device.{
  World, ok, Call, allocated, ◌>>◌, >>=-ok, Ensures, Ensures-weaken, Ensures->>=,
  event_notifier_set, check_notifier, check_eventfds,
}
use qemu_ntb_switch.Notify.{idt_kick_peer_interrupt, eventfd_vm_id, eventfd_interrupt_host}
use qemu_ntb_switch.Notify.Safety.{PeersFit, idt_kick_peer_interrupt-delivers}
use qemu_ntb_switch.Window.{Host, idt_bar_update_peer_ram_alias, idt_bar_refresh_peer_ram_aliases}
use qemu_ntb_switch.Window.Frame.{OnlyAliases, idt_bar_update_peer_ram_alias-OnlyAliases}
use qemu_ntb_switch.Irqfd.{meet_other_vm, ivshmem_vector_notify}

-- What the updates of the aliases leave alone, of what a kick reads.
record Still (w w' : World) : Type 0 where
  shm : w'.shm ≡ w.shm
  slot : w'.dev.slot ≡ w.dev.slot
  peers : w'.dev.peers ≡ w.dev.peers
  nb_peers : w'.dev.nb_peers ≡ w.dev.nb_peers
  other_vm_id : w'.dev.other_vm_id ≡ w.dev.other_vm_id

Still-trans : {w u w' : World} → Still w u → Still u w' → Still w w'
Still-trans a b = record {
  shm = b.shm ∙ a.shm;
  slot = b.slot ∙ a.slot;
  peers = b.peers ∙ a.peers;
  nb_peers = b.nb_peers ∙ a.nb_peers;
  other_vm_id = b.other_vm_id ∙ a.other_vm_id;
}

update-Still :
    (h : Host) (idx : ℕ) (w : World) (p : Slot)
    → w.dev.slot ≡ some p
    → Ensures (idt_bar_update_peer_ram_alias h idx w) (λ _. Still w)
update-Still h idx w p e =
    Ensures-weaken (idt_bar_update_peer_ram_alias h idx w) (λ _. OnlyAliases w) _
      (idt_bar_update_peer_ram_alias-OnlyAliases h idx w p e)
      (λ _ w' o. record {
        shm = o.shm;
        slot = ap (λ d. d.slot) o.dev;
        peers = ap (λ d. d.peers) o.dev;
        nb_peers = ap (λ d. d.nb_peers) o.dev;
        other_vm_id = ap (λ d. d.other_vm_id) o.dev;
      })

refresh-Still :
    (h : Host) (w : World) (p : Slot)
    → w.dev.slot ≡ some p
    → Ensures (idt_bar_refresh_peer_ram_aliases h w) (λ _. Still w)
unfolding idt_bar_refresh_peer_ram_aliases
refresh-Still h w p e =
    Ensures->>= (idt_bar_update_peer_ram_alias h 2) _ w (λ _. Still w) _ (update-Still h 2 w p e)
      (λ _ u a.
        Ensures->>= (idt_bar_update_peer_ram_alias h 3) _ u (λ _. Still u) _
          (update-Still h 3 u p (a.slot ∙ e))
          (λ _ v b.
            Ensures-weaken (idt_bar_update_peer_ram_alias h 4 v) (λ _. Still v) _
              (update-Still h 4 v p (b.slot ∙ a.slot ∙ e))
              (λ _ w' c. Still-trans a (Still-trans b c))))

-- The world in which the other machine's identifier has been read.
abbrev met : Slot → World → World
met p w = record w { dev = record w.dev { other_vm_id = to_signed 32 (half (other p) w.shm).id } }

meet_lem :
    (h : Host) (w : World) (p : Slot)
    → w.dev.slot ≡ some p
    → meet_other_vm h w ≡ (idt_bar_refresh_peer_ram_aliases h >> idt_kick_peer_interrupt) (met p w)
unfolding meet_other_vm
meet_lem h w p e = rw e refl

own_notifier :
    (w : World) (size : ℕ)
    → w.dev.vm_id < w.dev.nb_peers
    → (w.dev.peers w.dev.vm_id).eventfds ≡ allocated size
    → 0 < size
    → check_notifier w.dev.vm_id eventfd_vm_id w ≡ ok tt w
unfolding check_notifier check_eventfds
own_notifier w size lt e room = ground arith

notify_lem :
    (h : Host) (w : World) (size : ℕ)
    → w.dev.vm_id < w.dev.nb_peers
    → (w.dev.peers w.dev.vm_id).eventfds ≡ allocated size
    → 0 < size
    → ivshmem_vector_notify h eventfd_vm_id true w ≡ meet_other_vm h w
unfolding ivshmem_vector_notify
notify_lem h w size lt e room =
    >>=-ok (check_notifier w.dev.vm_id eventfd_vm_id) (λ _. meet_other_vm h) w w tt
      (own_notifier w size lt e room)

-- When the other machine sets the first notifier of a connected device whose peers have room
-- and whose own notifier is there, and its half names a known peer that has sent its second
-- notifier, then the handler ends without a fault, takes that identifier, leaves the registers
-- unchanged, and announces an interrupt that was pending and not masked: one that was raised
-- before the other machine was known is not lost.
pub ivshmem_vector_notify-delivers :
    (h : Host) (w : World) (p : Slot) (n size : ℕ)
    → PeersFit w.dev
    → w.dev.slot ≡ some p
    → w.dev.vm_id < w.dev.nb_peers
    → (w.dev.peers w.dev.vm_id).eventfds ≡ allocated size
    → 0 < size
    → to_signed 32 (half (other p) w.shm).id ≡ pos n
    → n < w.dev.nb_peers
    → 1 < (w.dev.peers n).nb_eventfds
    → nonzero (bit_and (half (other p) w.shm).regs.intsts (complement 32 w.shm.gregs.nt_int_mask))
      ≡ true
    → Ensures (ivshmem_vector_notify h eventfd_vm_id true w) (λ _ w'.
      (w'.dev.other_vm_id ≡ pos n)
      × (w'.shm ≡ w.shm)
      × ((cs : List Call) × (w'.calls ≡ event_notifier_set n eventfd_interrupt_host ∷ cs)))
ivshmem_vector_notify-delivers h w p n size fit e own there room known lt sent pending =
    rw (notify_lem h w size own there room, meet_lem h w p e)
      (Ensures->>= (idt_bar_refresh_peer_ram_aliases h) (λ _. idt_kick_peer_interrupt) (met p w)
        (λ _. Still (met p w)) _ (refresh-Still h (met p w) p e)
        (λ _ u s.
          rw
            (idt_kick_peer_interrupt-delivers u p n (λ i. rw (s.peers, s.nb_peers) (fit i))
              (s.slot ∙ e) (s.other_vm_id ∙ known) (rw s.nb_peers lt) (rw s.peers sent)
              (rw s.shm pending))
            (s.other_vm_id ∙ known, s.shm, (u.calls, refl))))
