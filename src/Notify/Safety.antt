-- ===== src/Notify/Safety.antt =====
-- A kick of the other machine touches no memory that is not there.
use qemu_ntb_switch.Prelude.{
  complement, bit_and, if◌then◌else◌, ℕ, ◌≤◌, ◌<◌, ◌≡◌, refl, ◌∙◌, Bool, true, false, Option, none,
  some, arith, ltb, pos, ◌∷◌, ◌⊎◌, nonzero, ap, bit_or,
}
use qemu_ntb_switch.Shm.{Slot, first, other, half, set_half}
use qemu_ntb_switch.Device.{
  ok, World, IvshmemState, Eventfds, allocated, null, Peer, Ensures, Ensures->>=,
  event_notifier_set, ◌>>=◌,
}
use qemu_ntb_switch.Notify.{
  idt_raise_peer_interrupt, idt_kick_peer_interrupt, idt_peer_eventfd_ready, notify_other,
  kick_if_pending, notify_if_ready, unmasked_interrupts, eventfd_interrupt_host,
  idt_notify_peer_bar_config_changed, eventfd_vm_id,
}

-- The array of a peer has room for the notifiers that are counted.
abbrev pub HasRoom : ℕ → Eventfds → Type 0
HasRoom n (allocated cap) = n ≤ cap
HasRoom n _ = n ≡ 0

-- The entry `i` of the table of peers, which has `nb_peers` entries.
abbrev pub peer_at : IvshmemState → ℕ → Peer
peer_at s i = if ltb i s.nb_peers then s.peers i else record { nb_eventfds = 0; eventfds = null }

abbrev pub PeersFit : IvshmemState → Type 0
PeersFit s = (i : ℕ) → HasRoom (peer_at s i).nb_eventfds (peer_at s i).eventfds

-- What a notification may change: the other machine's identifier may be learnt, and a notifier of
-- that machine may be set, one that has been received from the server.
pub record Notifies (v : ℕ) (w w' : World) : Type 0 where
  pub shm : w'.shm ≡ w.shm
  pub dev : w'.dev ≡ record w.dev { other_vm_id = w'.dev.other_vm_id }
  pub calls :
      (w'.calls ≡ w.calls)
      ⊎ ((n : ℕ) × (w'.dev.other_vm_id ≡ pos n)
          × (n < w.dev.nb_peers)
          × (v < (w.dev.peers n).nb_eventfds)
          × (w'.calls ≡ event_notifier_set n v ∷ w.calls))

-- What the device's connection to the other machine rests on.
pub record Kept (w w' : World) : Type 0 where
  pub slot : w'.dev.slot ≡ w.dev.slot
  pub peers : w'.dev.peers ≡ w.dev.peers
  pub nb_peers : w'.dev.nb_peers ≡ w.dev.nb_peers
  pub vm_id : w'.dev.vm_id ≡ w.dev.vm_id
  pub bars_addr : w'.dev.bars_addr ≡ w.dev.bars_addr

pub Kept-Notifies : {v : ℕ} {w w' : World} → Notifies v w w' → Kept w w'
Kept-Notifies n = record {
  slot = ap (λ d. d.slot) n.dev;
  peers = ap (λ d. d.peers) n.dev;
  nb_peers = ap (λ d. d.nb_peers) n.dev;
  vm_id = ap (λ d. d.vm_id) n.dev;
  bars_addr = ap (λ d. d.bars_addr) n.dev;
}

pub Kept-trans : {w u w' : World} → Kept w u → Kept u w' → Kept w w'
Kept-trans a b = record {
  slot = b.slot ∙ a.slot;
  peers = b.peers ∙ a.peers;
  nb_peers = b.nb_peers ∙ a.nb_peers;
  vm_id = b.vm_id ∙ a.vm_id;
  bars_addr = b.bars_addr ∙ a.bars_addr;
}

pub Kept-refl : {w w' : World} → w'.dev ≡ w.dev → Kept w w'
Kept-refl e = record {
  slot = ap (λ d. d.slot) e;
  peers = ap (λ d. d.peers) e;
  nb_peers = ap (λ d. d.nb_peers) e;
  vm_id = ap (λ d. d.vm_id) e;
  bars_addr = ap (λ d. d.bars_addr) e;
}

pub notify_other_lem :
    (v n : ℕ) (w : World)
    → PeersFit w.dev
    → w.dev.other_vm_id ≡ pos n
    → n < w.dev.nb_peers
    → v < (w.dev.peers n).nb_eventfds
    → notify_other v w ≡ ok tt (record w { calls = event_notifier_set n v ∷ w.calls })
unfolding notify_other
notify_other_lem v n w fit e lt pend = ground (arith, fit n)

-- Where the other machine is ready, its identifier is a position whose notifier is there.
record Ready (v : ℕ) (w : World) (b : Bool) (w' : World) : Type 0 where
  shm : w'.shm ≡ w.shm
  dev : w'.dev ≡ record w.dev { other_vm_id = w'.dev.other_vm_id }
  calls : w'.calls ≡ w.calls
  position :
      b ≡ true
      → (n : ℕ) × (w'.dev.other_vm_id ≡ pos n)
        × (n < w'.dev.nb_peers)
        × (v < (w'.dev.peers n).nb_eventfds)

idt_peer_eventfd_ready-Ensures :
    (v : ℕ) (w : World) → Ensures (idt_peer_eventfd_ready v w) (Ready v w)
unfolding idt_peer_eventfd_ready
idt_peer_eventfd_ready-Ensures v w = ground arith

kick_if_pending-Ensures :
    (b : Bool) (w w1 : World)
    → PeersFit w.dev
    → (p : Slot) → w.dev.slot ≡ some p
    → Ready 1 w b w1
    → Ensures (kick_if_pending b w1) (λ _ w'. Notifies 1 w w')
unfolding kick_if_pending
kick_if_pending-Ensures false w w1 fit p h r = ground arith
kick_if_pending-Ensures true w w1 fit p h r =
    let (n, at, lt, pend) = r.position refl in ground (arith, fit n)

kick-some :
    (w : World) (p : Slot)
    → w.dev.slot ≡ some p
    → idt_kick_peer_interrupt w ≡ (idt_peer_eventfd_ready 1 >>= kick_if_pending) w
unfolding idt_kick_peer_interrupt
kick-some w p e = ground arith

-- If every peer has room for its notifiers, kicking the other machine never faults: at most the
-- second notifier of the other machine is set, one that it has sent, and nothing of the device
-- but the other machine's identifier, and nothing of the shared memory, changes.
pub idt_kick_peer_interrupt-Notifies :
    (w : World)
    → PeersFit w.dev
    → Ensures (idt_kick_peer_interrupt w) (λ _ w'. Notifies eventfd_interrupt_host w w')
idt_kick_peer_interrupt-Notifies w fit = go w.dev.slot refl
  where
    go :
        (o : Option Slot)
        → w.dev.slot ≡ o
        → Ensures (idt_kick_peer_interrupt w) (λ _ w'. Notifies eventfd_interrupt_host w w')
    go none e = unfold idt_kick_peer_interrupt in (ground arith)
    go (some p) e = rw (kick-some w p e) (
        Ensures->>= (idt_peer_eventfd_ready 1) kick_if_pending w (Ready 1 w) _
          (idt_peer_eventfd_ready-Ensures 1 w) (λ b w1 r. kick_if_pending-Ensures b w w1 fit p e r))

notify_if_ready-Ensures :
    (b : Bool) (w w1 : World)
    → PeersFit w.dev
    → Ready 0 w b w1
    → Ensures (notify_if_ready b w1) (λ _ w'. Notifies 0 w w')
unfolding notify_if_ready
notify_if_ready-Ensures false w w1 fit r = ground arith
notify_if_ready-Ensures true w w1 fit r =
    let (n, at, lt, pend) = r.position refl in ground (arith, fit n)

notify_bar_lem :
    (w : World)
    → idt_notify_peer_bar_config_changed w ≡ (idt_peer_eventfd_ready 0 >>= notify_if_ready) w
unfolding idt_notify_peer_bar_config_changed
notify_bar_lem w = refl

pub idt_notify_peer_bar_config_changed-Notifies :
    (w : World)
    → PeersFit w.dev
    → Ensures (idt_notify_peer_bar_config_changed w) (λ _ w'. Notifies eventfd_vm_id w w')
idt_notify_peer_bar_config_changed-Notifies w fit = rw (notify_bar_lem w) (
    Ensures->>= (idt_peer_eventfd_ready 0) notify_if_ready w (Ready 0 w) _
      (idt_peer_eventfd_ready-Ensures 0 w) (λ b w1 r. notify_if_ready-Ensures b w w1 fit r))

-- If every peer has room, the device is connected, the other machine is a known peer that has
-- sent its second notifier and one of its pending interrupts is not masked, then the kick sets
-- that notifier exactly once and changes nothing else.
pub idt_kick_peer_interrupt-delivers :
    (w : World) (p : Slot) (n : ℕ)
    → PeersFit w.dev
    → w.dev.slot ≡ some p
    → w.dev.other_vm_id ≡ pos n
    → n < w.dev.nb_peers
    → 1 < (w.dev.peers n).nb_eventfds
    → nonzero (bit_and (half (other p) w.shm).regs.intsts (complement 32 w.shm.gregs.nt_int_mask))
      ≡ true
    → idt_kick_peer_interrupt w
      ≡ ok tt (record w { calls = event_notifier_set n eventfd_interrupt_host ∷ w.calls })
unfolding idt_kick_peer_interrupt unmasked_interrupts
idt_kick_peer_interrupt-delivers w first n fit e at lt pend h = ground (arith, fit n)
idt_kick_peer_interrupt-delivers w _ n fit e at lt pend h = ground (arith, fit n)

-- The world in which the other machine's interrupt status has the bits.
abbrev pub raised : Slot → ℕ → World → World
raised p bits w =
    let v = half (other p) w.shm in
    record w {
      shm =
          set_half (other p)
            (record v { regs = record v.regs { intsts = bit_or v.regs.intsts bits } }) w.shm;
    }

raise_lem :
    (w : World) (p : Slot) (bits : ℕ)
    → w.dev.slot ≡ some p
    → idt_raise_peer_interrupt bits w ≡ idt_kick_peer_interrupt (raised p bits w)
unfolding idt_raise_peer_interrupt
raise_lem w p bits e = ground arith

-- Raising sets the bits in the other machine's status, and kicks.
pub idt_raise_peer_interrupt-Notifies :
    (w : World) (p : Slot) (bits : ℕ)
    → PeersFit w.dev
    → w.dev.slot ≡ some p
    → Ensures
        (idt_raise_peer_interrupt bits w)
        (λ _ w'. Notifies eventfd_interrupt_host (raised p bits w) w')
idt_raise_peer_interrupt-Notifies w p bits fit e =
    rw (raise_lem w p bits e) (idt_kick_peer_interrupt-Notifies (raised p bits w) fit)
