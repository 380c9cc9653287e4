-- ===== src/Notify.antt =====
-- qemu_src/hw/misc/idt_ntb_ivshmem.c: notifying the other machine, idt_peer_eventfd_ready to
-- interrupt_notify.
pub mod Safety
use qemu_ntb_switch.Prelude.{
  ℕ, zero, suc, ◌-◌, ◌<◌, ◌≡◌, Bool, true, false, Option, none, some, not, ◌&&◌, ◌||◌, ltb, ◌==◌,
  nonzero, if◌then◌else◌, bit_and, bit_or, u32, complement, ℤ, pos, negsuc, to_signed, arith,
}
use qemu_ntb_switch.Shm.{other, half}
use qemu_ntb_switch.Device.{
  M, ok, fail, out_of_bounds, IvshmemState, pure, when, call, get_dev, put_dev, get_slot, get_half,
  get_gregs, get_peer_regs, put_peer_regs, ◌>>=◌, ◌>>◌, notify, msi_notify,
}

-- `idt_ivshmem_eventfds`
abbrev pub eventfd_vm_id : ℕ
eventfd_vm_id = 0

abbrev pub eventfd_interrupt_host : ℕ
eventfd_interrupt_host = 1

-- `idt_interrupts`
abbrev pub idt_ntintsts_msg : ℕ
idt_ntintsts_msg = 1

abbrev pub idt_ntintsts_dbell : ℕ
idt_ntintsts_dbell = 2

abbrev pub idt_ntintsts_sevent : ℕ
idt_ntintsts_sevent = 8

-- The identifier that is learnt from the shared memory, if it may be the other machine's.
unfoldable pub learn_other_vm_id : IvshmemState → ℤ → ℤ
learn_other_vm_id s (negsuc n) = s.other_vm_id
learn_other_vm_id s (pos n) =
    if ltb n s.nb_peers && not (n == s.vm_id) then pos n else s.other_vm_id

unfoldable pub is_minus_one : ℤ → Bool
is_minus_one (negsuc zero) = true
is_minus_one _ = false

-- Looking the identifier up happens only when it is unknown and the shared memory is mapped.
unfoldable pub refresh_other_vm_id : M (Unit {0})
unfolding learn_other_vm_id is_minus_one
refresh_other_vm_id w = elim w.dev.slot [
  | none ↦ ok tt w
  | some p ↦
      if is_minus_one w.dev.other_vm_id
      then ok tt (record w {
        dev = record w.dev {
          other_vm_id = learn_other_vm_id w.dev (to_signed 32 (half (other p) w.shm).id);
        };
      })
      else ok tt w
]

-- The other machine's position among the peers, if the identifier is one.
unfoldable pub peer_position : IvshmemState → Option ℕ
peer_position s = elim s.other_vm_id [
  | negsuc n ↦ none
  | pos n ↦ if ltb n s.nb_peers then some n else none
]

unfoldable pub idt_peer_eventfd_ready : ℕ → M Bool
unfolding refresh_other_vm_id peer_position
idt_peer_eventfd_ready vector = do
  refresh_other_vm_id
  s ← get_dev
  elim (peer_position s) [ none ↦ pure false | some n ↦ pure (ltb vector (s.peers n).nb_eventfds) ]

-- `event_notifier_set(&s->peers[s->other_vm_id].eventfds[vector])`; a negative index is out of
-- the array.
unfoldable pub notify_other : ℕ → M (Unit {0})
unfolding notify
notify_other vector = do
  s ← get_dev
  elim s.other_vm_id [ negsuc n ↦ fail out_of_bounds | pos n ↦ notify n vector ]

-- The interrupts of the other machine that are pending and not masked.
unfoldable pub unmasked_interrupts : ℕ → ℕ → ℕ
unmasked_interrupts intsts mask = bit_and intsts (complement 32 mask)

-- The rest of `idt_kick_peer_interrupt`, when it is known whether the other machine is ready.
unfoldable pub kick_if_pending : Bool → M (Unit {0})
unfolding notify_other unmasked_interrupts
kick_if_pending false = pure tt
kick_if_pending true = do
  r ← get_peer_regs
  g ← get_gregs
  when (nonzero (unmasked_interrupts r.intsts g.nt_int_mask)) (notify_other eventfd_interrupt_host)

unfoldable pub idt_kick_peer_interrupt : M (Unit {0})
unfolding idt_peer_eventfd_ready kick_if_pending
idt_kick_peer_interrupt = do
  s ← get_dev
  elim s.slot [
    | none ↦ pure tt
    | some _ ↦ do ready ← idt_peer_eventfd_ready eventfd_interrupt_host; kick_if_pending ready
  ]

unfoldable pub idt_raise_peer_interrupt : ℕ → M (Unit {0})
unfolding idt_kick_peer_interrupt
idt_raise_peer_interrupt intsts_bit = do
  r ← get_peer_regs
  put_peer_regs (record r { intsts = bit_or r.intsts intsts_bit })
  idt_kick_peer_interrupt

-- Only MSI is implemented.
unfoldable pub interrupt_notify : ℕ → M (Unit {0})
interrupt_notify vector = call (msi_notify vector)

-- The interrupts of `bits` that the global mask lets through, `~s->gregs->nt_int_mask & bits`.
unfoldable pub passes_mask : ℕ → ℕ → Bool
passes_mask mask bits = nonzero (bit_and (complement 32 mask) bits)

unfoldable pub notify_if_ready : Bool → M (Unit {0})
unfolding notify_other
notify_if_ready ready = when ready (notify_other eventfd_vm_id)

unfoldable pub idt_notify_peer_bar_config_changed : M (Unit {0})
unfolding idt_peer_eventfd_ready notify_if_ready
idt_notify_peer_bar_config_changed = do
  ready ← idt_peer_eventfd_ready eventfd_vm_id
  notify_if_ready ready
