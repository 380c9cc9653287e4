-- ===== src/Message/Posting.antt =====
-- What a write to an outbound message register does to the mailboxes of both machines.
use qemu_ntb_switch.Prelude.{
  ℕ, ◌+◌, ◌<◌, ◌≡◌, refl, ap, ◌∙◌, Bool, true, false, ◌&&◌, ◌||◌, ◌∷◌, some, ◌==◌, nonzero,
  if◌then◌else◌, bit_and, bit_or, complement, update, arith, test_bit, test_bit-bit_or,
  nonzero-bit_and-pow, test_bit-pow, Bool-cases, inl, inr,
}
use qemu_ntb_switch.Shm.{SharedRegisters, Slot, first, second, other}
use qemu_ntb_switch.Device.{ok, World, Ensures, Ensures-weaken, msi_notify}
use qemu_ntb_switch.Notify.{idt_raise_peer_interrupt, idt_ntintsts_msg, passes_mask}
use qemu_ntb_switch.Notify.Safety.{PeersFit, Kept, Kept-refl, Kept-trans}
use qemu_ntb_switch.Message.{
  write_outbound_msg, refuse_outbound_msg, store_outbound_msg, announce_outbound_msg, inmsgsts,
  outmsgsts,
}
use qemu_ntb_switch.Message.Mailbox.{
  mailbox, post, regs_of, set_regs, SameMail, SameMail-refl, SameMail-mailbox, raise-SameMail,
}

abbrev announces : Slot → ℕ → World → Bool
announces p k w =
    nonzero (bit_and (complement 64 (regs_of (other p) w).msgsts_mask) (inmsgsts k))
    && passes_mask w.shm.gregs.nt_int_mask idt_ntintsts_msg

announce_lem :
    (p : Slot) (k : ℕ) (w : World)
    → w.dev.slot ≡ some p
    → announce_outbound_msg k w
      ≡ (if announces p k w then idt_raise_peer_interrupt idt_ntintsts_msg w else ok tt w)
unfolding announce_outbound_msg
announce_lem p k w e = ground arith

announce-SameMail :
    (p : Slot) (k : ℕ) (w : World)
    → PeersFit w.dev
    → w.dev.slot ≡ some p
    → Ensures (announce_outbound_msg k w) (λ _ w'. SameMail w w')
announce-SameMail p k w fit e = rw (announce_lem p k w e) (elim (Bool-cases (announces p k w)) [
  | inl a ↦ rw a (raise-SameMail w p idt_ntintsts_msg fit e)
  | inr a ↦ rw a (SameMail-refl w)
])

abbrev delivered : ℕ → ℕ → ℕ → SharedRegisters → SharedRegisters
delivered k v part r = record r {
  msg = update r.msg k v;
  msgsts = bit_or r.msgsts (inmsgsts k);
  inb_msg_src = update r.inb_msg_src k part;
}

mailbox-delivered :
    (k v part j : ℕ) (r : SharedRegisters)
    → test_bit (16 + k) r.msgsts ≡ false
    → mailbox (delivered k v part r) j
      ≡ (if j == k then post (v, part) (mailbox r k) else mailbox r j)
unfolding mailbox post
mailbox-delivered k v part j r h =
    ground (arith, test_bit-bit_or (16 + j) r.msgsts (inmsgsts k), test_bit-pow (16 + j) (16 + k))

-- An error status below bit 16 does not touch the inbound status bits.
mailbox-refused :
    (k j bits : ℕ) (r : SharedRegisters)
    → k < 4
    → mailbox (record r { msgsts = bit_or r.msgsts (outmsgsts k); intsts = bits }) j ≡ mailbox r j
unfolding mailbox
mailbox-refused k j bits r h =
    ground (arith, test_bit-bit_or (16 + j) r.msgsts (outmsgsts k), test_bit-pow (16 + j) k)

abbrev stored : Slot → ℕ → ℕ → World → World
stored p k v w =
    set_regs (other p) (delivered k v (regs_of p w).inbound_mw_part (regs_of (other p) w)) w

store_lem :
    (p : Slot) (k v : ℕ) (w : World)
    → w.dev.slot ≡ some p
    → store_outbound_msg k v w ≡ ok tt (stored p k v w)
unfolding store_outbound_msg
store_lem p k v w e = ground arith

-- Whether the writer is interrupted about a refused message.
abbrev pub complains : Slot → ℕ → World → Bool
complains p k w =
    nonzero (bit_and (regs_of p w).msgsts_mask (complement 32 (outmsgsts k)))
    && passes_mask w.shm.gregs.nt_int_mask idt_ntintsts_msg

abbrev pub rejected : ℕ → ℕ → SharedRegisters → SharedRegisters
rejected k intsts r = record r { msgsts = bit_or r.msgsts (outmsgsts k); intsts = intsts }

abbrev pub refused : Slot → ℕ → World → World
refused p k w =
    let r = regs_of p w in
    record (set_regs p
      (rejected k (if complains p k w then bit_or r.intsts idt_ntintsts_msg else r.intsts) r) w) {
        calls = if complains p k w then msi_notify 0 ∷ w.calls else w.calls;
      }

pub refuse_lem :
    (p : Slot) (k : ℕ) (w : World)
    → w.dev.slot ≡ some p
    → refuse_outbound_msg k w ≡ ok tt (refused p k w)
unfolding refuse_outbound_msg
refuse_lem first k w e = elim (Bool-cases (complains first k w)) [
  | inl c ↦ rw c (ground arith)
  | inr c ↦ rw c (ground arith)
]
refuse_lem _ k w e = elim (Bool-cases (complains second k w)) [
  | inl c ↦ rw c (ground arith)
  | inr c ↦ rw c (ground arith)
]

-- What a write of the value `v` to the outbound register `k` does, register by register.
abbrev pub Posts : Slot → ℕ → ℕ → ℕ → World → World → Type 0
Posts p k v j w w' =
    (mailbox (regs_of (other p) w') j ≡ (
      if j == k
      then post (v, (regs_of p w).inbound_mw_part) (mailbox (regs_of (other p) w) k)
      else mailbox (regs_of (other p) w) j))
    × (mailbox (regs_of p w') j ≡ mailbox (regs_of p w) j)
    × (test_bit j (regs_of p w').msgsts ≡ (
        test_bit j (regs_of p w).msgsts
        || (j == k && test_bit (16 + k) (regs_of (other p) w).msgsts)))
    × Kept w w'

refused-Posts :
    (p : Slot) (k v j : ℕ) (w : World)
    → k < 4
    → test_bit (16 + k) (regs_of (other p) w).msgsts ≡ true
    → Posts p k v j w (refused p k w)
unfolding mailbox post
refused-Posts first k v j w h full =
    let r = regs_of first w in
    ground (
      arith,
      test_bit-bit_or j r.msgsts (outmsgsts k),
      test_bit-pow j k,
      test_bit-bit_or (16 + j) r.msgsts (outmsgsts k),
      test_bit-pow (16 + j) k,
    )
refused-Posts _ k v j w h full =
    let r = regs_of second w in
    ground (
      arith,
      test_bit-bit_or j r.msgsts (outmsgsts k),
      test_bit-pow j k,
      test_bit-bit_or (16 + j) r.msgsts (outmsgsts k),
      test_bit-pow (16 + j) k,
    )

stored-Posts :
    (p : Slot) (k v j : ℕ) (w : World)
    → test_bit (16 + k) (regs_of (other p) w).msgsts ≡ false
    → Posts p k v j w (stored p k v w)
stored-Posts first k v j w free = (
  mailbox-delivered k v (regs_of first w).inbound_mw_part j (regs_of second w) free,
  refl,
  rw free (ground arith),
  Kept-refl refl,
)
stored-Posts _ k v j w free = (
  mailbox-delivered k v (regs_of second w).inbound_mw_part j (regs_of first w) free,
  refl,
  rw free (ground arith),
  Kept-refl refl,
)

SameMail-Posts :
    (p : Slot) (k v j : ℕ) (w u w' : World) → Posts p k v j w u → SameMail u w' → Posts p k v j w w'
SameMail-Posts p k v j w u w' h m = (
  SameMail-mailbox u w' (other p) j m ∙ h.0,
  SameMail-mailbox u w' p j m ∙ h.1,
  ap (test_bit j) (m.msgsts p) ∙ h.2,
  Kept-trans h.3 m.kept,
)

pub write_full :
    (p : Slot) (k v : ℕ) (w : World)
    → k < 4
    → w.dev.slot ≡ some p
    → test_bit (16 + k) (regs_of (other p) w).msgsts ≡ true
    → write_outbound_msg k v w ≡ refuse_outbound_msg k w
unfolding write_outbound_msg
write_full p k v w h e full =
    ground (arith, nonzero-bit_and-pow (16 + k) (regs_of (other p) w).msgsts)

write_free :
    (p : Slot) (k v : ℕ) (w : World)
    → k < 4
    → w.dev.slot ≡ some p
    → test_bit (16 + k) (regs_of (other p) w).msgsts ≡ false
    → write_outbound_msg k v w ≡ announce_outbound_msg k (stored p k v w)
unfolding write_outbound_msg
write_free p k v w h e free =
    ground (arith, nonzero-bit_and-pow (16 + k) (regs_of (other p) w).msgsts, store_lem p k v w)

-- A write to the outbound message register `k` of a connected device whose peers have room: if
-- the other machine's register is free the message is put there with the writer's partition; if
-- not, the old message stays and the writer's own status has the bit `k` set. No other message
-- register of either machine changes, and the write never faults.
pub write_outbound_msg-Posts :
    (p : Slot) (k v j : ℕ) (w : World)
    → k < 4
    → PeersFit w.dev
    → w.dev.slot ≡ some p
    → Ensures (write_outbound_msg k v w) (λ _ w'. Posts p k v j w w')
write_outbound_msg-Posts p k v j w h fit e =
    elim (Bool-cases (test_bit (16 + k) (regs_of (other p) w).msgsts)) [
      | inl full ↦
          rw (write_full p k v w h e full, refuse_lem p k w e) (refused-Posts p k v j w h full)
      | inr free ↦ rw (write_free p k v w h e free) (
          Ensures-weaken (announce_outbound_msg k (stored p k v w)) (λ _. SameMail (stored p k v w))
            _ (announce-SameMail p k (stored p k v w) fit e)
            (λ _ w'. SameMail-Posts p k v j w (stored p k v w) w' (stored-Posts p k v j w free)))
    ]
