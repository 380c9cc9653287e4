-- ===== src/Message/Mailbox.antt =====
-- The message registers of one machine as four one-place mailboxes.
use qemu_ntb_switch.Prelude.{
  ℕ, ◌+◌, ◌≡◌, refl, ap, ◌∙◌, Option, none, some, if◌then◌else◌, test_bit,
}
use qemu_ntb_switch.Shm.{SharedRegisters, Slot, first, second, half, set_half}
use qemu_ntb_switch.Device.{World, Ensures, Ensures-weaken}
use qemu_ntb_switch.Notify.{idt_raise_peer_interrupt, eventfd_interrupt_host}
use qemu_ntb_switch.Notify.Safety.{
  PeersFit, Kept, Kept-refl, Kept-trans, Kept-Notifies, Notifies, raised,
  idt_raise_peer_interrupt-Notifies,
}

-- What a machine's message register `k` holds: the message and its sender's partition, while the
-- inbound status bit is set.
unfoldable pub mailbox : SharedRegisters → ℕ → Option (ℕ × ℕ)
mailbox r k = if test_bit (16 + k) r.msgsts then some (r.msg k, r.inb_msg_src k) else none

-- The specification of a post: a full mailbox keeps what it has.
unfoldable pub post : ℕ × ℕ → Option (ℕ × ℕ) → Option (ℕ × ℕ)
post m none = some m
post m (some m') = some m'

abbrev pub regs_of : Slot → World → SharedRegisters
regs_of q w = (half q w.shm).regs

abbrev pub set_regs : Slot → SharedRegisters → World → World
set_regs q r w = record w { shm = set_half q (record (half q w.shm) { regs = r }) w.shm }

-- The same messages, sources and status in both machines.
pub record SameMail (w w' : World) : Type 0 where
  pub msgsts : (q : Slot) → (regs_of q w').msgsts ≡ (regs_of q w).msgsts
  pub msg : (q : Slot) → (regs_of q w').msg ≡ (regs_of q w).msg
  pub inb_msg_src : (q : Slot) → (regs_of q w').inb_msg_src ≡ (regs_of q w).inb_msg_src
  pub kept : Kept w w'

pub SameMail-shm : {w u w' : World} → w'.shm ≡ u.shm → Kept u w' → SameMail w u → SameMail w w'
SameMail-shm e k m = record {
  msgsts = λ q. ap (λ h. (half q h).regs.msgsts) e ∙ m.msgsts q;
  msg = λ q. ap (λ h. (half q h).regs.msg) e ∙ m.msg q;
  inb_msg_src = λ q. ap (λ h. (half q h).regs.inb_msg_src) e ∙ m.inb_msg_src q;
  kept = Kept-trans m.kept k;
}

raised-SameMail : (p : Slot) (bits : ℕ) (w : World) → SameMail w (raised p bits w)
raised-SameMail first bits w = record {
  msgsts = elim [ first ↦ refl | second ↦ refl ];
  msg = elim [ first ↦ refl | second ↦ refl ];
  inb_msg_src = elim [ first ↦ refl | second ↦ refl ];
  kept = Kept-refl refl;
}
raised-SameMail second bits w = record {
  msgsts = elim [ first ↦ refl | second ↦ refl ];
  msg = elim [ first ↦ refl | second ↦ refl ];
  inb_msg_src = elim [ first ↦ refl | second ↦ refl ];
  kept = Kept-refl refl;
}

pub SameMail-refl : (w : World) → SameMail w w
SameMail-refl w = record {
  msgsts = λ q. refl;
  msg = λ q. refl;
  inb_msg_src = λ q. refl;
  kept = Kept-refl refl;
}

pub raise-SameMail :
    (w : World) (p : Slot) (bits : ℕ)
    → PeersFit w.dev
    → w.dev.slot ≡ some p
    → Ensures (idt_raise_peer_interrupt bits w) (λ _ w'. SameMail w w')
raise-SameMail w p bits fit e =
    Ensures-weaken (idt_raise_peer_interrupt bits w)
      (λ _ w'. Notifies eventfd_interrupt_host (raised p bits w) w') _
      (idt_raise_peer_interrupt-Notifies w p bits fit e)
      (λ _ w' n. SameMail-shm n.shm (Kept-Notifies n) (raised-SameMail p bits w))

pub SameMail-mailbox :
    (w w' : World) (q : Slot) (j : ℕ)
    → SameMail w w'
    → mailbox (regs_of q w') j ≡ mailbox (regs_of q w) j
unfolding mailbox
SameMail-mailbox w w' q j m = rw (m.msgsts q, m.msg q, m.inb_msg_src q)
