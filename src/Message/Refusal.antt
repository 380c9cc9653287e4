-- ===== src/Message/Refusal.antt =====
-- Whether the writer of a refused message hears of it.
use qemu_ntb_switch.Prelude.{
  ℕ, ◌+◌, ◌<◌, ◌≡◌, true, false, some, ◌∷◌, ap, ◌∙◌, bit_or, complement, if◌then◌else◌, test_bit,
  zero-bit_and,
}
use qemu_ntb_switch.Notify.{idt_ntintsts_msg}
use qemu_ntb_switch.Shm.{Slot, other}
use qemu_ntb_switch.Device.{World, ok, msi_notify}
use qemu_ntb_switch.Message.{write_outbound_msg, outmsgsts}
use qemu_ntb_switch.Message.Mailbox.{regs_of, set_regs}
use qemu_ntb_switch.Message.Posting.{write_full, refuse_lem, complains, rejected}

silent : (p : Slot) (k : ℕ) (w : World) → (regs_of p w).msgsts_mask ≡ 0 → complains p k w ≡ false
silent p k w e = rw (e, zero-bit_and (complement 32 (outmsgsts k)))

-- On a connected device with no message interrupt masked, a message that is refused because the
-- register is full leaves the error status in the writer's registers and does nothing else: no
-- interrupt is raised and no notification is sent.
pub write_outbound_msg-silent :
    (p : Slot) (k v : ℕ) (w : World)
    → k < 4
    → w.dev.slot ≡ some p
    → test_bit (16 + k) (regs_of (other p) w).msgsts ≡ true
    → (regs_of p w).msgsts_mask ≡ 0
    → write_outbound_msg k v w
      ≡ ok tt (set_regs p (rejected k (regs_of p w).intsts (regs_of p w)) w)
write_outbound_msg-silent p k v w lt e full open_mask =
    write_full p k v w lt e full
    ∙ refuse_lem p k w e
    ∙ ap
        (λ b.
          ok tt
            (record (set_regs p
              (rejected k
                (if b then bit_or (regs_of p w).intsts idt_ntintsts_msg else (regs_of p w).intsts)
                (regs_of p w))
              w) { calls = if b then msi_notify 0 ∷ w.calls else w.calls }))
        (silent p k w open_mask)
