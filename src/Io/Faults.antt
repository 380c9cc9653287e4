-- ===== src/Io/Faults.antt =====
-- Register writes that end the process or write behind an array, and what a doorbell overwrites.
use qemu_ntb_switch.Prelude.{
  ℕ, ◌≤◌, ◌≡◌, ◌≢◌, refl, arith, Bool, true, false, some, if◌then◌else◌, ap, ◌∙◌, u32,
}
use qemu_ntb_switch.Shm.{Slot, first, second, other, half}
use qemu_ntb_switch.Registers.{
  ConfigRegister, ntgsignal, oof_ldata, oof_hdata, oof_llimit, oof_hlimit,
}
use qemu_ntb_switch.Device.{World, ok, fault, out_of_bounds, assertion, Ensures, Ensures-weaken}
use qemu_ntb_switch.Notify.{idt_raise_peer_interrupt, passes_mask, idt_ntintsts_dbell}
use qemu_ntb_switch.Notify.Safety.{PeersFit, Notifies, raised, idt_raise_peer_interrupt-Notifies}
use qemu_ntb_switch.Message.Mailbox.{regs_of}
use qemu_ntb_switch.Window.{Host}
use qemu_ntb_switch.Io.Write.{write_register, ring_outbound_doorbell}
use qemu_ntb_switch.Io.Effects.{rung, ring_lem}

-- Whether a write goes through the BAR index that the guest has chosen for the inbound window.
unfoldable pub uses_inbound_bar : ConfigRegister → Bool
uses_inbound_bar oof_ldata = true
uses_inbound_bar oof_hdata = true
uses_inbound_bar oof_llimit = true
uses_inbound_bar oof_hlimit = true
uses_inbound_bar _ = false

-- On a connected device whose guest has chosen a BAR index of 6 or more for the inbound window,
-- each of the four writes through that index lands outside of the array of BAR configurations.
pub write_register-out_of_bounds :
    (h : Host) (r : ConfigRegister) (val : ℕ) (p : Slot) (w : World)
    → uses_inbound_bar r ≡ true
    → w.dev.slot ≡ some p
    → 6 ≤ w.dev.lregs.inbound_mw_bar
    → write_register h r val w ≡ fault out_of_bounds
unfolding write_register uses_inbound_bar
write_register-out_of_bounds h oof_ldata val p w u e le = ground arith
write_register-out_of_bounds h oof_hdata val p w u e le = ground arith
write_register-out_of_bounds h oof_llimit val p w u e le = ground arith
write_register-out_of_bounds h oof_hlimit val p w u e le = ground arith
write_register-out_of_bounds h _ val p w u e le = cc

-- A guest that writes anything but 1 to NTGSIGNAL ends its own machine's process.
pub write_register-assertion :
    (h : Host) (val : ℕ) (w : World) → val ≢ 1 → write_register h ntgsignal val w ≡ fault assertion
unfolding write_register
write_register-assertion h val w ne = ground arith

rung-db :
    (p : Slot) (val : ℕ) (w : World) (bits : ℕ)
    → (regs_of (other p) (raised p bits (rung p val w))).db ≡ u32 val
rung-db first val w bits = refl
rung-db second val w bits = refl

rung_only-db : (p : Slot) (val : ℕ) (w : World) → (regs_of (other p) (rung p val w)).db ≡ u32 val
rung_only-db first val w = refl
rung_only-db second val w = refl

-- On a connected device whose peers have room, ringing the doorbell ends without a fault and
-- leaves exactly the written bits in the other machine's doorbell, whatever was pending there.
pub ring_outbound_doorbell-replaces :
    (p : Slot) (val : ℕ) (w : World)
    → PeersFit w.dev
    → w.dev.slot ≡ some p
    → Ensures (ring_outbound_doorbell val w) (λ _ w'. (regs_of (other p) w').db ≡ u32 val)
ring_outbound_doorbell-replaces p val w fit e =
    rw (ring_lem p val w e) (go (passes_mask w.shm.gregs.nt_int_mask idt_ntintsts_dbell))
  where
    go :
        (b : Bool)
        → Ensures
            (if b
              then idt_raise_peer_interrupt idt_ntintsts_dbell (rung p val w)
              else ok tt (rung p val w))
            (λ _ w'. (regs_of (other p) w').db ≡ u32 val)
    go true =
        Ensures-weaken (idt_raise_peer_interrupt idt_ntintsts_dbell (rung p val w))
          (λ _. Notifies 1 (raised p idt_ntintsts_dbell (rung p val w))) _
          (idt_raise_peer_interrupt-Notifies (rung p val w) p idt_ntintsts_dbell fit e)
          (λ _ w' n.
            ap (λ m. (half (other p) m).regs.db) n.shm ∙ rung-db p val w idt_ntintsts_dbell)
    go false = rung_only-db p val w
