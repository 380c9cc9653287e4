-- ===== src/Io/Mail.antt =====
-- What every register write does to the mailboxes of both machines.
use qemu_ntb_switch.Prelude.{
  ℕ, ◌+◌, ◌<◌, ◌≡◌, refl, Bool, true, false, not, ◌&&◌, Option, some, none, ◌==◌, if◌then◌else◌,
  bit_and, complement, u32, arith, ap, ◌∙◌, test_bit, test_bit-bit_and, test_bit-complement,
}
use qemu_ntb_switch.Shm.{SharedRegisters, Slot, first, second, other, BarConfig}
use qemu_ntb_switch.Registers.{
  ConfigRegister, gasadata, ntmtbldata, outmsg, outdbellset, msgsts, ntgsignal, barsetup, barlimit,
  barltbase, barutbase, oof_ldata, oof_hdata, oof_llimit, oof_hlimit,
}
use qemu_ntb_switch.Device.{World, Ensures, Ensures-weaken, ok}
use qemu_ntb_switch.Notify.{
  idt_raise_peer_interrupt, passes_mask, idt_ntintsts_dbell, idt_ntintsts_sevent,
  idt_notify_peer_bar_config_changed,
}
use qemu_ntb_switch.Notify.Safety.{
  PeersFit, Kept, Kept-Notifies, Notifies, idt_notify_peer_bar_config_changed-Notifies,
}
use qemu_ntb_switch.Message.{write_outbound_msg}
use qemu_ntb_switch.Message.Mailbox.{mailbox, post, regs_of, SameMail, raise-SameMail}
use qemu_ntb_switch.Message.Posting.{write_outbound_msg-Posts, Posts}
use qemu_ntb_switch.Window.{Host}
use qemu_ntb_switch.Window.{idt_bar_update_peer_ram_alias}
use qemu_ntb_switch.Window.Frame.{
  OnlyAliases, Kept-OnlyAliases, idt_bar_update_peer_ram_alias-OnlyAliases,
}
use qemu_ntb_switch.Io.Write.{
  write_register, write_bar_register, write_peer_bar, ring_outbound_doorbell, signal_global,
}
use qemu_ntb_switch.Io.Effects.{
  Legal, rung, ring_lem, signalled, signal_lem, with_config, write_bar_lem, write_peer_bar_lem,
}
use qemu_ntb_switch.Io.SameBox.{
  SameBox, write_gasadata-SameBox, set_nt_mtb_data-SameBox, with_config-SameBox, rung-SameBox,
  signalled-SameBox, shm-SameBox, SameMail-SameBox,
}

unfoldable pub same_slot : Slot → Slot → Bool
same_slot first first = true
same_slot second second = true
same_slot _ _ = false

-- The specification: the mailbox `j` of the machine `q` after the machine `p` has written a
-- register. A message is posted into the other machine's mailbox, a write of MSGSTS empties the
-- writer's own mailboxes whose bits it has, and no other register touches a mailbox.
unfoldable pub mail_after : Slot → ConfigRegister → ℕ → Slot → ℕ → World → Option (ℕ × ℕ)
unfolding same_slot post
mail_after p (outmsg k) val q j w =
    if not (same_slot q p) && j == k
    then post (val, (regs_of p w).inbound_mw_part) (mailbox (regs_of q w) k)
    else mailbox (regs_of q w) j
mail_after p msgsts val q j w =
    if same_slot q p && test_bit (16 + j) val then none else mailbox (regs_of q w) j
mail_after p _ val q j w = mailbox (regs_of q w) j

abbrev Mails : Slot → ConfigRegister → ℕ → Slot → ℕ → World → World → Type 0
Mails p r val q j w w' = mailbox (regs_of q w') j ≡ mail_after p r val q j w

Posts-Mails :
    (p q : Slot) (k v j : ℕ) (w w' : World) → Posts p k v j w w' → Mails p (outmsg k) v q j w w'
unfolding mail_after
Posts-Mails first first k v j w w' h = h.1
Posts-Mails first second k v j w w' h = h.0
Posts-Mails second first k v j w w' h = h.0
Posts-Mails second second k v j w w' h = h.1

cleared_mail :
    (j v : ℕ) (r : SharedRegisters)
    → j < 4
    → mailbox (record r { msgsts = bit_and r.msgsts (complement 64 v) }) j
      ≡ (if test_bit (16 + j) v then none else mailbox r j)
unfolding mailbox
cleared_mail j v r h = ground (
  arith,
  test_bit-bit_and (16 + j) r.msgsts (complement 64 v),
  test_bit-complement (16 + j) 64 v (omega arith),
)

module _ {p : Slot} (w : World) (fit : PeersFit w.dev) (e : w.dev.slot ≡ some p) (q : Slot)
    (j : ℕ) where
  raise-SameBox :
      (u : World) (b : Bool) (bits : ℕ)
      → u.dev ≡ w.dev
      → SameBox q j w u
      → Ensures (if b then idt_raise_peer_interrupt bits u else ok tt u) (λ _. SameBox q j w)
  raise-SameBox u true bits d box =
      Ensures-weaken (idt_raise_peer_interrupt bits u) (λ _. SameMail u) _
        (raise-SameMail u p bits (rw d fit) (ap (λ s. s.slot) d ∙ e))
        (λ _ w' m. SameMail-SameBox q j w u w' m box)
  raise-SameBox u false bits d box = box

  ring-SameBox : (val : ℕ) → Ensures (ring_outbound_doorbell val w) (λ _. SameBox q j w)
  ring-SameBox val = rw (ring_lem p val w e) (
      raise-SameBox (rung p val w) (passes_mask w.shm.gregs.nt_int_mask idt_ntintsts_dbell)
        idt_ntintsts_dbell refl (rung-SameBox w e q j val))

  signal-SameBox : (val : ℕ) → val ≡ 1 → Ensures (signal_global val w) (λ _. SameBox q j w)
  signal-SameBox val one =
      rw (one, signal_lem w)
        (raise-SameBox (signalled w) (passes_mask w.shm.gregs.nt_int_mask idt_ntintsts_sevent)
          idt_ntintsts_sevent refl (signalled-SameBox w e q j))

  write_bar-SameBox :
      (h : Host) (i : ℕ) (f : BarConfig → BarConfig)
      → i < 6
      → Ensures (write_bar_register h i f w) (λ _. SameBox q j w)
  write_bar-SameBox h i f lt = rw (write_bar_lem h p i f w e lt) (
      Ensures-weaken (idt_bar_update_peer_ram_alias h i (with_config p i f w))
        (λ _. OnlyAliases (with_config p i f w)) _
        (idt_bar_update_peer_ram_alias-OnlyAliases h i (with_config p i f w) p e)
        (λ _ w' o.
          shm-SameBox q j w (with_config p i f w) w' o.shm (Kept-OnlyAliases o)
            (with_config-SameBox w e q j p i f)))

  write_peer_bar-SameBox :
      (f : BarConfig → BarConfig)
      → w.dev.lregs.inbound_mw_bar < 6
      → Ensures (write_peer_bar f w) (λ _. SameBox q j w)
  write_peer_bar-SameBox f lt =
      let u = with_config (other p) w.dev.lregs.inbound_mw_bar f w in
      rw (write_peer_bar_lem p f w e lt) (
        Ensures-weaken (idt_notify_peer_bar_config_changed u) (λ _. Notifies 0 u) _
          (idt_notify_peer_bar_config_changed-Notifies u fit)
          (λ _ w' n.
            shm-SameBox q j w u w' n.shm (Kept-Notifies n)
              (with_config-SameBox w e q j (other p) w.dev.lregs.inbound_mw_bar f)))

-- A legal register write of a device that is connected and whose peers have room for their
-- notifiers ends without a fault, does to every message register of both machines what the
-- mailbox specification says, and keeps the device's half, peers and BAR addresses.
pub write_register-Mails :
    (h : Host) (r : ConfigRegister) (val : ℕ) (p q : Slot) (j : ℕ) (w : World)
    → PeersFit w.dev
    → w.dev.slot ≡ some p
    → Legal r val w
    → j < 4
    → Ensures (write_register h r val w) (λ _ w'. Mails p r val q j w w' × Kept w w')
unfolding write_register mail_after mailbox
write_register-Mails h (outmsg k) val p q j w fit e legal lt =
    Ensures-weaken (write_outbound_msg k val w) (λ _. Posts p k val j w) _
      (write_outbound_msg-Posts p k val j w legal fit e)
      (λ _ w' ps. (Posts-Mails p q k val j w w' ps, ps.3))
write_register-Mails h msgsts val first first j w fit e legal lt =
    ground (arith, cleared_mail j val (regs_of first w) lt)
write_register-Mails h msgsts val first second j w fit e legal lt = ground arith
write_register-Mails h msgsts val second first j w fit e legal lt = ground arith
write_register-Mails h msgsts val second second j w fit e legal lt =
    ground (arith, cleared_mail j val (regs_of second w) lt)
write_register-Mails h gasadata val p q j w fit e legal lt = write_gasadata-SameBox w e q j val
write_register-Mails h ntmtbldata val p q j w fit e legal lt =
    set_nt_mtb_data-SameBox w e q j (u32 val)
write_register-Mails h outdbellset val p q j w fit e legal lt = ring-SameBox w fit e q j val
write_register-Mails h ntgsignal val p q j w fit e legal lt = signal-SameBox w fit e q j val legal
write_register-Mails h (barsetup i) val p q j w fit e legal lt =
    write_bar-SameBox w fit e q j h i _ legal
write_register-Mails h (barlimit i) val p q j w fit e legal lt =
    write_bar-SameBox w fit e q j h i _ legal
write_register-Mails h (barltbase i) val p q j w fit e legal lt =
    write_bar-SameBox w fit e q j h i _ legal
write_register-Mails h (barutbase i) val p q j w fit e legal lt =
    write_bar-SameBox w fit e q j h i _ legal
write_register-Mails h oof_ldata val p q j w fit e legal lt =
    write_peer_bar-SameBox w fit e q j (λ c. record c { ltbase = u32 val }) legal
write_register-Mails h oof_hdata val p q j w fit e legal lt =
    write_peer_bar-SameBox w fit e q j (λ c. record c { utbase = u32 val }) legal
write_register-Mails h oof_llimit val p q j w fit e legal lt =
    write_peer_bar-SameBox w fit e q j (λ c. record c { limit = u32 val }) legal
write_register-Mails h oof_hlimit val p q j w fit e legal lt =
    write_peer_bar-SameBox w fit e q j (λ c. record c { limit = u32 val }) legal
write_register-Mails h _ val p q j w fit e legal lt = ground arith
