-- ===== src/Io/Effects.antt =====
-- The register writes that end in a notification or an alias update, as one change of the world
-- and that ending.
use qemu_ntb_switch.Prelude.{ℕ, ◌^◌, ◌<◌, ◌≡◌, some, if◌then◌else◌, bit_or, update, u32, arith}
use qemu_ntb_switch.Shm.{GlobalRegisters, BarConfig, Slot, first, other, half, set_half}
use qemu_ntb_switch.Registers.{
  ConfigRegister, HasIndex, ntgsignal, oof_ldata, oof_hdata, oof_llimit, oof_hlimit,
}
use qemu_ntb_switch.Device.{World, ok}
use qemu_ntb_switch.Notify.{
  idt_raise_peer_interrupt, passes_mask, idt_ntintsts_dbell, idt_ntintsts_sevent,
  idt_notify_peer_bar_config_changed,
}
use qemu_ntb_switch.Message.Mailbox.{regs_of, set_regs}
use qemu_ntb_switch.Window.{Host, idt_bar_update_peer_ram_alias}
use qemu_ntb_switch.Io.Write.{
  write_bar_register, write_peer_bar, ring_outbound_doorbell, signal_global,
}

-- The accesses that the device does not refuse by ending the process: NTGSIGNAL takes 1 only, and
-- the BAR of the inbound window, which the guest chose, is one of the six.
abbrev pub Legal : ConfigRegister → ℕ → World → Type 0
Legal ntgsignal val w = val ≡ 1
Legal oof_ldata val w = w.dev.lregs.inbound_mw_bar < 6
Legal oof_hdata val w = w.dev.lregs.inbound_mw_bar < 6
Legal oof_llimit val w = w.dev.lregs.inbound_mw_bar < 6
Legal oof_hlimit val w = w.dev.lregs.inbound_mw_bar < 6
Legal r val w = HasIndex r

abbrev pub rung : Slot → ℕ → World → World
rung p val w = set_regs (other p) (record (regs_of (other p) w) { db = u32 val }) w

pub ring_lem :
    (p : Slot) (val : ℕ) (w : World)
    → w.dev.slot ≡ some p
    → ring_outbound_doorbell val w ≡ (
        if passes_mask w.shm.gregs.nt_int_mask idt_ntintsts_dbell
        then idt_raise_peer_interrupt idt_ntintsts_dbell (rung p val w)
        else ok tt (rung p val w))
unfolding ring_outbound_doorbell
ring_lem first val w e = ground arith
ring_lem _ val w e = ground arith

abbrev pub set_gregs : GlobalRegisters → World → World
set_gregs g w = record w { shm = record w.shm { gregs = g } }

abbrev pub signalled : World → World
signalled w =
    let g = w.shm.gregs in set_gregs (record g { segsigsts = bit_or g.segsigsts (2 ^ 0) }) w

pub signal_lem :
    (w : World)
    → signal_global 1 w ≡ (
        if passes_mask w.shm.gregs.nt_int_mask idt_ntintsts_sevent
        then idt_raise_peer_interrupt idt_ntintsts_sevent (signalled w)
        else ok tt (signalled w))
unfolding signal_global
signal_lem w = ground arith

abbrev pub with_config : Slot → ℕ → (BarConfig → BarConfig) → World → World
with_config p i f w =
    let v = half p w.shm in
    record w {
      shm = set_half p (record v { bar_config = update v.bar_config i (f (v.bar_config i)) }) w.shm;
    }

pub write_bar_lem :
    (h : Host) (p : Slot) (i : ℕ) (f : BarConfig → BarConfig) (w : World)
    → w.dev.slot ≡ some p
    → i < 6
    → write_bar_register h i f w ≡ idt_bar_update_peer_ram_alias h i (with_config p i f w)
unfolding write_bar_register
write_bar_lem h p i f w e lt = ground arith

pub write_peer_bar_lem :
    (p : Slot) (f : BarConfig → BarConfig) (w : World)
    → w.dev.slot ≡ some p
    → w.dev.lregs.inbound_mw_bar < 6
    → write_peer_bar f w
      ≡ idt_notify_peer_bar_config_changed (with_config (other p) w.dev.lregs.inbound_mw_bar f w)
unfolding write_peer_bar
write_peer_bar_lem p f w e lt = ground arith
