-- ===== src/Io/Write.antt =====
-- ivshmem_io_write, and the accesses of the other machine's BAR configuration that it makes.
use qemu_ntb_switch.Prelude.{ℕ, ◌^◌, none, some, ◌==◌, bit_and, bit_or, complement, u32}
use qemu_ntb_switch.Shm.{BarConfig, other}
use qemu_ntb_switch.Registers.{
  ConfigRegister, decode, gasaaddr, gasadata, ntctl, ntmtbladdr, ntmtbldata, ntintsts, outmsg,
  outdbellset, indbellsts, indbellmsk, msgsts, msgstsmsk, ntgsignal, barsetup, barlimit, barltbase,
  barutbase, oof_tpart, oof_lutoff, oof_ldata, oof_hdata, oof_llimit, oof_hlimit, ntintmsk,
}
use qemu_ntb_switch.Device.{
  M, pure, when, assert, get_dev, put_dev, get_slot, get_half, get_bar_config, put_bar_config_of,
  get_regs, put_regs, get_peer_regs, put_peer_regs, get_gregs, put_gregs, ◌>>=◌, ◌>>◌,
}
use qemu_ntb_switch.Notify.{
  idt_raise_peer_interrupt, passes_mask, idt_ntintsts_dbell, idt_ntintsts_sevent,
  idt_notify_peer_bar_config_changed,
}
use qemu_ntb_switch.Message.{write_outbound_msg}
use qemu_ntb_switch.Gas.{write_gasadata, set_nt_mtb_data}
use qemu_ntb_switch.Window.{Host, idt_bar_update_peer_ram_alias}

-- A BAR register of this machine: the field is stored and the BAR's alias brought up to date.
unfoldable pub write_bar_register : Host → ℕ → (BarConfig → BarConfig) → M (Unit {0})
write_bar_register h i store_field = do
  p ← get_slot
  c ← get_bar_config i
  put_bar_config_of p i (store_field c)
  idt_bar_update_peer_ram_alias h i

-- A field of `s->peer_bar_config[s->lregs.inbound_mw_bar]`; the index is what the guest wrote.
unfoldable pub write_peer_bar : (BarConfig → BarConfig) → M (Unit {0})
write_peer_bar store_field = do
  s ← get_dev
  p ← get_slot
  v ← get_half (other p)
  put_bar_config_of (other p) s.lregs.inbound_mw_bar
      (store_field (v.bar_config s.lregs.inbound_mw_bar))
  idt_notify_peer_bar_config_changed

unfoldable pub ring_outbound_doorbell : ℕ → M (Unit {0})
ring_outbound_doorbell val = do
  r ← get_peer_regs
  put_peer_regs (record r { db = u32 val })
  g ← get_gregs
  when (passes_mask g.nt_int_mask idt_ntintsts_dbell) (idt_raise_peer_interrupt idt_ntintsts_dbell)

unfoldable pub signal_global : ℕ → M (Unit {0})
signal_global val = do
  assert (val == 1)
  g ← get_gregs
  put_gregs (record g { segsigsts = bit_or g.segsigsts (2 ^ 0) })
  when (passes_mask g.nt_int_mask idt_ntintsts_sevent)
      (idt_raise_peer_interrupt idt_ntintsts_sevent)

unfoldable pub write_register : Host → ConfigRegister → ℕ → M (Unit {0})
unfolding write_bar_register write_peer_bar ring_outbound_doorbell signal_global
write_register h gasaaddr val = do
  s ← get_dev
  put_dev (record s { lregs = record s.lregs { gasaaddr = val } })
write_register h gasadata val = write_gasadata val
write_register h ntctl val = do r ← get_regs; put_regs (record r { ntctl = val })
write_register h ntmtbladdr val = do
  s ← get_dev
  put_dev (record s { lregs = record s.lregs { nt_mtb_addr = bit_and val 0x7F } })
write_register h ntmtbldata val = set_nt_mtb_data (u32 val)
write_register h ntintsts val = do
  r ← get_regs
  put_regs (record r { intsts = bit_and r.intsts (complement 64 val) })
write_register h (outmsg i) val = write_outbound_msg i val
write_register h outdbellset val = ring_outbound_doorbell val
write_register h indbellsts val = do
  r ← get_regs
  put_regs (record r { db = u32 (bit_and r.db (complement 64 val)) })
write_register h indbellmsk val = do r ← get_regs; put_regs (record r { db_mask = u32 val })
write_register h msgsts val = do
  r ← get_regs
  put_regs (record r { msgsts = bit_and r.msgsts (complement 64 val) })
write_register h msgstsmsk val = do r ← get_regs; put_regs (record r { msgsts_mask = val })
write_register h ntgsignal val = signal_global val
write_register h (barsetup i) val = write_bar_register h i (λ c. record c { setup = u32 val })
write_register h (barlimit i) val = write_bar_register h i (λ c. record c { limit = u32 val })
write_register h (barltbase i) val = write_bar_register h i (λ c. record c { ltbase = u32 val })
write_register h (barutbase i) val = write_bar_register h i (λ c. record c { utbase = u32 val })
write_register h oof_tpart val = do r ← get_regs; put_regs (record r { inbound_mw_part = u32 val })
write_register h oof_lutoff val = do
  s ← get_dev
  put_dev (record s { lregs = record s.lregs { inbound_mw_bar = u32 val } })
write_register h oof_ldata val = write_peer_bar (λ c. record c { ltbase = u32 val })
write_register h oof_hdata val = write_peer_bar (λ c. record c { utbase = u32 val })
write_register h oof_llimit val = write_peer_bar (λ c. record c { limit = u32 val })
write_register h oof_hlimit val = write_peer_bar (λ c. record c { limit = u32 val })
write_register h ntintmsk val = do g ← get_gregs; put_gregs (record g { nt_int_mask = u32 val })
write_register h _ val = pure tt

unfoldable pub ivshmem_io_write : Host → ℕ → ℕ → M (Unit {0})
unfolding write_register
ivshmem_io_write h addr val = elim (decode addr) [
  | some r ↦ write_register h r val
  | none ↦ pure tt
]
