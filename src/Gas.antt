-- ===== src/Gas.antt =====
-- qemu_src/hw/misc/idt_ntb_ivshmem.c: the global address space and the NT mapping table,
-- get_gasadata to set_nt_mtb_data.
use qemu_ntb_switch.Prelude.{ℕ, zero, suc, none, some, bit_and, complement, u32, update}
use qemu_ntb_switch.Shm.{ShmStorage}
use qemu_ntb_switch.Registers.{
  GlobalRegister, decode_global, swport0sts, swport2sts, swpart0sts, ntp0_pciecmdsts, ntp0_ntctl,
  ntp2_pciecmdsts, ntp2_ntctl, sests, ntp0_barsetup, ntp2_barsetup, swp0msgctl, segsigsts,
  value_swport0sts, value_swpart0sts, value_ntp0_pciecmdsts,
}
use qemu_ntb_switch.Device.{M, ok, pure, get_dev, get_regs, put_regs, get_gregs, put_gregs, ◌>>=◌}

-- What a global register reads as. The BAR setups are those of the half that the port belongs to.
unfoldable pub read_global : GlobalRegister → ShmStorage → ℕ
read_global swport0sts m = value_swport0sts
read_global swport2sts m = value_swport0sts
read_global swpart0sts m = value_swpart0sts
read_global ntp0_pciecmdsts m = value_ntp0_pciecmdsts
read_global ntp0_ntctl m = m.vm1.regs.ntctl
read_global ntp2_pciecmdsts m = value_ntp0_pciecmdsts
read_global ntp2_ntctl m = m.vm2.regs.ntctl
read_global sests m = 0
read_global (ntp0_barsetup i) m = (m.vm1.bar_config i).setup
read_global (ntp2_barsetup i) m = (m.vm2.bar_config i).setup
read_global _ m = 0

unfoldable pub get_gasadata : M ℕ
get_gasadata w = elim (decode_global w.dev.lregs.gasaaddr) [
  | some r ↦ ok (read_global r w.shm) w
  | none ↦ ok 0 w
]

-- Of the global registers only these are written; `&=` on the 32-bit SEGSIGSTS.
unfoldable pub write_global : GlobalRegister → ℕ → M (Unit {0})
write_global (swp0msgctl i) val = do
  r ← get_regs
  put_regs (record r { part0_msg_control = update r.part0_msg_control i val })
write_global segsigsts val = do
  g ← get_gregs
  put_gregs (record g { segsigsts = u32 (bit_and g.segsigsts (complement 64 val)) })
write_global _ val = pure tt

unfoldable pub write_gasadata : ℕ → M (Unit {0})
write_gasadata val = do
  s ← get_dev
  elim (decode_global s.lregs.gasaaddr) [ some r ↦ write_global r val | none ↦ pure tt ]

-- Only the entry of the partition 0 exists.
unfoldable pub get_nt_mtb_data : M ℕ
get_nt_mtb_data = do
  s ← get_dev
  g ← get_gregs
  elim s.lregs.nt_mtb_addr [ zero ↦ pure g.ntmtbl0 | suc _ ↦ pure 0 ]

unfoldable pub set_nt_mtb_data : ℕ → M (Unit {0})
set_nt_mtb_data val = do
  s ← get_dev
  g ← get_gregs
  elim s.lregs.nt_mtb_addr [ zero ↦ put_gregs (record g { ntmtbl0 = u32 val }) | suc _ ↦ pure tt ]
