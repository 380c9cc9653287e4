-- ===== src/Io/Read.antt =====
-- ivshmem_io_read.
use qemu_ntb_switch.Prelude.{ℕ, none, some, ◌==◌, if◌then◌else◌}
use qemu_ntb_switch.Registers.{
  ConfigRegister, decode, gasadata, pcielcap, pcielctlsts, pcicmdsts, ntctl, ntmtbldata, ntintsts,
  inmsg, inmsgsrc, indbellsts, indbellmsk, msgsts, msgstsmsk, ntintmsk, reqidcap, barsetup,
  barlimit, barltbase, barutbase, value_nt_pcielcap_vm1, value_nt_pcielcap_vm2,
  value_nt_pcielctlsts, value_nt_pcicmdsts,
}
use qemu_ntb_switch.Device.{M, pure, get_dev, get_regs, get_gregs, get_bar_config, ◌>>=◌}
use qemu_ntb_switch.Gas.{get_gasadata, get_nt_mtb_data}
use qemu_ntb_switch.Window.{Host}

unfoldable pub read_register : Host → ConfigRegister → M ℕ
read_register h gasadata = get_gasadata
read_register h pcielcap = do
  s ← get_dev
  pure (if s.self_number == 0 then value_nt_pcielcap_vm1 else value_nt_pcielcap_vm2)
read_register h pcielctlsts = pure value_nt_pcielctlsts
read_register h pcicmdsts = pure value_nt_pcicmdsts
read_register h ntctl = do r ← get_regs; pure r.ntctl
read_register h ntmtbldata = get_nt_mtb_data
read_register h ntintsts = do r ← get_regs; pure r.intsts
read_register h (inmsg i) = do r ← get_regs; pure (r.msg i)
read_register h (inmsgsrc i) = do r ← get_regs; pure (r.inb_msg_src i)
read_register h indbellsts = do r ← get_regs; pure r.db
read_register h indbellmsk = do r ← get_regs; pure r.db_mask
read_register h msgsts = do r ← get_regs; pure r.msgsts
read_register h msgstsmsk = do r ← get_regs; pure r.msgsts_mask
read_register h ntintmsk = do g ← get_gregs; pure g.nt_int_mask
read_register h reqidcap = pure h.requester_id
read_register h (barsetup i) = do c ← get_bar_config i; pure c.setup
read_register h (barlimit i) = do c ← get_bar_config i; pure c.limit
read_register h (barltbase i) = do c ← get_bar_config i; pure c.ltbase
read_register h (barutbase i) = do c ← get_bar_config i; pure c.utbase
read_register h _ = pure 0

unfoldable pub ivshmem_io_read : Host → ℕ → M ℕ
unfolding read_register
ivshmem_io_read h addr = elim (decode addr) [ some r ↦ read_register h r | none ↦ pure 0 ]
