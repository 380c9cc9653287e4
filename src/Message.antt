-- ===== src/Message.antt =====
-- qemu_src/hw/misc/idt_ntb_ivshmem.c: write_outbound_msg, a write to one of the four message
-- registers of the other machine.
pub mod Mailbox
pub mod Posting
pub mod Refusal
use qemu_ntb_switch.Prelude.{
  ℕ, ◌+◌, ◌^◌, Bool, ◌&&◌, ltb, nonzero, if◌then◌else◌, bit_and, bit_or, complement, update,
}
use qemu_ntb_switch.Registers.{idt_fld_inmsgsts0, idt_fld_outmsgsts0}
use qemu_ntb_switch.Device.{
  M, pure, when, call, error_report, get_regs, put_regs, get_peer_regs, put_peer_regs, get_gregs,
  ◌>>=◌, ◌>>◌,
}
use qemu_ntb_switch.Notify.{
  idt_raise_peer_interrupt, interrupt_notify, passes_mask, idt_ntintsts_msg,
}

-- The status bits of the message register `index`.
abbrev pub inmsgsts : ℕ → ℕ
inmsgsts index = 2 ^ (idt_fld_inmsgsts0 + index)

abbrev pub outmsgsts : ℕ → ℕ
outmsgsts index = 2 ^ (idt_fld_outmsgsts0 + index)

-- The register still holds a message: the writer's own error status is set instead. The test of
-- the writer's mask is `msgsts_mask & ~bit`, as the source has it.
unfoldable pub refuse_outbound_msg : ℕ → M (Unit {0})
unfolding interrupt_notify
refuse_outbound_msg index = do
  r ← get_regs
  put_regs (record r { msgsts = bit_or r.msgsts (outmsgsts index) })
  g ← get_gregs
  when
      (nonzero (bit_and r.msgsts_mask (complement 32 (outmsgsts index)))
        && passes_mask g.nt_int_mask idt_ntintsts_msg)
      (do
        r' ← get_regs
        put_regs (record r' { intsts = bit_or r'.intsts idt_ntintsts_msg })
        interrupt_notify 0)

-- The register is free: the message is stored with the writer's partition.
unfoldable pub store_outbound_msg : ℕ → ℕ → M (Unit {0})
store_outbound_msg index val = do
  r ← get_regs
  p ← get_peer_regs
  put_peer_regs (record p {
    msg = update p.msg index val;
    msgsts = bit_or p.msgsts (inmsgsts index);
    inb_msg_src = update p.inb_msg_src index r.inbound_mw_part;
  })

unfoldable pub announce_outbound_msg : ℕ → M (Unit {0})
announce_outbound_msg index = do
  p ← get_peer_regs
  g ← get_gregs
  when
      (nonzero (bit_and (complement 64 p.msgsts_mask) (inmsgsts index))
        && passes_mask g.nt_int_mask idt_ntintsts_msg)
      (idt_raise_peer_interrupt idt_ntintsts_msg)

unfoldable pub deliver_outbound_msg : ℕ → ℕ → M (Unit {0})
unfolding store_outbound_msg announce_outbound_msg
deliver_outbound_msg index val = do store_outbound_msg index val; announce_outbound_msg index

-- `index` is a number here: the callers pass 0 to 3.
unfoldable pub write_outbound_msg : ℕ → ℕ → M (Unit {0})
unfolding refuse_outbound_msg deliver_outbound_msg
write_outbound_msg index val = if ltb 3 index then call error_report else (do
  p ← get_peer_regs
  if nonzero (bit_and p.msgsts (inmsgsts index))
      then refuse_outbound_msg index
      else deliver_outbound_msg index val)
