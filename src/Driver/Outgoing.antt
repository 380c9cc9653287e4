-- ===== src/Driver/Outgoing.antt =====
-- The message registers that one side writes, as the NTB driver of the kernel documents them.
use qemu_ntb_switch.Prelude.{
  ℕ, ◌/◌, ◌^◌, ◌≡◌, Bool, true, false, some, none, Option, nonzero, bit_and, update, u32,
}
use qemu_ntb_switch.Driver.Kernel.{Ntb}
use qemu_ntb_switch.Driver.Commands.{cmd_reg, data_low_reg, data_high_reg}

-- The registers of one side: those of the other machine that it writes, whether one of its writes
-- was refused since the status was cleared, and the links.
pub record Outgoing (H : Type 0) : Type 0 where
  pub outbox : H → ℕ → Option ℕ
  pub refused : H → Bool
  pub links : H → ℕ

pub record Same {H : Type 0} (v : Outgoing H) (h h' : H) : Type 0 where
  pub outbox : v.outbox h' ≡ v.outbox h
  pub refused : v.refused h' ≡ v.refused h
  pub links : v.links h' ≡ v.links h

-- A write into a register that still holds a message is refused and leaves the message.
pub record SendsThrough {H : Type 0} (ntb : Ntb H) (v : Outgoing H) : Type 0 where
  pub link_is_up : (h : H) → (ntb.ntb_link_is_up h).0 ≡ v.links h
  pub link_is_up-Same : (h : H) → Same v h (ntb.ntb_link_is_up h).1
  pub clear : (h : H) → (ntb.ntb_msg_clear_sts ntb.ntb_msg_outbits h).0 ≡ 0
  pub clear_outbox : (h : H) → v.outbox (ntb.ntb_msg_clear_sts ntb.ntb_msg_outbits h).1 ≡ v.outbox h
  pub clear_refused : (h : H) → v.refused (ntb.ntb_msg_clear_sts ntb.ntb_msg_outbits h).1 ≡ false
  pub clear_links : (h : H) → v.links (ntb.ntb_msg_clear_sts ntb.ntb_msg_outbits h).1 ≡ v.links h
  pub write : (r x : ℕ) (h : H) → (ntb.ntb_peer_msg_write r x h).0 ≡ 0
  pub write_links : (r x : ℕ) (h : H) → v.links (ntb.ntb_peer_msg_write r x h).1 ≡ v.links h
  pub write_free :
      (r x : ℕ) (h : H)
      → v.outbox h r ≡ none
      → v.outbox (ntb.ntb_peer_msg_write r x h).1 ≡ update (v.outbox h) r (some x)
  pub write_accepted :
      (r x : ℕ) (h : H)
      → v.outbox h r ≡ none
      → v.refused (ntb.ntb_peer_msg_write r x h).1 ≡ v.refused h
  pub write_full :
      (r x y : ℕ) (h : H)
      → v.outbox h r ≡ some y
      → v.outbox (ntb.ntb_peer_msg_write r x h).1 ≡ v.outbox h
  pub write_refused :
      (r x y : ℕ) (h : H)
      → v.outbox h r ≡ some y
      → v.refused (ntb.ntb_peer_msg_write r x h).1 ≡ true
  pub status :
      (h : H) → nonzero (bit_and (ntb.ntb_msg_read_sts h).0 ntb.ntb_msg_outbits) ≡ v.refused h
  pub status-Same : (h : H) → Same v h (ntb.ntb_msg_read_sts h).1

-- The registers with a command.
abbrev pub loaded : (ℕ → Option ℕ) → ℕ → ℕ → ℕ → Option ℕ
loaded box cmd value =
    update
      (update (update box data_low_reg (some (u32 value))) data_high_reg
        (some (u32 (value / 2 ^ 32))))
      cmd_reg (some cmd)
