-- ===== src/Driver/Commands.antt =====
-- ntb_idt_sisci_send_cmd and ntb_idt_sisci_recv_cmd: a command and 64 bits of data in three message
-- registers.
use qemu_ntb_switch.Prelude.{
  ℕ, zero, suc, ◌+◌, ◌*◌, ◌/◌, ◌%◌, ◌^◌, Bool, Option, some, none, ltb, not, nonzero, test_bit,
  bit_and, u32, if◌then◌else◌,
}
use qemu_ntb_switch.Driver.Kernel.{Ntb}
use qemu_ntb_switch.Driver.Monad.{D, pure, ask, ◌>>=◌}

abbrev pub cmd_reg : ℕ
cmd_reg = 0

abbrev pub data_low_reg : ℕ
data_low_reg = 1

abbrev pub data_high_reg : ℕ
data_high_reg = 2

-- The numbers of the Linux errors that the drivers return.
abbrev pub eagain : ℕ
eagain = 11

abbrev pub enomem : ℕ
enomem = 12

abbrev pub enolink : ℕ
enolink = 67

-- What one try of the loop comes to: an error or success to return, or another try.
pub data Try : Type 0 where
  returns : ℕ → Try
  tries_again : Try

-- `ntb_link_is_up(...) & BIT_ULL(peer_idx)`
abbrev pub link_is_up : {S H : Type 0} → Ntb H → ℕ → D S H Bool
link_is_up ntb peer_idx = do links ← ask ntb.ntb_link_is_up; pure (test_bit peer_idx links)

-- A write of one register, and what follows where the register was free.
unfoldable pub write_message : {S H : Type 0} → Ntb H → ℕ → ℕ → D S H Try → D S H Try
write_message ntb reg value next = do
  ret ← ask (ntb.ntb_peer_msg_write reg value)
  if nonzero ret then pure (returns ret) else (do
    sts ← ask ntb.ntb_msg_read_sts
    if nonzero (bit_and sts ntb.ntb_msg_outbits) then pure tries_again else next)

unfoldable pub try_send : {S H : Type 0} → Ntb H → ℕ → ℕ → ℕ → D S H Try
try_send ntb peer_idx cmd value = do
  up ← link_is_up ntb peer_idx
  if not up then pure (returns enolink) else (do
    ret ← ask (ntb.ntb_msg_clear_sts ntb.ntb_msg_outbits)
    if nonzero ret
        then pure (returns ret)
        else write_message ntb data_low_reg (u32 value) (
            write_message ntb data_high_reg (u32 (value / 2 ^ 32))
              (write_message ntb cmd_reg cmd (pure (returns 0)))))

-- The end of the loop's body.
abbrev pub after_try : {S H : Type 0} → Try → D S H ℕ → D S H ℕ
after_try (returns ret) rest = pure ret
after_try tries_again rest = rest

-- The loop with the tries that are left; the source has 100.
unfoldable pub send_tries : {S H : Type 0} → Ntb H → ℕ → ℕ → ℕ → ℕ → D S H ℕ
send_tries ntb zero peer_idx cmd value = pure eagain
send_tries ntb (suc tries) peer_idx cmd value = do
  t ← try_send ntb peer_idx cmd value
  after_try t (send_tries ntb tries peer_idx cmd value)

unfoldable pub send_cmd : {S H : Type 0} → Ntb H → ℕ → ℕ → ℕ → D S H ℕ
send_cmd ntb peer_idx cmd value = send_tries ntb 100 peer_idx cmd value

-- The set bits of the lowest `w`.
unfoldable pub hweight : ℕ → ℕ → ℕ
hweight zero x = 0
hweight (suc w) x = x % 2 + hweight w (x / 2)

-- The command and its data, where all three registers are full.
unfoldable pub recv_cmd : {S H : Type 0} → Ntb H → D S H (Option (ℕ × ℕ))
recv_cmd ntb = do
  sts ← ask ntb.ntb_msg_read_sts
  if ltb (hweight 64 (bit_and sts ntb.ntb_msg_inbits)) 3 then pure none else (do
    cmd ← ask (ntb.ntb_msg_read cmd_reg)
    low ← ask (ntb.ntb_msg_read data_low_reg)
    high ← ask (ntb.ntb_msg_read data_high_reg)
    ret ← ask (ntb.ntb_msg_clear_sts ntb.ntb_msg_inbits)
    pure (some (u32 cmd, u32 low + u32 high * 2 ^ 32)))
