-- ===== src/Driver/RoundTrip.antt =====
-- A command that one driver sends is the command that the other receives.
use qemu_ntb_switch.Prelude.{
  ℕ, ◌+◌, ◌*◌, ◌/◌, ◌^◌, ◌<◌, ◌≤◌, ◌≡◌, refl, ap, ◌∙◌, true, false, none, some, Option, arith,
  test_bit, bit_and, u32, ltb,
}
use qemu_ntb_switch.Driver.Kernel.{Ntb, Driver}
use qemu_ntb_switch.Driver.Monad.{ask}
use qemu_ntb_switch.Driver.Commands.{
  send_cmd, recv_cmd, hweight, cmd_reg, data_low_reg, data_high_reg,
}
use qemu_ntb_switch.Driver.Outgoing.{Outgoing, SendsThrough, loaded}
use qemu_ntb_switch.Driver.Mailbox.{send_cmd-delivers}

-- The registers that a side reads. A status bit stands for each full one, and clearing the status
-- frees them.
pub record ReceivesThrough {H : Type 0} (ntb : Ntb H) (inbox : H → ℕ → Option ℕ) : Type 0 where
  pub arrived :
      (a b c : ℕ) (h : H)
      → inbox h 0 ≡ some a
      → inbox h 1 ≡ some b
      → inbox h 2 ≡ some c
      → 3 ≤ hweight 64 (bit_and (ntb.ntb_msg_read_sts h).0 ntb.ntb_msg_inbits)
  pub status : (h : H) → inbox (ntb.ntb_msg_read_sts h).1 ≡ inbox h
  pub read : (r x : ℕ) (h : H) → inbox h r ≡ some x → (ntb.ntb_msg_read r h).0 ≡ x
  pub read_inbox : (r : ℕ) (h : H) → inbox (ntb.ntb_msg_read r h).1 ≡ inbox h
  pub clear : (r : ℕ) (h : H) → inbox (ntb.ntb_msg_clear_sts ntb.ntb_msg_inbits h).1 r ≡ none

module _ {S H : Type 0} (ntb : Ntb H) (inbox : H → ℕ → Option ℕ)
    (l : ReceivesThrough ntb inbox) where
  receives :
      (a b c : ℕ) (w : Driver S H)
      → inbox w.hw 0 ≡ some a
      → inbox w.hw 1 ≡ some b
      → inbox w.hw 2 ≡ some c
      → ((recv_cmd ntb w).0 ≡ some (u32 a, u32 b + u32 c * 2 ^ 32))
        × ((r : ℕ) → inbox (recv_cmd ntb w).1.hw r ≡ none)
  unfolding recv_cmd
  receives a b c w e0 e1 e2 =
      let s = ask ntb.ntb_msg_read_sts w in
      let r0 = ask (ntb.ntb_msg_read cmd_reg) s.1 in
      let r1 = ask (ntb.ntb_msg_read data_low_reg) r0.1 in
      let f = l.arrived a b c w.hw e0 e1 e2 in
      let full : ltb (hweight 64 (bit_and s.0 ntb.ntb_msg_inbits)) 3 ≡ false = ground arith in
      let i0 = l.status w.hw in
      let i1 = l.read_inbox 0 s.1.hw ∙ i0 in
      let i2 = l.read_inbox 1 r0.1.hw ∙ i1 in
      let q0 = l.read 0 a s.1.hw (ap (λ (f : ℕ → Option ℕ). f 0) i0 ∙ e0) in
      let q1 = l.read 1 b r0.1.hw (ap (λ (f : ℕ → Option ℕ). f 1) i1 ∙ e1) in
      let q2 = l.read 2 c r1.1.hw (ap (λ (f : ℕ → Option ℕ). f 2) i2 ∙ e2) in
      rw full (rw (q0, q1, q2) refl, λ r. l.clear r _)

joined : (x : ℕ) → x < 2 ^ 64 → u32 (u32 x) + u32 (u32 (x / 2 ^ 32)) * 2 ^ 32 ≡ x
joined x lt = omega arith

whole : (x : ℕ) → x < 2 ^ 32 → u32 x ≡ x
whole x lt = omega arith

module _ {S T G H : Type 0} (out : Ntb G) (v : Outgoing G) (sends : SendsThrough out v)
    (into : Ntb H) (inbox : H → ℕ → Option ℕ) (takes : ReceivesThrough into inbox) where
  -- With registers that behave as the kernel documents, the link up and the three registers
  -- free, sending a 32-bit command with 64 bits of data succeeds, the driver that reads these
  -- registers receives the same command and the same data, and its registers are free again.
  pub recv_cmd-send_cmd :
      (peer_idx cmd value : ℕ) (w : Driver S G) (u : Driver T H)
      → cmd < 2 ^ 32
      → value < 2 ^ 64
      → test_bit peer_idx (v.links w.hw) ≡ true
      → v.outbox w.hw cmd_reg ≡ none
      → v.outbox w.hw data_low_reg ≡ none
      → v.outbox w.hw data_high_reg ≡ none
      → inbox u.hw ≡ v.outbox (send_cmd out peer_idx cmd value w).1.hw
      → ((send_cmd out peer_idx cmd value w).0 ≡ 0)
        × ((recv_cmd into u).0 ≡ some (cmd, value))
        × ((r : ℕ) → inbox (recv_cmd into u).1.hw r ≡ none)
  recv_cmd-send_cmd peer_idx cmd value w u word dword up c0 c1 c2 wire =
      let (done, box) = send_cmd-delivers out v sends peer_idx cmd value w up c0 c1 c2 in
      let at : (j : ℕ) → inbox u.hw j ≡ loaded (v.outbox w.hw) cmd value j =
        λ j. ap (λ (f : ℕ → Option ℕ). f j) (wire ∙ box) in
      let (got, empty) =
        receives into inbox takes cmd (u32 value) (u32 (value / 2 ^ 32)) u (at 0) (at 1) (at 2) in
      (done, got ∙ rw (whole cmd word, joined value dword) refl, empty)
