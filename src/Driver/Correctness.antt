-- ===== src/Driver/Correctness.antt =====
-- What an operation preserves of the device structure and of the resources that were taken.
use qemu_ntb_switch.Prelude.{
  ℕ, zero, suc, List, Bool-cases, inl, inr, nonzero, ltb, bit_and, u32, ◌/◌, ◌^◌,
}
use qemu_ntb_switch.Driver.Kernel.{Ntb, ResourceCall, Driver}
use qemu_ntb_switch.Driver.Monad.{D, pure, ask}
use qemu_ntb_switch.Driver.Commands.{
  Try, returns, tries_again, after_try, link_is_up, write_message, try_send, send_tries, send_cmd,
  recv_cmd, hweight, data_low_reg, data_high_reg, cmd_reg,
}

abbrev pub Preserves : {S H A : Type 0} → (S → List ResourceCall → Type 0) → D S H A → Type 0
Preserves {S} {H} {A} G m = (w : Driver S H) → G w.app w.calls → G (m w).1.app (m w).1.calls

module _ {S H : Type 0} (G : S → List ResourceCall → Type 0) (ntb : Ntb H) where
  write_message-Preserves :
      (reg value : ℕ) (next : D S H Try)
      → Preserves G next
      → Preserves G (write_message ntb reg value next)
  unfolding write_message
  write_message-Preserves reg value next p w g =
      let r = ask {S = S} (ntb.ntb_peer_msg_write reg value) w in
      let s = ask ntb.ntb_msg_read_sts r.1 in
      elim (Bool-cases (nonzero r.0)) [
        | inl e ↦ rw e g
        | inr e ↦ rw e (elim (Bool-cases (nonzero (bit_and s.0 ntb.ntb_msg_outbits))) [
          | inl f ↦ rw f g
          | inr f ↦ rw f (p s.1 g)
        ])
      ]

  try_send-Preserves :
      (peer_idx cmd value : ℕ) → Preserves {H = H} G (try_send ntb peer_idx cmd value)
  unfolding try_send
  try_send-Preserves peer_idx cmd value w g =
      let u = link_is_up ntb peer_idx w in
      let r = ask (ntb.ntb_msg_clear_sts ntb.ntb_msg_outbits) u.1 in
      elim (Bool-cases u.0) [
        | inr e ↦ rw e g
        | inl e ↦ rw e (elim (Bool-cases (nonzero r.0)) [
          | inl f ↦ rw f g
          | inr f ↦ rw f (
              write_message-Preserves data_low_reg (u32 value) _
                (write_message-Preserves data_high_reg (u32 (value / 2 ^ 32)) _
                  (write_message-Preserves cmd_reg cmd (pure (returns 0)) (λ w g. g)))
                r.1 g)
        ])
      ]

  send_tries-Preserves :
      (tries peer_idx cmd value : ℕ) → Preserves {H = H} G (send_tries ntb tries peer_idx cmd value)
  unfolding send_tries
  send_tries-Preserves zero peer_idx cmd value w g = g
  send_tries-Preserves (suc tries) peer_idx cmd value w g =
      let t = try_send ntb peer_idx cmd value w in
      let g' = try_send-Preserves peer_idx cmd value w g in
      next t.0 t.1 g' (send_tries-Preserves tries peer_idx cmd value)
    where
      next :
          (t : Try) (w : Driver S H)
          → G w.app w.calls
          → Preserves {H = H} G (send_tries ntb tries peer_idx cmd value)
          → let rest = send_tries ntb tries peer_idx cmd value in
            G (after_try t rest w).1.app (after_try t rest w).1.calls
      next (returns ret) w g ih = g
      next tries_again w g ih = ih w g

  pub send_cmd-Preserves :
      (peer_idx cmd value : ℕ) → Preserves {H = H} G (send_cmd ntb peer_idx cmd value)
  unfolding send_cmd
  send_cmd-Preserves peer_idx cmd value = send_tries-Preserves 100 peer_idx cmd value

  pub recv_cmd-Preserves : Preserves {H = H} G (recv_cmd ntb)
  unfolding recv_cmd
  recv_cmd-Preserves w g =
      let s = ask {S = S} ntb.ntb_msg_read_sts w in
      elim (Bool-cases (ltb (hweight 64 (bit_and s.0 ntb.ntb_msg_inbits)) 3)) [
        | inl e ↦ rw e g
        | inr e ↦ rw e g
      ]
