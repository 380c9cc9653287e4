-- ===== src/Driver/Mailbox.antt =====
-- A command on its way through the message registers.
use qemu_ntb_switch.Prelude.{
  ℕ, zero, suc, ◌/◌, ◌^◌, ◌≡◌, refl, ap, ◌∙◌, true, false, some, none, Option, test_bit, update,
  u32,
}
use qemu_ntb_switch.Driver.Kernel.{Ntb, Driver}
use qemu_ntb_switch.Driver.Monad.{D, pure, ask}
use qemu_ntb_switch.Driver.Commands.{
  Try, returns, tries_again, after_try, link_is_up, write_message, try_send, send_tries, send_cmd,
  eagain, cmd_reg, data_low_reg, data_high_reg,
}
use qemu_ntb_switch.Driver.Outgoing.{Outgoing, SendsThrough, loaded}

module _ {S H : Type 0} (ntb : Ntb H) (v : Outgoing H) (l : SendsThrough ntb v) where
  -- The message is in the register and nothing was refused.
  accepted :
      (reg x : ℕ) (next : D S H Try) (w : Driver S H)
      → v.outbox w.hw reg ≡ none
      → v.refused w.hw ≡ false
      → (u : Driver S H) × (write_message ntb reg x next w ≡ next u)
        × (v.outbox u.hw ≡ update (v.outbox w.hw) reg (some x))
        × (v.refused u.hw ≡ false)
  unfolding write_message
  accepted reg x next w free ok =
      let a = ask (ntb.ntb_peer_msg_write reg x) w in
      let s = ask ntb.ntb_msg_read_sts a.1 in
      let e = l.write reg x w.hw in
      let q = l.write_accepted reg x w.hw free in
      let r = l.status a.1.hw in
      let k = l.status-Same a.1.hw in
      (s.1, rw (e, r ∙ q ∙ ok) refl, k.outbox ∙ l.write_free reg x w.hw free, k.refused ∙ q ∙ ok)

  -- It is refused where the register is full.
  refused_write :
      (reg x y : ℕ) (next : D S H Try) (w : Driver S H)
      → v.outbox w.hw reg ≡ some y
      → (u : Driver S H) × (write_message ntb reg x next w ≡ (tries_again, u))
        × (v.outbox u.hw ≡ v.outbox w.hw)
        × (v.links u.hw ≡ v.links w.hw)
  unfolding write_message
  refused_write reg x y next w full =
      let a = ask (ntb.ntb_peer_msg_write reg x) w in
      let s = ask ntb.ntb_msg_read_sts a.1 in
      let e = l.write reg x w.hw in
      let q = l.write_refused reg x y w.hw full in
      let r = l.status a.1.hw in
      let k = l.status-Same a.1.hw in
      (
        s.1,
        rw (e, r ∙ q) refl,
        k.outbox ∙ l.write_full reg x y w.hw full,
        k.links ∙ l.write_links reg x w.hw,
      )

  -- The link is looked at and the status is cleared.
  prepared :
      (peer_idx : ℕ) (w : Driver S H)
      → let u = (ask (ntb.ntb_msg_clear_sts ntb.ntb_msg_outbits) (link_is_up ntb peer_idx w).1).1 in
        (v.outbox u.hw ≡ v.outbox w.hw) × (v.refused u.hw ≡ false) × (v.links u.hw ≡ v.links w.hw)
  prepared peer_idx w =
      let h = (ntb.ntb_link_is_up w.hw).1 in
      let s = l.link_is_up-Same w.hw in
      (l.clear_outbox h ∙ s.outbox, l.clear_refused h, l.clear_links h ∙ s.links)

  abbrev writes : ℕ → ℕ → D S H Try
  writes cmd value = write_message ntb data_low_reg (u32 value) (
      write_message ntb data_high_reg (u32 (value / 2 ^ 32))
        (write_message ntb cmd_reg cmd (pure (returns 0))))

  begun :
      (peer_idx cmd value : ℕ) (w : Driver S H)
      → test_bit peer_idx (v.links w.hw) ≡ true
      → (u : Driver S H) × (try_send ntb peer_idx cmd value w ≡ writes cmd value u)
        × (v.outbox u.hw ≡ v.outbox w.hw)
        × (v.refused u.hw ≡ false)
        × (v.links u.hw ≡ v.links w.hw)
  unfolding try_send
  begun peer_idx cmd value w up =
      let h = (ntb.ntb_link_is_up w.hw).1 in
      let u = (ask (ntb.ntb_msg_clear_sts ntb.ntb_msg_outbits) (link_is_up ntb peer_idx w).1).1 in
      let a = l.link_is_up w.hw in
      let p = prepared peer_idx w in (u, rw (a, up, l.clear h) refl, p.0, p.1, p.2)

  all_accepted :
      (cmd value : ℕ) (w : Driver S H)
      → v.refused w.hw ≡ false
      → v.outbox w.hw cmd_reg ≡ none
      → v.outbox w.hw data_low_reg ≡ none
      → v.outbox w.hw data_high_reg ≡ none
      → (u : Driver S H) × (writes cmd value w ≡ (returns 0, u))
        × (v.outbox u.hw ≡ loaded (v.outbox w.hw) cmd value)
  all_accepted cmd value w ok c0 c1 c2 =
      let high = u32 (value / 2 ^ 32) in
      let last : D S H Try = write_message ntb cmd_reg cmd (pure (returns 0)) in
      let (u1, e1, b1, r1) =
        accepted data_low_reg (u32 value) (write_message ntb data_high_reg high last) w c1 ok in
      let (u2, e2, b2, r2) =
        accepted data_high_reg high last u1 (ap (λ (f : ℕ → Option ℕ). f 2) b1 ∙ c2) r1 in
      let b21 = b2 ∙ ap (λ (f : ℕ → Option ℕ). update f 2 (some high)) b1 in
      let (u3, e3, b3, r3) =
        accepted cmd_reg cmd (pure (returns 0)) u2 (ap (λ (f : ℕ → Option ℕ). f 0) b21 ∙ c0) r2 in
      (u3, e1 ∙ e2 ∙ e3, b3 ∙ ap (λ (f : ℕ → Option ℕ). update f 0 (some cmd)) b21)

  last_try :
      (tries peer_idx cmd value ret : ℕ) (w x : Driver S H)
      → try_send ntb peer_idx cmd value w ≡ (returns ret, x)
      → send_tries ntb (suc tries) peer_idx cmd value w ≡ (ret, x)
  unfolding send_tries
  last_try tries peer_idx cmd value ret w x e =
      ap (λ p. after_try p.0 (send_tries ntb tries peer_idx cmd value) p.1) e

  next_try :
      (tries peer_idx cmd value : ℕ) (w x : Driver S H)
      → try_send ntb peer_idx cmd value w ≡ (tries_again, x)
      → send_tries ntb (suc tries) peer_idx cmd value w ≡ send_tries ntb tries peer_idx cmd value x
  unfolding send_tries
  next_try tries peer_idx cmd value w x e =
      ap (λ p. after_try p.0 (send_tries ntb tries peer_idx cmd value) p.1) e

  -- Free registers take the command at the first try.
  pub send_cmd-delivers :
      (peer_idx cmd value : ℕ) (w : Driver S H)
      → test_bit peer_idx (v.links w.hw) ≡ true
      → v.outbox w.hw cmd_reg ≡ none
      → v.outbox w.hw data_low_reg ≡ none
      → v.outbox w.hw data_high_reg ≡ none
      → ((send_cmd ntb peer_idx cmd value w).0 ≡ 0)
        × (v.outbox (send_cmd ntb peer_idx cmd value w).1.hw ≡ loaded (v.outbox w.hw) cmd value)
  unfolding send_cmd
  send_cmd-delivers peer_idx cmd value w up c0 c1 c2 =
      let (u, e, b, r, k) = begun peer_idx cmd value w up in
      let at : (j : ℕ) → v.outbox u.hw j ≡ v.outbox w.hw j =
        λ j. ap (λ (f : ℕ → Option ℕ). f j) b in
      let (x, f, g) = all_accepted cmd value u r (at 0 ∙ c0) (at 1 ∙ c1) (at 2 ∙ c2) in
      let q = last_try 99 peer_idx cmd value 0 w x (e ∙ f) in
      (
        ap (λ p. p.0) q,
        ap (λ p. v.outbox p.1.hw) q ∙ g ∙ ap (λ (f : ℕ → Option ℕ). loaded f cmd value) b,
      )

  -- While the other side does not take the last command, every try is refused.
  gives_up :
      (tries peer_idx cmd value y : ℕ) (w : Driver S H)
      → test_bit peer_idx (v.links w.hw) ≡ true
      → v.outbox w.hw data_low_reg ≡ some y
      → ((send_tries ntb tries peer_idx cmd value w).0 ≡ eagain)
        × (v.outbox (send_tries ntb tries peer_idx cmd value w).1.hw ≡ v.outbox w.hw)
  unfolding send_tries
  gives_up zero peer_idx cmd value y w up full = (refl, refl)
  gives_up (suc tries) peer_idx cmd value y w up full =
      let (u, e, b, r, k) = begun peer_idx cmd value w up in
      let at : (f g : ℕ → Option ℕ) → f ≡ g → f 1 ≡ g 1 =
        λ f g p. ap (λ (f : ℕ → Option ℕ). f 1) p in
      let (x, f, g, m) =
        refused_write data_low_reg (u32 value) y
          (write_message ntb data_high_reg (u32 (value / 2 ^ 32))
            (write_message ntb cmd_reg cmd (pure (returns 0))))
          u (at _ _ b ∙ full) in
      let ih =
        gives_up tries peer_idx cmd value y x (ap (test_bit peer_idx) (m ∙ k) ∙ up)
          (at _ _ (g ∙ b) ∙ full) in
      let q = next_try tries peer_idx cmd value w x (e ∙ f) in
      (ap (λ p. p.0) q ∙ ih.0, ap (λ p. v.outbox p.1.hw) q ∙ ih.1 ∙ g ∙ b)

  -- With registers that behave as the kernel documents and the link up, sending a command while
  -- the register for the low data still holds a message ends after its tries with EAGAIN, and
  -- no register of the other machine changes.
  pub send_cmd-refused :
      (peer_idx cmd value y : ℕ) (w : Driver S H)
      → test_bit peer_idx (v.links w.hw) ≡ true
      → v.outbox w.hw data_low_reg ≡ some y
      → ((send_cmd ntb peer_idx cmd value w).0 ≡ eagain)
        × (v.outbox (send_cmd ntb peer_idx cmd value w).1.hw ≡ v.outbox w.hw)
  unfolding send_cmd
  send_cmd-refused peer_idx cmd value y w up full = gives_up 100 peer_idx cmd value y w up full
