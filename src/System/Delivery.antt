-- ===== src/System/Delivery.antt =====
-- A message stays in its register until the receiving guest clears the register's status bit.
use qemu_ntb_switch.Prelude.{
  ℕ, ◌+◌, ◌<◌, ◌≡◌, refl, sym, ap, ◌∙◌, Bool, false, ◌&&◌, Option, some, none, arith, test_bit,
}
use qemu_ntb_switch.Shm.{SharedRegisters, Slot, first, second, half, other}
use qemu_ntb_switch.Registers.{
  ConfigRegister, HasIndex, address, outmsg, inmsg, inmsgsrc, msgsts, decode-address,
}
use qemu_ntb_switch.Device.{World, Result, Ensures, ok}
use qemu_ntb_switch.Notify.Safety.{PeersFit, Kept}
use qemu_ntb_switch.Message.Mailbox.{mailbox, regs_of}
use qemu_ntb_switch.Window.{Host}
use qemu_ntb_switch.Io.{write_register, read_register, ivshmem_io_write, ivshmem_io_read}
use qemu_ntb_switch.Io.Effects.{Legal}
use qemu_ntb_switch.Io.Mail.{mail_after, write_register-Mails, same_slot}
use qemu_ntb_switch.System.Defs.{System, dev_of, world_of, with_world, IsConnected}

-- The message in the register `j` of the machine `q`.
abbrev pub box : Slot → ℕ → System → Option (ℕ × ℕ)
box q j s = mailbox (half q s.shm).regs j

connected_slot : (p : Slot) {s : System} → IsConnected s → (dev_of p s).slot ≡ some p
connected_slot first c = c.slot1
connected_slot second c = c.slot2

connected_fit : (p : Slot) {s : System} → IsConnected s → PeersFit (dev_of p s)
connected_fit first c = c.fit1
connected_fit second c = c.fit2

Ensures-ok :
    (m : Result (Unit {0})) (w : World) (P : Unit {0} → World → Type 0)
    → m ≡ ok tt w
    → Ensures m P
    → P tt w
Ensures-ok m w P e h = rw e at h

-- The write of a machine's own MSGSTS with the bit of the message register `j`.
unfoldable pub takes : Slot → ConfigRegister → ℕ → Slot → ℕ → Bool
unfolding same_slot
takes p msgsts val q j = same_slot q p && test_bit (16 + j) val
takes p _ val q j = false

half-with_world :
    (p q : Slot) (w : World) (s : System) → half q (with_world p w s).shm ≡ half q w.shm
half-with_world first q w s = refl
half-with_world second q w s = refl

full_stays :
    (p : Slot) (r : ConfigRegister) (val : ℕ) (q : Slot) (j : ℕ) (w : World) (m : ℕ × ℕ)
    → takes p r val q j ≡ false
    → mailbox (regs_of q w) j ≡ some m
    → mail_after p r val q j w ≡ some m
unfolding takes mail_after
full_stays p msgsts val q j w m t e = rw t e
full_stays p (outmsg k) val q j w m t e = ground (arith)
full_stays p _ val q j w m t e = e

module _ (h : Host) (q : Slot) (j : ℕ) where
  -- Any register writes of both guests, but for the one that empties the register.
  pub data Run (s : System) : System → Type 0 where
    here : Run s s
    next :
        {t : System}
        → Run s t
        → (p : Slot) (r : ConfigRegister) (val : ℕ) (w : World) → takes p r val q j ≡ false
        → Legal r val (world_of p t)
        → write_register h r val (world_of p t) ≡ ok tt w
        → Run s (with_world p w t)

PeersFit-Kept : (w w' : World) → Kept w w' → PeersFit w.dev → PeersFit w'.dev
PeersFit-Kept w w' k fit i = rw (k.peers, k.nb_peers) (fit i)

IsConnected-Kept :
    (p : Slot) (s : System) (w : World)
    → IsConnected s
    → Kept (world_of p s) w
    → IsConnected (with_world p w s)
IsConnected-Kept first s w c k = record {
  slot1 = k.slot ∙ c.slot1;
  slot2 = c.slot2;
  fit1 = PeersFit-Kept (world_of first s) w k c.fit1;
  fit2 = c.fit2;
}
IsConnected-Kept second s w c k = record {
  slot1 = c.slot1;
  slot2 = k.slot ∙ c.slot2;
  fit1 = c.fit1;
  fit2 = PeersFit-Kept (world_of second s) w k c.fit2;
}

module _ (h : Host) (q : Slot) (j : ℕ) (lt : j < 4) where
  -- What one accepted register write does, at the level of both machines.
  write_effect :
      (p : Slot) (r : ConfigRegister) (val : ℕ) (s : System) (w : World)
      → IsConnected s
      → Legal r val (world_of p s)
      → write_register h r val (world_of p s) ≡ ok tt w
      → (mailbox (regs_of q w) j ≡ mail_after p r val q j (world_of p s)) × Kept (world_of p s) w
  write_effect p r val s w c legal e =
      Ensures-ok (write_register h r val (world_of p s)) w
        (λ _ w'.
          (mailbox (regs_of q w') j ≡ mail_after p r val q j (world_of p s))
          × Kept (world_of p s) w')
        e
        (write_register-Mails h r val p q j (world_of p s) (connected_fit p c) (connected_slot p c)
          legal lt)

  write-IsConnected :
      (p : Slot) (r : ConfigRegister) (val : ℕ) (s : System) (w : World)
      → IsConnected s
      → Legal r val (world_of p s)
      → write_register h r val (world_of p s) ≡ ok tt w
      → IsConnected (with_world p w s)
  write-IsConnected p r val s w c legal e =
      IsConnected-Kept p s w c (write_effect p r val s w c legal e).1

  Run-IsConnected : {s t : System} → IsConnected s → Run h q j s t → IsConnected t
  Run-IsConnected c here = c
  Run-IsConnected c (next {t} run p r val w no_take legal e) =
      write-IsConnected p r val t w (Run-IsConnected c run) legal e

  -- With both devices connected and their peers having room, a message that waits in a register
  -- is still there, unchanged, after any run of accepted legal register writes by both guests
  -- that does not clear the register's status bit.
  pub Run-keeps-message :
      {s t : System} (m : ℕ × ℕ)
      → IsConnected s
      → Run h q j s t
      → box q j s ≡ some m
      → box q j t ≡ some m
  Run-keeps-message m c here full = full
  Run-keeps-message m c (next {t} run p r val w no_take legal e) full =
      ap (λ v. mailbox v.regs j) (half-with_world p q w t)
      ∙ (write_effect p r val t w (Run-IsConnected c run) legal e).0
      ∙ full_stays p r val q j (world_of p t) m no_take (Run-keeps-message m c run full)

pub io_write-address :
    (h : Host) (r : ConfigRegister) (val : ℕ) (w : World)
    → HasIndex r
    → ivshmem_io_write h (address r) val w ≡ write_register h r val w
unfolding ivshmem_io_write
io_write-address h r val w i = rw (decode-address r i, ivshmem_io_write)

pub io_read-address :
    (h : Host) (r : ConfigRegister) (w : World)
    → HasIndex r
    → ivshmem_io_read h (address r) w ≡ read_register h r w
unfolding ivshmem_io_read
io_read-address h r w i = rw (decode-address r i, ivshmem_io_read)

mailbox-fields :
    (r : SharedRegisters) (j a b : ℕ)
    → mailbox r j ≡ some (a, b)
    → (r.msg j ≡ a) × (r.inb_msg_src j ≡ b)
unfolding mailbox
mailbox-fields r j a b e = ground arith

read_inmsg :
    (h : Host) (q : Slot) (j : ℕ) (w : World)
    → w.dev.slot ≡ some q
    → (read_register h (inmsg j) w ≡ ok ((regs_of q w).msg j) w)
      × (read_register h (inmsgsrc j) w ≡ ok ((regs_of q w).inb_msg_src j) w)
unfolding read_register
read_inmsg h q j w e = (rw e, rw e)

posted :
    (p : Slot) (j val : ℕ) (w : World)
    → mailbox (regs_of (other p) w) j ≡ none
    → mail_after p (outmsg j) val (other p) j w ≡ some (val, (regs_of p w).inbound_mw_part)
unfolding mail_after
posted first j val w free = ground arith
posted second j val w free = ground arith

-- With both devices connected and their peers having room, a message that a guest's accepted
-- write puts into a free message register of the other machine is what the other guest reads in
-- that register, with the writer's partition as its source, after any run of accepted legal
-- register writes by both guests that does not clear the register's status bit.
pub message_delivered :
    (h : Host) (p : Slot) (j val : ℕ) {s t : System} (w : World)
    → j < 4
    → IsConnected s
    → box (other p) j s ≡ none
    → ivshmem_io_write h (address (outmsg j)) val (world_of p s) ≡ ok tt w
    → Run h (other p) j (with_world p w s) t
    → (ivshmem_io_read h (address (inmsg j)) (world_of (other p) t) ≡ ok val (world_of (other p) t))
      × (ivshmem_io_read h (address (inmsgsrc j)) (world_of (other p) t)
          ≡ ok (half p s.shm).regs.inbound_mw_part (world_of (other p) t))
message_delivered h p j val {s} {t} w lt c free e run =
    let part : ℕ = (half p s.shm).regs.inbound_mw_part in
    let e' : write_register h (outmsg j) val (world_of p s) ≡ ok tt w =
      sym (io_write-address h (outmsg j) val (world_of p s) lt) ∙ e in
    let sent : box (other p) j (with_world p w s) ≡ some (val, part) =
      ap (λ v. mailbox v.regs j) (half-with_world p (other p) w s)
      ∙ (write_effect h (other p) j lt p (outmsg j) val s w c lt e').0
      ∙ posted p j val (world_of p s) free in
    let c' = write-IsConnected h (other p) j lt p (outmsg j) val s w c lt e' in
    let kept = Run-keeps-message h (other p) j lt (val, part) c' run sent in
    let c'' = Run-IsConnected h (other p) j lt c' run in
    let fields = mailbox-fields (half (other p) t.shm).regs j val part kept in
    let reads = read_inmsg h (other p) j (world_of (other p) t) (connected_slot (other p) c'') in
    (
      io_read-address h (inmsg j) (world_of (other p) t) lt
          ∙ reads.0
          ∙ ap (λ v. ok v (world_of (other p) t)) fields.0,
      io_read-address h (inmsgsrc j) (world_of (other p) t) lt
          ∙ reads.1
          ∙ ap (λ v. ok v (world_of (other p) t)) fields.1,
    )
