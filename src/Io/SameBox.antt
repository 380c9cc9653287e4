-- ===== src/Io/SameBox.antt =====
-- Register writes that leave the mailboxes alone.
use qemu_ntb_switch.Prelude.{ℕ, ◌≡◌, refl, Option, some, none, arith, ap, ◌∙◌}
use qemu_ntb_switch.Shm.{Slot, half, BarConfig}
use qemu_ntb_switch.Registers.{GlobalRegister, decode_global, swp0msgctl, segsigsts}
use qemu_ntb_switch.Device.{M, pure, World, Ensures}
use qemu_ntb_switch.Notify.Safety.{Kept, Kept-refl, Kept-trans}
use qemu_ntb_switch.Message.Mailbox.{mailbox, regs_of, SameMail, SameMail-mailbox}
use qemu_ntb_switch.Gas.{write_gasadata, set_nt_mtb_data, write_global}
use qemu_ntb_switch.Io.Effects.{rung, signalled, with_config}

-- A write that keeps the mailbox `j` of `q`, and the device's connection.
abbrev pub SameBox : Slot → ℕ → World → World → Type 0
SameBox q j w w' = (mailbox (regs_of q w') j ≡ mailbox (regs_of q w) j) × Kept w w'

module _ {p : Slot} (w : World) (e : w.dev.slot ≡ some p) (q : Slot) (j : ℕ) where
  pub write_global-SameBox :
      (r : GlobalRegister) (val : ℕ) → Ensures (write_global r val w) (λ _. SameBox q j w)
  unfolding write_global mailbox
  write_global-SameBox (swp0msgctl i) val = ground arith
  write_global-SameBox segsigsts val = ground arith
  write_global-SameBox _ val = (refl, Kept-refl refl)

  pub write_gasadata-SameBox : (val : ℕ) → Ensures (write_gasadata val w) (λ _. SameBox q j w)
  unfolding write_gasadata
  write_gasadata-SameBox val = go (decode_global w.dev.lregs.gasaaddr)
    where
      go :
          (o : Option GlobalRegister)
          → Ensures
              ((elim o as (λ _. M (Unit {0})) [ some r ↦ write_global r val | none ↦ pure tt ]) w)
              (λ _. SameBox q j w)
      go (some r) = write_global-SameBox r val
      go none = (refl, Kept-refl refl)

  pub set_nt_mtb_data-SameBox : (val : ℕ) → Ensures (set_nt_mtb_data val w) (λ _. SameBox q j w)
  unfolding set_nt_mtb_data mailbox
  set_nt_mtb_data-SameBox val = ground arith

  pub with_config-SameBox :
      (p' : Slot) (i : ℕ) (f : BarConfig → BarConfig) → SameBox q j w (with_config p' i f w)
  unfolding mailbox
  with_config-SameBox p' i f = ground arith

  pub rung-SameBox : (val : ℕ) → SameBox q j w (rung p val w)
  unfolding mailbox
  rung-SameBox val = ground arith

  pub signalled-SameBox : SameBox q j w (signalled w)
  unfolding mailbox
  signalled-SameBox = ground arith

pub shm-SameBox :
    (q : Slot) (j : ℕ) (w u w' : World)
    → w'.shm ≡ u.shm
    → Kept u w'
    → SameBox q j w u
    → SameBox q j w w'
shm-SameBox q j w u w' e k b = (ap (λ m. mailbox (half q m).regs j) e ∙ b.0, Kept-trans b.1 k)

pub SameMail-SameBox :
    (q : Slot) (j : ℕ) (w u w' : World) → SameMail u w' → SameBox q j w u → SameBox q j w w'
SameMail-SameBox q j w u w' m b = (SameMail-mailbox u w' q j m ∙ b.0, Kept-trans b.1 m.kept)
