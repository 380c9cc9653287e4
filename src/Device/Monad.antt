-- ===== src/Device/Monad.antt =====
-- Operations that read and write the world, and that a bad memory access or an `assert` stops.
use qemu_ntb_switch.Prelude.{ℕ, Bool, Option, none, some, ◌∷◌, if◌then◌else◌, ltb, update}
use qemu_ntb_switch.Shm.{
  GlobalRegisters, SharedRegisters, VmShmStorage, BarConfig, Slot, other, half, set_half,
}
use qemu_ntb_switch.Device.State.{
  IvshmemState, Eventfds, null, freed, allocated, Call, event_notifier_set, World,
}

-- What ends the process, or is undefined in C.
pub data Fault : Type 0 where
  null_pointer out_of_bounds use_after_free double_free assertion : Fault

pub data Result (A : Type 0) : Type 0 where
  ok : A → World → Result A
  fault : Fault → Result A

abbrev pub M : Type 0 → Type 0
M A = World → Result A

abbrev pub pure : {A : Type 0} → A → M A
pure a w = ok a w

abbrev pub fail : {A : Type 0} → Fault → M A
fail e w = fault e

infixl 5 ◌>>=◌ ◌>>◌
abbrev pub ◌>>=◌ : {A B : Type 0} → M A → (A → M B) → M B
◌>>=◌ m f w = elim (m w) [ ok a w' ↦ f a w' | fault e ↦ fault e ]

abbrev pub ◌>>◌ : {B : Type 0} → M (Unit {0}) → M B → M B
m >> k = m >>= λ _. k

abbrev pub when : Bool → M (Unit {0}) → M (Unit {0})
when b m = if b then m else pure tt

abbrev pub assert : Bool → M (Unit {0})
assert b = if b then pure tt else fail assertion

-- The device, `s` in the source.
abbrev pub get_dev : M IvshmemState
get_dev w = ok w.dev w

abbrev pub put_dev : IvshmemState → M (Unit {0})
put_dev d w = ok tt (record w { dev = d })

abbrev pub call : Call → M (Unit {0})
call c w = ok tt (record w { calls = c ∷ w.calls })

abbrev pub require : {A : Type 0} → Option A → M A
require none = fail null_pointer
require (some a) = pure a

-- The pointers into the shared memory: reading through them, and writing.
abbrev pub get_slot : M Slot
get_slot w = require w.dev.slot w

abbrev pub get_half : Slot → M VmShmStorage
get_half p w = ok (half p w.shm) w

abbrev pub put_half : Slot → VmShmStorage → M (Unit {0})
put_half p v w = ok tt (record w { shm = set_half p v w.shm })

abbrev pub get_gregs : M GlobalRegisters
get_gregs w = ok w.shm.gregs w

abbrev pub put_gregs : GlobalRegisters → M (Unit {0})
put_gregs g w = ok tt (record w { shm = record w.shm { gregs = g } })

-- `s->regs` and `s->peer_regs`
abbrev pub get_regs : M SharedRegisters
get_regs = do p ← get_slot; v ← get_half p; pure v.regs

abbrev pub put_regs : SharedRegisters → M (Unit {0})
put_regs r = do p ← get_slot; v ← get_half p; put_half p (record v { regs = r })

abbrev pub get_peer_regs : M SharedRegisters
get_peer_regs = do p ← get_slot; v ← get_half (other p); pure v.regs

abbrev pub put_peer_regs : SharedRegisters → M (Unit {0})
put_peer_regs r = do
  p ← get_slot
  v ← get_half (other p)
  put_half (other p) (record v { regs = r })

-- `s->bar_config[idx]` and `s->peer_bar_config[idx]`
abbrev pub get_bar_config : ℕ → M BarConfig
get_bar_config idx = do
  p ← get_slot
  v ← get_half p
  if ltb idx 6 then pure (v.bar_config idx) else fail out_of_bounds

abbrev pub put_bar_config_of : Slot → ℕ → BarConfig → M (Unit {0})
put_bar_config_of p idx c = do
  v ← get_half p
  if ltb idx 6
      then put_half p (record v { bar_config = update v.bar_config idx c })
      else fail out_of_bounds

-- The notifier `s->peers[posn].eventfds[vector]`.
unfoldable pub check_eventfds : Eventfds → ℕ → M (Unit {0})
check_eventfds null vector = fail null_pointer
check_eventfds freed vector = fail use_after_free
check_eventfds (allocated n) vector = if ltb vector n then pure tt else fail out_of_bounds

unfoldable pub check_notifier : ℕ → ℕ → M (Unit {0})
unfolding check_eventfds
check_notifier posn vector = do
  s ← get_dev
  if ltb posn s.nb_peers then check_eventfds (s.peers posn).eventfds vector else fail out_of_bounds

unfoldable pub notify : ℕ → ℕ → M (Unit {0})
unfolding check_notifier
notify posn vector = do check_notifier posn vector; call (event_notifier_set posn vector)
