-- ===== src/Prelude/Int.antt =====
-- Signed integers over the native numbers, and the conversions of C.
use Prim.Native.Nat.{ℕ, ◌-◌, ◌%◌, ◌^◌}
use qemu_ntb_switch.Prelude.Tests.{ltb, if◌then◌else◌}

-- `negsuc n` is -(n + 1).
pub data ℤ : Type 0 where
  pos : ℕ → ℤ
  negsuc : ℕ → ℤ

-- The signed integer whose two's complement in `w` bits is `n`.
abbrev pub to_signed : ℕ → ℕ → ℤ
to_signed w n = let m = n % 2 ^ w in if ltb m (2 ^ (w - 1)) then pos m else negsuc (2 ^ w - 1 - m)
