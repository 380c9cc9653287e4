-- ===== src/Prelude/Bits.antt =====
-- Single bits of machine words: `&`, `|` and `~` of C, read bit by bit.
use Prim.Native.Nat.{
  ℕ, zero, suc, ◌+◌, ◌-◌, ◌*◌, ◌/◌, ◌%◌, ◌^◌, ◌≤◌, ◌<◌, min, max, bit_and, bit_or, digits,
  bit_and-bitwise, bit_or-bitwise,
}
use mathlib.Core.Path.{◌≡◌, refl, ap, ◌∙◌}
use mathlib.Core.Logic.{◌⊎◌, inl, inr}
use mathlib.Core.Bool.{Bool, false, not, ◌&&◌, ◌||◌}
use native.Mathlib.Omega.{arith}
use native.Mathlib.Nat.{pow-suc}
use qemu_ntb_switch.Prelude.Tests.{◌==◌, nonzero}

abbrev pub u16 : ℕ → ℕ
u16 n = n % 2 ^ 16

abbrev pub u32 : ℕ → ℕ
u32 n = n % 2 ^ 32

abbrev pub u64 : ℕ → ℕ
u64 n = n % 2 ^ 64

-- Bit `k` of a word.
unfoldable pub test_bit : ℕ → ℕ → Bool
test_bit zero x = x % 2 == 1
test_bit (suc k) x = test_bit k (x / 2)

-- `~x` in a word of `w` bits.
unfoldable pub complement : ℕ → ℕ → ℕ
complement zero x = 0
complement (suc w) x = complement w (x / 2) * 2 + (1 - x % 2)

le_zero : (x : ℕ) → x ≤ 0 → x ≡ 0
le_zero x h = omega arith

le-cases : (x n : ℕ) → x ≤ suc n → (x ≡ suc n) ⊎ (x ≤ n)
le-cases x n h = ground arith

-- The native operations run a recursion on digits with as much fuel as the first number. What it
-- gives does not change with more fuel, so that a digit can be taken off.
module _ (z : ℕ → ℕ) (f : ℕ → ℕ → ℕ) where
  one_more : (fuel x y : ℕ) → x ≤ fuel → digits z f (suc fuel) x y ≡ digits z f fuel x y
  one_more zero x y h = rw (le_zero x h) refl
  one_more (suc fuel) zero y h = refl
  one_more (suc fuel) (suc x) y h = rw (one_more fuel (suc x / 2) (y / 2) (omega arith)) refl

  spare : (fuel x y : ℕ) → x ≤ fuel → digits z f fuel x y ≡ digits z f x x y
  spare zero x y h = rw (le_zero x h) refl
  spare (suc fuel) x y h = elim (le-cases x fuel h) [
    | inl e ↦ rw e refl
    | inr below ↦ one_more fuel x y below ∙ spare fuel x y below
  ]

  lowest_digit :
      (x y : ℕ)
      → digits z f (suc x) (suc x) y
        ≡ digits z f (suc x / 2) (suc x / 2) (y / 2) * 2 + f (suc x % 2) (y % 2)
  lowest_digit x y =
      ap (λ v. v * 2 + f (suc x % 2) (y % 2)) (spare x (suc x / 2) (y / 2) (omega arith))

bit_or_digit : (x y : ℕ) → bit_or x y ≡ 2 * bit_or (x / 2) (y / 2) + max (x % 2) (y % 2)
bit_or_digit zero y = simp bit_or-bitwise (omega arith)
bit_or_digit (suc x) y = omega (
  arith,
  bit_or-bitwise (suc x) y,
  bit_or-bitwise (suc x / 2) (y / 2),
  lowest_digit (λ v. v) max x y,
)

bit_and_digit : (x y : ℕ) → bit_and x y ≡ 2 * bit_and (x / 2) (y / 2) + min (x % 2) (y % 2)
bit_and_digit zero y = simp bit_and-bitwise (omega arith)
bit_and_digit (suc x) y = omega (
  arith,
  bit_and-bitwise (suc x) y,
  bit_and-bitwise (suc x / 2) (y / 2),
  lowest_digit (λ _. 0) min x y,
)

bit_and_half : (a b : ℕ) → bit_and a b / 2 ≡ bit_and (a / 2) (b / 2)
bit_and_half a b = omega (arith, bit_and_digit a b)

bit_or_half : (a b : ℕ) → bit_or a b / 2 ≡ bit_or (a / 2) (b / 2)
bit_or_half a b = omega (arith, bit_or_digit a b)

pub test_bit-bit_and : (k a b : ℕ) → test_bit k (bit_and a b) ≡ (test_bit k a && test_bit k b)
unfolding test_bit
test_bit-bit_and zero a b = ground (arith, bit_and_digit a b)
test_bit-bit_and (suc k) a b = rw (bit_and_half a b) (test_bit-bit_and k (a / 2) (b / 2))

pub test_bit-bit_or : (k a b : ℕ) → test_bit k (bit_or a b) ≡ (test_bit k a || test_bit k b)
unfolding test_bit
test_bit-bit_or zero a b = ground (arith, bit_or_digit a b)
test_bit-bit_or (suc k) a b = rw (bit_or_half a b) (test_bit-bit_or k (a / 2) (b / 2))

complement_half : (w a : ℕ) → complement (suc w) a / 2 ≡ complement w (a / 2)
unfolding complement
complement_half w a = omega arith

pub test_bit-complement : (k w a : ℕ) → k < w → test_bit k (complement w a) ≡ not (test_bit k a)
unfolding test_bit
test_bit-complement zero zero a h = absurd (omega arith)
test_bit-complement zero (suc w) a h = unfold complement in (ground arith)
test_bit-complement (suc k) zero a h = absurd (omega arith)
test_bit-complement (suc k) (suc w) a h =
    rw (complement_half w a) (test_bit-complement k w (a / 2) (omega arith))

test_bit-zero : (k : ℕ) → test_bit k 0 ≡ false
unfolding test_bit
test_bit-zero zero = refl
test_bit-zero (suc k) = test_bit-zero k

pow_half : (j : ℕ) → 2 ^ suc j / 2 ≡ 2 ^ j
pow_half j = omega (arith, pow-suc 2 j)

pub test_bit-pow : (k j : ℕ) → test_bit k (2 ^ j) ≡ (k == j)
unfolding test_bit
test_bit-pow zero zero = refl
test_bit-pow zero (suc j) = ground (arith, pow-suc 2 j)
test_bit-pow (suc k) zero = ground (arith, test_bit-zero k)
test_bit-pow (suc k) (suc j) = rw (pow_half j) (ground (arith, test_bit-pow k j))

no_common_bit : (a bound : ℕ) → a < bound → bit_and a 0 ≡ 0
no_common_bit zero bound lt = refl
no_common_bit (suc a) zero lt = absurd (omega arith)
no_common_bit (suc a) (suc bound) lt =
    omega (arith, bit_and_digit (suc a) 0, no_common_bit (suc a / 2) bound (omega arith))

pub bit_and-zero : (a : ℕ) → bit_and a 0 ≡ 0
bit_and-zero a = no_common_bit a (a + 1) (omega arith)

-- The test `x & (1 << k)` of C reads bit `k`.
pub nonzero-bit_and-pow : (k x : ℕ) → nonzero (bit_and x (2 ^ k)) ≡ test_bit k x
unfolding test_bit
nonzero-bit_and-pow zero x = ground (arith, bit_and_digit x 1, bit_and-zero (x / 2))
nonzero-bit_and-pow (suc k) x =
    ground
      (arith, bit_and_digit x (2 ^ suc k), pow-suc 2 k, pow_half k, nonzero-bit_and-pow k (x / 2))

pub zero-bit_and : (b : ℕ) → bit_and 0 b ≡ 0
zero-bit_and b = bit_and-bitwise 0 b
