-- ===== src/Tools/Decimal.antt =====
-- user_src/ntb_utils.c: a decimal print, and how the digits of a number are read back.
use qemu_ntb_switch.Prelude.{
  ℕ, zero, suc, ◌+◌, ◌/◌, ◌%◌, ◌≤◌, ◌<◌, ◌≡◌, refl, ap, ◌∙◌, Bool-cases, inl, inr, false, true,
  some, [], ◌∷◌, ◌++◌, arith, ltb, ◌==◌, if◌then◌else◌,
}
use qemu_ntb_switch.Tools.Numbers.{
  Text, digit_value, read_digits, read_magnitude, read_signed, prefix_base, is_space, skip_spaces,
}

-- The digits of `n` before `out`; `n` rounds are enough.
unfoldable pub digits_before : ℕ → ℕ → Text → Text
digits_before zero n out = out
digits_before (suc fuel) n out =
    let rest = digits_before fuel (n / 10) ((b'0' + n % 10) ∷ out) in if n == 0 then out else rest

-- `printf("%llu")`
unfoldable pub decimal : ℕ → Text
decimal n = if n == 0 then b'0' ∷ [] else digits_before n n []

digit_of_last : (n : ℕ) → digit_value (b'0' + n % 10) ≡ n % 10
unfolding digit_value
digit_of_last n = ground arith

read_last : (n : ℕ) (s : Text) → read_digits 10 (n / 10) ((b'0' + n % 10) ∷ s) ≡ read_digits 10 n s
unfolding read_digits
read_last n s =
    let lt : ltb (n % 10) 10 ≡ true = ground arith in
    rw (digit_of_last n, lt) (ap (λ m. read_digits 10 m s) (omega arith))

-- The printed digits, read from 0, come to the number.
pub read_digits-before :
    (fuel n : ℕ) (out rest : Text)
    → n ≤ fuel
    → read_digits 10 0 (digits_before fuel n out ++ rest) ≡ read_digits 10 n (out ++ rest)
unfolding digits_before
read_digits-before zero n out rest h = let e : n ≡ 0 = omega arith in rw e refl
read_digits-before (suc fuel) n out rest h = elim (Bool-cases (n == 0)) [
  | inl e ↦ let z : n ≡ 0 = ground arith in rw z refl
  | inr e ↦ rw e (
      read_digits-before fuel (n / 10) ((b'0' + n % 10) ∷ out) rest (ground arith)
      ∙ read_last n (out ++ rest))
]

-- A text that begins with a digit other than 0.
abbrev pub Leads : Text → Type 0
Leads s = (c : ℕ) × (t : Text) × (s ≡ c ∷ t) × (b'1' ≤ c) × (c ≤ b'9')

pub digits_before-Leads :
    (fuel n : ℕ) (out : Text) → 0 < n → n ≤ fuel → Leads (digits_before fuel n out)
unfolding digits_before
digits_before-Leads zero n out pos h = absurd (omega arith)
digits_before-Leads (suc fuel) n out pos h =
    let e : (n == 0) ≡ false = ground arith in
    rw e (elim (Bool-cases (ltb n 10)) [
      | inl small ↦ (
        b'0' + n % 10,
        out,
        let z : n / 10 ≡ 0 = ground arith in rw z (stops fuel ((b'0' + n % 10) ∷ out)),
        ground arith,
        ground arith,
      )
      | inr big ↦
          digits_before-Leads fuel (n / 10) ((b'0' + n % 10) ∷ out) (ground arith) (ground arith)
    ])
  where
    stops : (fuel : ℕ) (out : Text) → digits_before fuel 0 out ≡ out
    stops zero out = refl
    stops (suc fuel) out = refl

prefix_base-leading : (c : ℕ) (s : Text) → b'1' ≤ c → c ≤ b'9' → prefix_base (c ∷ s) ≡ (10, c ∷ s)
unfolding prefix_base
prefix_base-leading c [] lo hi = let e : (c == 48) ≡ false = ground arith in rw e refl
prefix_base-leading c (b ∷ []) lo hi = let e : (c == 48) ≡ false = ground arith in rw e refl
prefix_base-leading c (b ∷ d ∷ s) lo hi = let e : (c == 48) ≡ false = ground arith in rw e refl

-- A number that leads a text is read in base 10.
pub read_signed-leading :
    (c : ℕ) (s : Text)
    → b'1' ≤ c
    → c ≤ b'9'
    → let r = read_digits 10 0 (c ∷ s) in
      read_signed (skip_spaces (c ∷ s))
      ≡ some (record { negative = false; magnitude = r.0; rest = r.1 })
unfolding read_signed skip_spaces is_space read_magnitude
read_signed-leading c s lo hi =
    let e : is_space c ≡ false = ground arith in
    let p : (c == 43) ≡ false = ground arith in
    let m : (c == 45) ≡ false = ground arith in
    let v : ltb (digit_value c) 10 ≡ true = unfold digit_value in (ground arith) in
    rw (e, p, m) (rw (prefix_base-leading c s lo hi) (rw v refl))
