-- ===== src/Tools/Sizes.antt =====
-- user_src/ntb_utils.c: ntb_parse_size_arg reads back every size that is written with a unit.
use qemu_ntb_switch.Prelude.{
  ℕ, ◌*◌, ◌^◌, ◌<◌, ◌≡◌, refl, sym, ap, ◌∙◌, Bool, Bool-cases, inl, inr, false, true, Option, some,
  none, [], ◌∷◌, ◌++◌, arith, ltb, ◌==◌, if◌then◌else◌,
}
use qemu_ntb_switch.Tools.Numbers.{
  Text, Literal, digit_value, to_lower, read_digits, read_magnitude, read_signed, prefix_base,
  is_space, skip_spaces, scaled, scale_of, size_of_literal, unsigned_value, u64_max, parse_size_arg,
  multiplier_of, skip_letter,
}
use qemu_ntb_switch.Tools.Decimal.{
  digits_before, decimal, read_digits-before, digits_before-Leads, read_signed-leading,
}

-- What may stand behind the number: a unit in either case, with `i` and `b` or without them.
pub data Prefix : Type 0 where
  kilo mega giga : Prefix

pub data Suffix : Type 0 where
  bare : Suffix
  scales : Bool → Prefix → Bool → Bool → Suffix

abbrev letter : Bool → Prefix → ℕ
letter upper kilo = if upper then b'K' else b'k'
letter upper mega = if upper then b'M' else b'm'
letter upper giga = if upper then b'G' else b'g'

abbrev ending : Bool → Bool → Text
ending i b = (if i then b'i' ∷ [] else []) ++ (if b then b'B' ∷ [] else [])

abbrev prefix_factor : Prefix → ℕ
prefix_factor kilo = 2 ^ 10
prefix_factor mega = 2 ^ 20
prefix_factor giga = 2 ^ 30

abbrev pub suffix_text : Suffix → Text
suffix_text bare = []
suffix_text (scales upper u i b) = letter upper u ∷ ending i b

abbrev pub factor : Suffix → ℕ
factor bare = 1
factor (scales upper u i b) = prefix_factor u

-- A letter of a unit is neither a blank nor a digit nor the x of a base.
abbrev IsLetter : ℕ → Type 0
IsLetter c =
    (is_space c ≡ false)
    × (ltb (digit_value c) 10 ≡ false)
    × (ltb (digit_value c) 8 ≡ false)
    × ((to_lower c == 120) ≡ false)

letter-IsLetter : (upper : Bool) (u : Prefix) → IsLetter (letter upper u)
unfolding is_space digit_value
letter-IsLetter true kilo = (refl, refl, refl, refl)
letter-IsLetter false kilo = (refl, refl, refl, refl)
letter-IsLetter true mega = (refl, refl, refl, refl)
letter-IsLetter false mega = (refl, refl, refl, refl)
letter-IsLetter true giga = (refl, refl, refl, refl)
letter-IsLetter false giga = (refl, refl, refl, refl)

multiplier_of-letter :
    (upper : Bool) (u : Prefix) → multiplier_of (letter upper u) ≡ some (prefix_factor u)
unfolding multiplier_of to_lower
multiplier_of-letter true kilo = refl
multiplier_of-letter false kilo = refl
multiplier_of-letter true mega = refl
multiplier_of-letter false mega = refl
multiplier_of-letter true giga = refl
multiplier_of-letter false giga = refl

skip-ending : (i b : Bool) → skip_spaces (skip_letter b'b' (skip_letter b'i' (ending i b))) ≡ []
unfolding skip_spaces skip_letter to_lower is_space
skip-ending true true = refl
skip-ending true false = refl
skip-ending false true = refl
skip-ending false false = refl

scale_of-text : (s : Suffix) → scale_of (skip_spaces (suffix_text s)) ≡ some (factor s)
unfolding scale_of skip_spaces
scale_of-text bare = refl
scale_of-text (scales upper u i b) =
    rw ((letter-IsLetter upper u).0) (rw (skip-ending i b) (multiplier_of-letter upper u))

-- No unit begins with a digit.
read_digits-suffix : (n : ℕ) (s : Suffix) → read_digits 10 n (suffix_text s) ≡ (n, suffix_text s)
unfolding read_digits
read_digits-suffix n bare = refl
read_digits-suffix n (scales upper u i b) = rw ((letter-IsLetter upper u).1) refl

found : ℕ → Suffix → Option Literal
found n s = some (record { negative = false; magnitude = n; rest = suffix_text s })

read_positive :
    (n : ℕ) (s : Suffix)
    → 0 < n
    → read_signed (skip_spaces (digits_before n n [] ++ suffix_text s)) ≡ found n s
unfolding found
read_positive n s pos =
    let (c, t, e, lo, hi) = digits_before-Leads n n [] pos (omega arith) in
    let l = read_signed-leading c (t ++ suffix_text s) lo hi in
    let p : read_digits 10 0 ((c ∷ t) ++ suffix_text s) ≡ (n, suffix_text s) =
      ap (λ x. read_digits 10 0 (x ++ suffix_text s)) (sym e)
      ∙ read_digits-before n n [] (suffix_text s) (omega arith)
      ∙ read_digits-suffix n s in
    rw e (l ∙ ap (λ r. some (record { negative = false; magnitude = r.0; rest = r.1 })) p)

octal : (c : ℕ) (t : Text) → IsLetter c → prefix_base (48 ∷ c ∷ t) ≡ (8, 48 ∷ c ∷ t)
unfolding prefix_base
octal c [] l = refl
octal c (d ∷ t) l = rw (l.3) refl

read_zero : (s : Suffix) → read_signed (skip_spaces (b'0' ∷ suffix_text s)) ≡ found 0 s
unfolding found read_signed skip_spaces is_space read_magnitude read_digits
read_zero bare = unfold prefix_base digit_value in refl
read_zero (scales upper u i b) =
    let l = letter-IsLetter upper u in
    let z : digit_value 48 ≡ 0 = unfold digit_value in refl in
    rw (octal (letter upper u) (ending i b) l) (rw z (rw (l.2) refl))

read_decimal :
    (n : ℕ) (s : Suffix) → read_signed (skip_spaces (decimal n ++ suffix_text s)) ≡ found n s
unfolding decimal
read_decimal n s = elim (Bool-cases (n == 0)) [
  | inl e ↦ rw e (let z : n ≡ 0 = ground arith in rw z (read_zero s))
  | inr e ↦ rw e (read_positive n s (ground arith))
]

scaled-eq :
    (n : ℕ) (s : Suffix)
    → scaled (if ltb u64_max n then none else some n) (some (factor s))
      ≡ (if ltb u64_max (n * factor s) then none else some (n * factor s))
unfolding scaled
scaled-eq n bare = ground arith
scaled-eq n (scales upper kilo i b) = ground arith
scaled-eq n (scales upper mega i b) = ground arith
scaled-eq n (scales upper giga i b) = ground arith

-- A number that is printed in decimal, followed by nothing or by k, m or g in either case with
-- `i` and `B` or without them, is parsed to the number times its unit, and is refused exactly
-- where this does not fit 64 bits.
pub parse_size_arg-decimal :
    (n : ℕ) (s : Suffix)
    → parse_size_arg (decimal n ++ suffix_text s)
      ≡ (if ltb u64_max (n * factor s) then none else some (n * factor s))
unfolding parse_size_arg size_of_literal unsigned_value found
parse_size_arg-decimal n s = rw (read_decimal n s, scale_of-text s) (scaled-eq n s)
