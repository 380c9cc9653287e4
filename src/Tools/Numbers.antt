-- ===== src/Tools/Numbers.antt =====
-- ntb_parse_size_arg and ntb_parse_int_arg of user_src/ntb_utils.c. A text is the list of its bytes,
-- without the final 0.
use qemu_ntb_switch.Prelude.{
  ℕ, ◌+◌, ◌-◌, ◌*◌, ◌/◌, ◌%◌, ◌^◌, Bool, true, false, Option, some, none, List, [], ◌∷◌, ◌&&◌, ◌||◌,
  not, ltb, leb, ◌==◌, nonzero, if◌then◌else◌,
}

abbrev pub Text : Type 0
Text = List ℕ

abbrev pub is_empty : Text → Bool
is_empty [] = true
is_empty (c ∷ s) = false

-- `isspace` and `tolower` of the C locale
unfoldable pub is_space : ℕ → Bool
is_space c = c == 32 || leb 9 c && leb c 13

unfoldable pub to_lower : ℕ → ℕ
to_lower c = if leb 65 c && leb c 90 then c + 32 else c

unfoldable pub skip_spaces : Text → Text
skip_spaces [] = []
skip_spaces (c ∷ s) = if is_space c then skip_spaces s else c ∷ s

-- The value of a digit; 36 for what is none in any base.
unfoldable pub digit_value : ℕ → ℕ
unfolding to_lower
digit_value c =
    if leb 48 c && leb c 57
    then c - 48
    else if leb 97 (to_lower c) && leb (to_lower c) 122
    then to_lower c - 87
    else 36

unfoldable pub read_digits : ℕ → ℕ → Text → ℕ × Text
read_digits base n [] = (n, [])
read_digits base n (c ∷ s) =
    if ltb (digit_value c) base then read_digits base (n * base + digit_value c) s else (n, c ∷ s)

-- The base that base 0 comes to at the start of a number, and where its digits begin.
unfoldable pub prefix_base : Text → ℕ × Text
prefix_base (a ∷ b ∷ c ∷ s) =
    if a == 48
    then (if to_lower b == 120 && ltb (digit_value c) 16 then (16, c ∷ s) else (8, a ∷ b ∷ c ∷ s))
    else (10, a ∷ b ∷ c ∷ s)
prefix_base (a ∷ s) = (if a == 48 then 8 else 10, a ∷ s)
prefix_base [] = (10, [])

-- What `strtoull` and `strtol` with base 0 find: the sign, the magnitude, and the rest.
pub record Literal : Type 0 where
  pub negative : Bool
  pub magnitude : ℕ
  pub rest : Text

-- `none` where there is no digit, so that the end is the start of the text.
unfoldable pub read_magnitude : Bool → ℕ × Text → Option Literal
read_magnitude negative (base, []) = none
read_magnitude negative (base, c ∷ s) =
    if ltb (digit_value c) base
    then (let r = read_digits base 0 (c ∷ s) in
        some (record { negative = negative; magnitude = r.0; rest = r.1 }))
    else none

unfoldable pub read_signed : Text → Option Literal
read_signed [] = none
read_signed (c ∷ s) =
    if c == 45
    then read_magnitude true (prefix_base s)
    else if c == 43
    then read_magnitude false (prefix_base s)
    else read_magnitude false (prefix_base (c ∷ s))

abbrev pub u64_max : ℕ
u64_max = 2 ^ 64 - 1

-- `strtoull`: the magnitude is out of range, or the value on 64 bits.
unfoldable pub unsigned_value : Literal → Option ℕ
unsigned_value l =
    if ltb u64_max l.magnitude
    then none
    else some (if l.negative then (2 ^ 64 - l.magnitude) % 2 ^ 64 else l.magnitude)

-- The cases of the switch.
unfoldable pub multiplier_of : ℕ → Option ℕ
multiplier_of c =
    if to_lower c == b'k'
    then some (2 ^ 10)
    else if to_lower c == b'm'
    then some (2 ^ 20)
    else if to_lower c == b'g'
    then some (2 ^ 30)
    else none

unfoldable pub skip_letter : ℕ → Text → Text
skip_letter l [] = []
skip_letter l (c ∷ s) = if to_lower c == l then s else c ∷ s

-- The multiplier that the text behind the number stands for, if it is well formed.
unfoldable pub scale_of : Text → Option ℕ
scale_of [] = some 1
scale_of (c ∷ s) =
    if is_empty (skip_spaces (skip_letter b'b' (skip_letter b'i' s))) then multiplier_of c else none

unfoldable pub scaled : Option ℕ → Option ℕ → Option ℕ
scaled none m = none
scaled (some base) none = none
scaled (some base) (some m) = if ltb (u64_max / m) base then none else some (base * m)

unfoldable pub size_of_literal : Option Literal → Option ℕ
size_of_literal none = none
size_of_literal (some l) = scaled (unsigned_value l) (scale_of (skip_spaces l.rest))

unfoldable pub parse_size_arg : Text → Option ℕ
parse_size_arg text = size_of_literal (read_signed (skip_spaces text))

-- `strtol` gives an error outside of a long; both bounds of every call are natural numbers.
unfoldable pub int_of_literal : ℕ → ℕ → Option Literal → Option ℕ
int_of_literal min_value max_value none = none
int_of_literal min_value max_value (some l) =
    if ltb (if l.negative then 2 ^ 63 else 2 ^ 63 - 1) l.magnitude
      || (not (is_empty l.rest)
          || (l.negative && nonzero l.magnitude
              || (ltb l.magnitude min_value || ltb max_value l.magnitude)))
    then none
    else some l.magnitude

unfoldable pub parse_int_arg : Text → ℕ → ℕ → Option ℕ
parse_int_arg text min_value max_value =
    int_of_literal min_value max_value (read_signed (skip_spaces text))
