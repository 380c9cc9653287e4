-- ===== src/Tools/Admissible.antt =====
-- user_src/ntb_profiling.c: what every accepted command line comes to.
use qemu_ntb_switch.Prelude.{
  ℕ, ◌^◌, ◌≤◌, ◌<◌, ◌≡◌, refl, Bool-cases, inl, inr, Option, some, none, List, [], ◌∷◌, ◌||◌, not,
  ltb, leb, ◌==◌, length, arith,
}
use qemu_ntb_switch.Tools.Numbers.{
  Text, Literal, parse_size_arg, parse_int_arg, u64_max, size_of_literal, int_of_literal, scaled,
  read_signed, skip_spaces, unsigned_value, scale_of,
}
use qemu_ntb_switch.Tools.Options.{
  Options, Parsed, accepted, rejected, helped, ParseState, Flag, role_flag, help_flag,
  no_modprobe_flag, Key, backend_key, device_key, segment_key, peer_node_key, timeout_key,
  window_key, total_key, chunk_key, use_flag, use_value, number_then, check_options, use_last,
  use_key, use_arg, parse_args, parse_options, flag_of, key_of, default_options, backend_name_bytes,
  path_max, int_max, u32_max,
}

scaled_bound : (a b : Option ℕ) {n : ℕ} → scaled a b ≡ some n → n ≤ u64_max
unfolding scaled
scaled_bound none b h = absurd (cc)
scaled_bound (some base) none h = absurd (cc)
scaled_bound (some base) (some m) h = grind arith

parse_size_arg_bound : (v : Text) {n : ℕ} → parse_size_arg v ≡ some n → n ≤ u64_max
unfolding parse_size_arg size_of_literal
parse_size_arg_bound v h = go (read_signed (skip_spaces v)) h
  where
    go : (l : Option Literal) {n : ℕ} → size_of_literal l ≡ some n → n ≤ u64_max
    go none h = absurd (cc)
    go (some l) h = scaled_bound (unsigned_value l) (scale_of (skip_spaces l.rest)) h

parse_int_arg_bound :
    (v : Text) (lo hi : ℕ) {n : ℕ} → parse_int_arg v lo hi ≡ some n → (lo ≤ n) × (n ≤ hi)
unfolding parse_int_arg int_of_literal
parse_int_arg_bound v lo hi h = go (read_signed (skip_spaces v)) h
  where
    go : (l : Option Literal) {n : ℕ} → int_of_literal lo hi l ≡ some n → (lo ≤ n) × (n ≤ hi)
    go none h = absurd (cc)
    go (some l) h = ground arith

-- What holds while the arguments are read.
pub record IsInRange (o : Options) : Type 0 where
  pub name : length o.backend_name < backend_name_bytes
  pub path : length o.device_path < path_max
  pub segment : o.segment_id ≤ int_max
  pub node : o.peer_node ≤ int_max
  pub window : o.window_size ≤ u64_max
  pub total : o.total_size ≤ u64_max
  pub chunk : o.chunk_size ≤ u64_max
  pub timeout : (1 ≤ o.timeout_sec) × (o.timeout_sec ≤ 86400)

-- What holds of the options that the programs run with.
pub record IsAdmissible (o : Options) : Type 0 where
  pub range : IsInRange o
  pub some_window : 0 < o.window_size
  pub some_total : 0 < o.total_size
  pub some_chunk : 0 < o.chunk_size
  pub chunk_word : o.chunk_size < 2 ^ 32

abbrev Admits : Parsed → Type 0
Admits (accepted o) = IsAdmissible o
Admits rejected = Unit {0}
Admits helped = Unit {0}

-- What follows admits only such options.
abbrev Continues : (ParseState → Parsed) → Type 0
Continues next = (s : ParseState) → IsInRange s.opt → Admits (next s)

check_options-Admits : Continues check_options
unfolding check_options
check_options-Admits s g = elim (Bool-cases (not s.role_set)) [
  | inl e ↦ rw e tt
  | inr e ↦
      rw e
        (elim (Bool-cases
          (s.opt.window_size == 0 || (s.opt.total_size == 0 || s.opt.chunk_size == 0))) [
            | inl f ↦ rw f tt
            | inr f ↦
                rw f
                  (elim (Bool-cases (
                    ltb u64_max s.opt.window_size
                    || (ltb u64_max s.opt.chunk_size || ltb u32_max s.opt.chunk_size))) [
                      | inl h ↦ rw h tt
                      | inr h ↦ rw h (record {
                        range = g;
                        some_window = ground arith;
                        some_total = ground arith;
                        some_chunk = ground arith;
                        chunk_word = ground arith;
                      })
                    ])
          ])
]

use_flag-Admits :
    (f : Flag) (s : ParseState) (next : ParseState → Parsed)
    → IsInRange s.opt
    → Continues next
    → Admits (use_flag f s next)
unfolding use_flag
use_flag-Admits (role_flag r) s next g k = elim (Bool-cases s.role_set) [
  | inl e ↦ simp e tt
  | inr e ↦ simp e (k _ (ground arith))
]
use_flag-Admits help_flag s next g k = tt
use_flag-Admits no_modprobe_flag s next g k = k _ (ground arith)

number_then-Admits :
    (n : Option ℕ) (next : ℕ → Parsed)
    → ((v : ℕ) → n ≡ some v → Admits (next v))
    → Admits (number_then n next)
number_then-Admits none next k = tt
number_then-Admits (some v) next k = k v refl

use_value-Admits :
    (key : Key) (v : Text) (o : Options) (next : Options → Parsed)
    → IsInRange o
    → ((o' : Options) → IsInRange o' → Admits (next o'))
    → Admits (use_value key v o next)
unfolding use_value
use_value-Admits backend_key v o next g k = elim (Bool-cases (leb backend_name_bytes (length v))) [
  | inl e ↦ rw e tt
  | inr e ↦ rw e (k _ (ground arith))
]
use_value-Admits device_key v o next g k = elim (Bool-cases (leb path_max (length v))) [
  | inl e ↦ rw e tt
  | inr e ↦ rw e (k _ (ground arith))
]
use_value-Admits segment_key v o next g k =
    number_then-Admits _ _ (λ n e. let b = parse_int_arg_bound v 0 int_max e in k _ (ground arith))
use_value-Admits peer_node_key v o next g k =
    number_then-Admits _ _ (λ n e. let b = parse_int_arg_bound v 0 int_max e in k _ (ground arith))
use_value-Admits timeout_key v o next g k =
    number_then-Admits _ _ (λ n e. let b = parse_int_arg_bound v 1 86400 e in k _ (ground arith))
use_value-Admits window_key v o next g k =
    number_then-Admits _ _ (λ n e. let b = parse_size_arg_bound v e in k _ (ground arith))
use_value-Admits total_key v o next g k =
    number_then-Admits _ _ (λ n e. let b = parse_size_arg_bound v e in k _ (ground arith))
use_value-Admits chunk_key v o next g k =
    number_then-Admits _ _ (λ n e. let b = parse_size_arg_bound v e in k _ (ground arith))

use_last-Admits : (f : Option Flag) (s : ParseState) → IsInRange s.opt → Admits (use_last f s)
unfolding use_last
use_last-Admits none s g = tt
use_last-Admits (some f) s g = use_flag-Admits f s check_options g check_options-Admits

use_key-Admits :
    (key : Option Key) (v : Text) (s : ParseState) (next : ParseState → Parsed)
    → IsInRange s.opt
    → Continues next
    → Admits (use_key key v s next)
use_key-Admits none v s next g k = tt
use_key-Admits (some key) v s next g k =
    use_value-Admits key v s.opt (λ o. next (record s { opt = o })) g
      (λ o h. k (record s { opt = o }) h)

use_arg-Admits :
    (arg v : Text) (s : ParseState) (next skip : ParseState → Parsed)
    → IsInRange s.opt
    → Continues next
    → Continues skip
    → Admits (use_arg arg v s next skip)
unfolding use_arg
use_arg-Admits arg v s next skip g k l =
    elim (flag_of arg)
      as (λ f.
        Admits (elim f [ some x ↦ use_flag x s next | none ↦ use_key (key_of arg) v s skip ])) [
          | some f ↦ use_flag-Admits f s next g k
          | none ↦ use_key-Admits (key_of arg) v s skip g l
        ]

parse_args-Admits : (args : List Text) → Continues (parse_args args)
unfolding parse_args
parse_args-Admits [] s g = check_options-Admits s g
parse_args-Admits (arg ∷ []) s g = use_last-Admits (flag_of arg) s g
parse_args-Admits (arg ∷ v ∷ rest) s g =
    use_arg-Admits arg v s _ _ g (parse_args-Admits (v ∷ rest)) (parse_args-Admits rest)

parse_options-Admits : (args : List Text) → Admits (parse_options args)
unfolding parse_options default_options
parse_options-Admits [] = tt
parse_options-Admits (arg ∷ rest) = parse_args-Admits (arg ∷ rest) _ (omega arith)

-- If the command line is accepted, the three sizes are positive and below 2^64, the chunk is
-- below 2^32, the timeout is between 1 and 86400 seconds, the segment and the node fit a signed
-- 32-bit integer, and the backend's name and the device's path fit their arrays with the final
-- 0.
pub parse_options-IsAdmissible :
    (args : List Text) (o : Options) → parse_options args ≡ accepted o → IsAdmissible o
parse_options-IsAdmissible args o e = let a = parse_options-Admits args in rw e at a
