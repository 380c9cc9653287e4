-- ===== src/Ring/Bounds.antt =====
-- user_src/ntb_utils.c: the slots of a ring stay in the window and apart from each other.
use qemu_ntb_switch.Prelude.{
  ℕ, suc, ◌+◌, ◌*◌, ◌/◌, ◌%◌, ◌^◌, ◌≤◌, ◌<◌, ◌≡◌, ◌≢◌, ◌⊎◌, inl, inr, refl, arith,
}
use native.Mathlib.Nat.{
  mod-lt, mod-eq_of_lt, div-add-mod, mul-le-mul_right, mul-le-mul_left, lt_of_mul-lt-mul_left,
}
use qemu_ntb_switch.Ring.Layout.{RingHeader, ntb_ring_slot, ntb_ring_slot_payload}

-- A header of `n` slots of `size` bytes in a window of `cap` bytes.
pub record HasGeometry (cap n size : ℕ) (h : RingHeader) : Type 0 where
  pub header_size : h.header_size ≡ 64
  pub slot_header_size : h.slot_header_size ≡ 64
  pub slot_count : h.slot_count ≡ n
  pub slot_size : h.slot_size ≡ size
  pub positive : 0 < n
  pub word : size < 2 ^ 32
  pub fits : 64 + n * (64 + size) ≤ cap
  pub addressable : cap < 2 ^ 64

suc_le : (k n : ℕ) → k < n → suc k ≤ n
suc_le k n lt = omega arith

pub row_end : (k n s : ℕ) → k < n → k * s + s ≤ n * s
row_end k n s lt = let m = mul-le-mul_right s (suc_le k n lt) in omega arith

module _ (cap n size : ℕ) (h : RingHeader) (g : HasGeometry cap n size h) where
  low : 64 + size < 2 ^ 64
  low =
      let p = row_end 0 n (64 + size) g.positive in
      let f = g.fits in let a = g.addressable in omega arith

  slot_end : (i : ℕ) → 64 + i % n * (64 + size) + 64 + size ≤ cap
  slot_end i =
      let r = row_end (i % n) n (64 + size) (mod-lt i g.positive) in let f = g.fits in omega arith

  fits64 : (i : ℕ) → 64 + i % n * (64 + size) < 2 ^ 64
  fits64 i = let e = slot_end i in let a = g.addressable in omega arith

  -- No slot's address overflows.
  pub ntb_ring_slot_lem : (i : ℕ) → ntb_ring_slot h i ≡ 64 + i % n * (64 + size)
  unfolding ntb_ring_slot
  ntb_ring_slot_lem i =
      let l = low in
      rw (g.header_size, g.slot_header_size, g.slot_count, g.slot_size)
        (rw (mod-eq_of_lt l, mod-eq_of_lt (fits64 i)) refl)

  -- The payload begins after the slot's header.
  pub ntb_ring_slot_payload_lem :
      (i : ℕ) → ntb_ring_slot_payload h (ntb_ring_slot h i) ≡ ntb_ring_slot h i + 64
  unfolding ntb_ring_slot_payload
  ntb_ring_slot_payload_lem i =
      let e = ntb_ring_slot_lem i in
      let f = slot_end i in let a = g.addressable in simp (g.slot_header_size) (omega arith)

  pub ntb_ring_slot-Fits : (i : ℕ) → ntb_ring_slot h i + 64 + size ≤ cap
  ntb_ring_slot-Fits i = rw (ntb_ring_slot_lem i) (slot_end i)

first_lt : (i j n : ℕ) → i < j → i % n ≡ j % n → n * (i / n) < n * (j / n)
first_lt i j n lt e = let p = div-add-mod i n in let q = div-add-mod j n in omega arith

mod_apart : (n i j : ℕ) → 0 < n → i < j → j < i + n → i % n ≢ j % n
mod_apart n i j pos lt near e =
    let p = div-add-mod i n in
    let q = div-add-mod j n in
    let r =
      mul-le-mul_left n (suc_le (i / n) (j / n) (lt_of_mul-lt-mul_left n (first_lt i j n lt e))) in
    omega arith

lt-cases : (a b : ℕ) → a ≢ b → (a < b) ⊎ (b < a)
lt-cases a b ne = ground arith

rows_apart : (a b s : ℕ) → a ≢ b → (a * s + s ≤ b * s) ⊎ (b * s + s ≤ a * s)
rows_apart a b s ne = elim (lt-cases a b ne) [
  | inl l ↦ inl (row_end a b s l)
  | inr l ↦ inr (row_end b a s l)
]

pub ntb_ring_slot-Apart :
    (cap n size : ℕ) (h : RingHeader)
    → HasGeometry cap n size h
    → (i j : ℕ) → i < j
    → j < i + n
    → (ntb_ring_slot h i + 64 + size ≤ ntb_ring_slot h j)
      ⊎ (ntb_ring_slot h j + 64 + size ≤ ntb_ring_slot h i)
ntb_ring_slot-Apart cap n size h g i j lt near =
    let a = ntb_ring_slot_lem cap n size h g i in
    let b = ntb_ring_slot_lem cap n size h g j in
    elim (rows_apart (i % n) (j % n) (64 + size) (mod_apart n i j g.positive lt near)) [
      | inl l ↦ inl (omega arith)
      | inr l ↦ inr (omega arith)
    ]
