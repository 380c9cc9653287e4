-- ===== src/Ring/Fresh.antt =====
-- user_src/ntb_profiling.c: what run_rx has laid out when it publishes the ring.
use qemu_ntb_switch.Prelude.{
  ℕ, ◌+◌, ◌-◌, ◌*◌, ◌/◌, ◌^◌, ◌≤◌, ◌<◌, ◌≡◌, ◌⊎◌, inl, inr, refl, sym, ◌∙◌, zero, suc, none, some,
  ltb, if◌then◌else◌, min, arith,
}
use mathlib.Core.Path.{subst}
use mathlib.Core.Option.{none-ne-some}
use native.Mathlib.Nat.{mod-eq_of_lt, div-mul-le_self, mul-le-mul_right, le-div_iff_mul-le}
use qemu_ntb_switch.Ring.Layout.{
  Ring, ntb_ring_slot, ntb_ring_slot_payload, ntb_ring_max_slot_size, ntb_ring_calc_slot_count,
  uint32_max, ring_magic, ring_version,
}
use qemu_ntb_switch.Ring.Setup.{rx_setup, rx_header, rx_slot_size}
use qemu_ntb_switch.Ring.Bounds.{
  HasGeometry, ntb_ring_slot_lem, ntb_ring_slot-Fits, ntb_ring_slot-Apart,
  ntb_ring_slot_payload_lem,
}

pub rx_slot_size_lem :
    (size chunk : ℕ) → 128 < size → rx_slot_size size chunk ≡ min chunk (size - 128)
unfolding rx_slot_size ntb_ring_max_slot_size
rx_slot_size_lem size chunk h = ground arith

quotient-positive : (a b : ℕ) → 0 < b → b ≤ a → 0 < a / b
quotient-positive a b pos le = (le-div_iff_mul-le pos).1 (omega arith)

le_min : (a b : ℕ) → min a b ≤ b
le_min a b = omega arith

capped : (q : ℕ) → (if ltb uint32_max q then uint32_max else q) ≡ min uint32_max q
capped q = ground arith

module _ (size s : ℕ) (small : size < 2 ^ 64) (pos : 0 < s) (room : 128 + s ≤ size) where
  ntb_ring_calc_slot_count_lem :
      ntb_ring_calc_slot_count size s ≡ min uint32_max ((size - 64) / (64 + s))
  unfolding ntb_ring_calc_slot_count
  ntb_ring_calc_slot_count_lem =
      let c = capped ((size - 64) / (64 + s)) in
      let short : 64 + s < 2 ^ 64 = omega arith in rw (mod-eq_of_lt short) (ground arith)

  pub slot_count-positive : 0 < ntb_ring_calc_slot_count size s
  slot_count-positive =
      let q : 0 < (size - 64) / (64 + s) =
        quotient-positive (size - 64) (64 + s) (omega arith) (omega arith) in
      rw ntb_ring_calc_slot_count_lem (omega arith)

  pub slots-Fit : 64 + ntb_ring_calc_slot_count size s * (64 + s) ≤ size
  slots-Fit =
      let q = (size - 64) / (64 + s) in
      let m : min uint32_max q * (64 + s) ≤ q * (64 + s) =
        mul-le-mul_right (64 + s) (le_min uint32_max q) in
      let d = div-mul-le_self (size - 64) (64 + s) in rw ntb_ring_calc_slot_count_lem (omega arith)

-- A fresh ring of `n` slots of `s` bytes in `size` bytes.
pub record IsFresh (size n s : ℕ) (r : Ring) : Type 0 where
  pub geometry : HasGeometry size n s r.header
  pub magic : r.header.magic ≡ ring_magic
  pub version : r.header.version ≡ ring_version
  pub flags : r.header.flags ≡ 0
  pub head : r.header.head ≡ 0
  pub tail : r.header.tail ≡ 0

module _ (size chunk : ℕ) (room : 128 < size) (pos : 0 < chunk) where
  max_slot_size : ntb_ring_max_slot_size size ≡ size - 128
  unfolding ntb_ring_max_slot_size
  max_slot_size = ground arith

  pub rx_setup_lem :
      (r : Ring)
      → size < 2 ^ 64
      → let s = min chunk (size - 128) in
        rx_setup size chunk r
        ≡ some (record r { header = rx_header (ntb_ring_calc_slot_count size s) s })
  unfolding rx_setup
  rx_setup_lem r small =
      let s = min chunk (size - 128) in
      let some_slots = slot_count-positive size s small (omega arith) (omega arith) in
      rw (rx_slot_size_lem size chunk room, max_slot_size) (ground arith)

  pub rx_header-IsFresh :
      (r : Ring)
      → size < 2 ^ 64
      → chunk < 2 ^ 32
      → let s = min chunk (size - 128) in
        IsFresh size
          (ntb_ring_calc_slot_count size s)
          s
          (record r { header = rx_header (ntb_ring_calc_slot_count size s) s })
  unfolding rx_header
  rx_header-IsFresh r small word =
      let s = min chunk (size - 128) in
      record {
        geometry = record {
          header_size = refl;
          slot_header_size = refl;
          slot_count = refl;
          slot_size = mod-eq_of_lt (omega arith);
          positive = slot_count-positive size s small (omega arith) (omega arith);
          word = omega arith;
          fits = slots-Fit size s small (omega arith) (omega arith);
          addressable = small;
        };
        magic = refl;
        version = refl;
        flags = refl;
        head = refl;
        tail = refl;
      }

  pub rx_setup-IsFresh :
      (r : Ring)
      → size < 2 ^ 64
      → chunk < 2 ^ 32
      → let s = min chunk (size - 128) in
        (r' : Ring) × (rx_setup size chunk r ≡ some r')
        × IsFresh size (ntb_ring_calc_slot_count size s) s r'
  rx_setup-IsFresh r small word =
      let s = min chunk (size - 128) in
      (
        record r { header = rx_header (ntb_ring_calc_slot_count size s) s },
        rx_setup_lem r small,
        rx_header-IsFresh r small word,
      )

-- Windows and chunks that run_rx turns down.
rx_setup-none :
    (size chunk : ℕ) (r : Ring) → (size ≤ 128) ⊎ (chunk ≡ 0) → rx_setup size chunk r ≡ none
unfolding rx_setup ntb_ring_max_slot_size
rx_setup-none size chunk r (inl h) = ground arith
rx_setup-none size chunk r (inr h) = rw h refl

room-cases : (size : ℕ) → (size ≤ 128) ⊎ (128 < size)
room-cases size = ground arith

some_inj : {x y : Ring} → some x ≡ some y → x ≡ y
some_inj e = cc

-- The size of the slots and their number.
abbrev pub rx_slots : ℕ → ℕ → ℕ × ℕ
rx_slots size chunk = let s = min chunk (size - 128) in (ntb_ring_calc_slot_count size s, s)

pub rx_setup-some :
    (size chunk : ℕ) (r r' : Ring)
    → size < 2 ^ 64
    → chunk < 2 ^ 32
    → rx_setup size chunk r ≡ some r'
    → IsFresh size (rx_slots size chunk).0 (rx_slots size chunk).1 r'
rx_setup-some size zero r r' small word e =
    absurd (none-ne-some _ (sym (rx_setup-none size zero r (inr refl)) ∙ e))
rx_setup-some size (suc chunk) r r' small word e = elim (room-cases size) [
  | inl h ↦ absurd (none-ne-some _ (sym (rx_setup-none size (suc chunk) r (inl h)) ∙ e))
  | inr h ↦
      let f = rx_header-IsFresh size (suc chunk) h (omega arith) r small word in
      let p = sym (rx_setup_lem size (suc chunk) h (omega arith) r small) ∙ e in
      subst (IsFresh size _ _) (some_inj p) f
]

-- In a ring that run_rx has laid out in a window of fewer than 2^64 bytes for chunks of fewer
-- than 2^32, each slot with its payload lies in the window behind the header, its payload
-- begins after its own header, and the slots of two different indices less than `slot_count`
-- apart do not overlap.
pub rx_setup-Separates :
    (size chunk : ℕ) (r r' : Ring)
    → size < 2 ^ 64
    → chunk < 2 ^ 32
    → rx_setup size chunk r ≡ some r'
    → (i j : ℕ) → i < j
    → j < i + r'.header.slot_count
    → let h = r'.header in
      let bytes = 64 + h.slot_size in
      (64 ≤ ntb_ring_slot h i)
      × (ntb_ring_slot h i + bytes ≤ size)
      × (ntb_ring_slot_payload h (ntb_ring_slot h i) ≡ ntb_ring_slot h i + 64)
      × ((ntb_ring_slot h i + bytes ≤ ntb_ring_slot h j)
          ⊎ (ntb_ring_slot h j + bytes ≤ ntb_ring_slot h i))
rx_setup-Separates size chunk r r' small word e i j lt near =
    let (n, s) = rx_slots size chunk in
    let f : IsFresh size n s r' = rx_setup-some size chunk r r' small word e in
    let g = f.geometry in
    let near' = subst (λ k. j < i + k) g.slot_count near in
    let l = ntb_ring_slot_lem size n s r'.header g i in
    let room = ntb_ring_slot-Fits size n s r'.header g i in
    let a = ntb_ring_slot-Apart size n s r'.header g i j lt near' in
    let w = g.slot_size in
    (omega arith, omega arith, ntb_ring_slot_payload_lem size n s r'.header g i, ground arith)
