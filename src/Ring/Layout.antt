-- ===== src/Ring/Layout.antt =====
-- user_src/ntb_utils.h and ntb_utils.c: the profiling ring that the receiver lays out in the
-- memory window, and the addresses of its slots.
use qemu_ntb_switch.Prelude.{
  ℕ, ◌+◌, ◌-◌, ◌*◌, ◌/◌, ◌%◌, ◌^◌, ◌||◌, ltb, leb, ◌==◌, if◌then◌else◌, u64,
}

-- The sizes that the static assertions of ntb_utils.c fix.
abbrev pub ring_header_bytes : ℕ
ring_header_bytes = 64

abbrev pub ring_slot_bytes : ℕ
ring_slot_bytes = 64

-- NTB_PROFILE_RING_MAGIC, NTB_PROFILE_RING_VERSION and NTB_PROFILE_RING_FLAG_DONE.
abbrev pub ring_magic : ℕ
ring_magic = 1314144848

abbrev pub ring_version : ℕ
ring_version = 1

abbrev pub ring_flag_done : ℕ
ring_flag_done = 1

-- `ntb_profile_ring_header`, less its reserved word.
pub record RingHeader : Type 0 where
  pub magic : ℕ
  pub version : ℕ
  pub header_size : ℕ
  pub slot_header_size : ℕ
  pub slot_count : ℕ
  pub slot_size : ℕ
  pub flags : ℕ
  pub head : ℕ
  pub tail : ℕ
  pub total_bytes : ℕ
  pub elapsed_ns : ℕ

-- `ntb_profile_ring_slot`, less its reserved bytes.
pub record RingSlot : Type 0 where
  pub seq : ℕ
  pub total : ℕ
  pub len : ℕ
  pub flags : ℕ

-- The mapped window: the header at its start, the slot headers and the payload bytes by offset.
pub record Ring : Type 0 where
  pub header : RingHeader
  pub slots : ℕ → RingSlot
  pub bytes : ℕ → ℕ

unfoldable pub ntb_ring_max_slot_size : ℕ → ℕ
ntb_ring_max_slot_size capacity =
    if leb capacity (ring_header_bytes + ring_slot_bytes)
    then 0
    else capacity - ring_header_bytes - ring_slot_bytes

-- UINT32_MAX
abbrev pub uint32_max : ℕ
uint32_max = 2 ^ 32 - 1

unfoldable pub ntb_ring_calc_slot_count : ℕ → ℕ → ℕ
ntb_ring_calc_slot_count capacity slot_size =
    if slot_size == 0 || leb capacity ring_header_bytes
    then 0
    else (let slots = (capacity - ring_header_bytes) / u64 (ring_slot_bytes + slot_size) in
        if ltb uint32_max slots then uint32_max else slots)

-- The offset of the slot with this index. C leaves `index % 0` undefined.
unfoldable pub ntb_ring_slot : RingHeader → ℕ → ℕ
ntb_ring_slot h index =
    u64 (h.header_size + index % h.slot_count * u64 (h.slot_header_size + h.slot_size))

unfoldable pub ntb_ring_slot_payload : RingHeader → ℕ → ℕ
ntb_ring_slot_payload h slot = u64 (slot + h.slot_header_size)
