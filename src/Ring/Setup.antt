-- ===== src/Ring/Setup.antt =====
-- user_src/ntb_profiling.c: how run_rx lays the ring out and how run_tx finds it.
use qemu_ntb_switch.Prelude.{ℕ, Bool, Option, none, some, ◌&&◌, ◌||◌, ltb, ◌==◌, if◌then◌else◌, u32}
use qemu_ntb_switch.Ring.Layout.{
  RingHeader, Ring, ring_magic, ring_version, ring_header_bytes, ring_slot_bytes,
  ntb_ring_max_slot_size, ntb_ring_calc_slot_count,
}

-- `slot_size` of the receiver: its `--chunk`, cut to what the window holds.
unfoldable pub rx_slot_size : ℕ → ℕ → ℕ
rx_slot_size size chunk_size =
    let max_slot_size = ntb_ring_max_slot_size size in
    if ltb max_slot_size chunk_size then max_slot_size else chunk_size

-- The header once its magic number is stored.
unfoldable pub rx_header : ℕ → ℕ → RingHeader
rx_header slot_count slot_size = record {
  magic = ring_magic;
  version = ring_version;
  header_size = ring_header_bytes;
  slot_header_size = ring_slot_bytes;
  slot_count = slot_count;
  slot_size = u32 slot_size;
  flags = 0;
  head = 0;
  tail = 0;
  total_bytes = 0;
  elapsed_ns = 0;
}

-- What run_rx does before it publishes its `size` bytes; it gives up where they are too few.
unfoldable pub rx_setup : ℕ → ℕ → Ring → Option Ring
rx_setup size chunk_size r =
    if chunk_size == 0 || ntb_ring_max_slot_size size == 0
    then none
    else (let slot_size = rx_slot_size size chunk_size in
        let slot_count = ntb_ring_calc_slot_count size slot_size in
        if slot_count == 0
        then none
        else some (record r { header = rx_header slot_count slot_size }))

-- The test on which run_tx takes the window for a fresh ring.
unfoldable pub tx_finds : RingHeader → Bool
tx_finds h =
    h.magic == ring_magic
    && (h.version == ring_version && (h.flags == 0 && (h.head == 0 && h.tail == 0)))

-- The test on which run_tx gives up the ring.
unfoldable pub tx_refuses : ℕ → RingHeader → Bool
tx_refuses chunk_size h = h.slot_count == 0 || (h.slot_size == 0 || ltb h.slot_size chunk_size)
