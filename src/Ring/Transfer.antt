-- ===== src/Ring/Transfer.antt =====
-- user_src/ntb_profiling.c: the loops of run_tx and run_rx, a load or a store of the shared window
-- at a time, so that the two programs can interleave between any two of them. The search for a ring
-- makes its loads in one turn.
use qemu_ntb_switch.Prelude.{
  ℕ, ◌+◌, ◌-◌, ◌^◌, Bool, List, [], ◌∷◌, ◌&&◌, ◌||◌, ltb, leb, ◌==◌, nonzero, not, if◌then◌else◌,
  bit_and, update, u32, u64,
}
use qemu_ntb_switch.Ring.Layout.{Ring, ring_flag_done, ntb_ring_slot, ntb_ring_slot_payload}
use qemu_ntb_switch.Ring.Setup.{tx_finds, tx_refuses}

-- `ntb_profile_options`, the two options that the loop of run_tx reads.
pub record TxOptions : Type 0 where
  pub total_size : ℕ
  pub chunk_size : ℕ

-- What the clock, the allocator and the backend's barrier answer in one turn.
pub record Answer : Type 0 where
  pub timed_out : Bool
  pub out_of_memory : Bool
  pub barrier_failed : Bool
  pub elapsed_ns : ℕ

-- Where run_tx stands, with the locals that it still needs there.
pub data TxPhase : Type 0 where
  tx_find tx_loop : TxPhase
  -- The head has been loaded.
  tx_loaded : ℕ → TxPhase
  -- The slot is free.
  tx_fill : ℕ → TxPhase
  -- The slot is written, all but its sequence number.
  tx_barrier : ℕ → TxPhase
  tx_store_seq : ℕ → TxPhase
  tx_store_head : ℕ → TxPhase
  tx_drain : TxPhase
  tx_drain_loaded : ℕ → TxPhase
  tx_report tx_report_barrier tx_store_flags tx_done tx_failed : TxPhase

pub record Tx : Type 0 where
  pub phase : TxPhase
  pub sent : ℕ
  pub slot_count : ℕ

-- Where run_rx stands.
pub data RxPhase : Type 0 where
  rx_loop : RxPhase
  -- The tail has been loaded.
  rx_loaded : ℕ → RxPhase
  rx_load_len : ℕ → RxPhase
  rx_load_seq : ℕ → ℕ → RxPhase
  rx_store_tail : ℕ → RxPhase
  rx_load_flags : ℕ → RxPhase
  rx_confirm : ℕ → RxPhase
  -- The sender's count is what it reported.
  rx_done : ℕ → RxPhase
  rx_invalid rx_failed : RxPhase

pub record Rx : Type 0 where
  pub phase : RxPhase
  pub received : ℕ

pub record Profile : Type 0 where
  pub ring : Ring
  pub tx : Tx
  pub rx : Rx

unfoldable pub tx_payload : TxOptions → ℕ → ℕ
tx_payload o sent =
    if ltb (o.total_size - sent) o.chunk_size then o.total_size - sent else o.chunk_size

-- memcpy of the pattern
unfoldable pub copy_pattern : ℕ → ℕ → (ℕ → ℕ) → ℕ → ℕ
copy_pattern at n bytes i = if leb at i && ltb i (at + n) then 165 else bytes i

unfoldable pub fill_slot : TxOptions → ℕ → ℕ → Ring → Ring
fill_slot o h sent r =
    let slot = ntb_ring_slot r.header h in
    let payload = tx_payload o sent in
    record r {
      slots =
          update r.slots slot
            (record (r.slots slot) { total = u64 (sent + payload); len = u32 payload; flags = 0 });
      bytes = copy_pattern (ntb_ring_slot_payload r.header slot) payload r.bytes;
    }

unfoldable pub store_seq : ℕ → Ring → Ring
store_seq h r =
    let slot = ntb_ring_slot r.header h in
    record r { slots = update r.slots slot (record (r.slots slot) { seq = u64 (h + 1) }) }

-- `head - tail >= slot_count` on 64-bit words
unfoldable pub ring_full : ℕ → ℕ → ℕ → Bool
ring_full head tail slot_count = leb slot_count (u64 (head + 2 ^ 64 - tail))

abbrev at_tx : TxPhase → Profile → Profile
at_tx ph w = record w { tx = record w.tx { phase = ph } }

-- A wait that has not been given up goes back to the loads.
abbrev waited : Answer → TxPhase → TxPhase
waited a ph = if a.timed_out then tx_failed else ph

unfoldable pub tx_turn : TxOptions → Answer → TxPhase → Profile → Profile
tx_turn o a tx_find w =
    if tx_finds w.ring.header
    then (if tx_refuses o.chunk_size w.ring.header || a.out_of_memory
        then at_tx tx_failed w
        else record w {
          tx = record { phase = tx_loop; sent = 0; slot_count = w.ring.header.slot_count };
        })
    else at_tx (waited a tx_find) w
tx_turn o a tx_loop w =
    at_tx (if ltb w.tx.sent o.total_size then tx_loaded w.ring.header.head else tx_drain) w
tx_turn o a (tx_loaded h) w =
    at_tx (if ring_full h w.ring.header.tail w.tx.slot_count then waited a tx_loop else tx_fill h) w
tx_turn o a (tx_fill h) w =
    at_tx (tx_barrier h) (record w { ring = fill_slot o h w.tx.sent w.ring })
tx_turn o a (tx_barrier h) w = at_tx (if a.barrier_failed then tx_failed else tx_store_seq h) w
tx_turn o a (tx_store_seq h) w = at_tx (tx_store_head h) (record w { ring = store_seq h w.ring })
tx_turn o a (tx_store_head h) w = record w {
  ring = record w.ring { header = record w.ring.header { head = u64 (h + 1) } };
  tx = record w.tx { phase = tx_loop; sent = u64 (w.tx.sent + tx_payload o w.tx.sent) };
}
tx_turn o a tx_drain w = at_tx (tx_drain_loaded w.ring.header.head) w
tx_turn o a (tx_drain_loaded h) w =
    at_tx (if w.ring.header.tail == h then tx_report else waited a tx_drain) w
tx_turn o a tx_report w = at_tx tx_report_barrier (record w {
  ring = record w.ring {
    header = record w.ring.header { total_bytes = w.tx.sent; elapsed_ns = u64 a.elapsed_ns };
  };
})
tx_turn o a tx_report_barrier w = at_tx (if a.barrier_failed then tx_failed else tx_store_flags) w
tx_turn o a tx_store_flags w =
    at_tx tx_done (record w {
      ring = record w.ring { header = record w.ring.header { flags = ring_flag_done } };
    })
tx_turn o a tx_done w = at_tx tx_done w
tx_turn o a tx_failed w = at_tx tx_failed w

abbrev at_rx : RxPhase → Profile → Profile
at_rx ph w = record w { rx = record w.rx { phase = ph } }

-- What follows where there is no slot to take.
abbrev rx_waited : Answer → RxPhase
rx_waited a = if a.timed_out then rx_failed else rx_loop

-- The test on which run_rx gives the slot up.
unfoldable pub slot_is_invalid : ℕ → ℕ → ℕ → ℕ → Bool
slot_is_invalid tail seq len slot_size = not (seq == u64 (tail + 1)) || ltb slot_size len

unfoldable pub rx_turn : Answer → RxPhase → Profile → Profile
rx_turn a rx_loop w = at_rx (rx_loaded w.ring.header.tail) w
rx_turn a (rx_loaded t) w =
    at_rx (if ltb t w.ring.header.head then rx_load_len t else rx_load_flags t) w
rx_turn a (rx_load_len t) w =
    at_rx (rx_load_seq t (w.ring.slots (ntb_ring_slot w.ring.header t)).len) w
rx_turn a (rx_load_seq t len) w =
    if slot_is_invalid t (w.ring.slots (ntb_ring_slot w.ring.header t)).seq len
      w.ring.header.slot_size
    then at_rx rx_invalid w
    else record w { rx = record { phase = rx_store_tail t; received = u64 (w.rx.received + len) } }
rx_turn a (rx_store_tail t) w =
    at_rx rx_loop
      (record w { ring = record w.ring { header = record w.ring.header { tail = u64 (t + 1) } } })
rx_turn a (rx_load_flags t) w =
    at_rx
      (if nonzero (bit_and w.ring.header.flags ring_flag_done) then rx_confirm t else rx_waited a) w
rx_turn a (rx_confirm t) w =
    at_rx (if t == w.ring.header.head then rx_done w.ring.header.total_bytes else rx_waited a) w
rx_turn a (rx_done n) w = at_rx (rx_done n) w
rx_turn a rx_invalid w = at_rx rx_invalid w
rx_turn a rx_failed w = at_rx rx_failed w

-- A turn of one of the two programs.
pub data Turn : Type 0 where
  turn_tx turn_rx : Answer → Turn

unfoldable pub profile_turn : TxOptions → Turn → Profile → Profile
profile_turn o (turn_tx a) w = tx_turn o a w.tx.phase w
profile_turn o (turn_rx a) w = rx_turn a w.rx.phase w

-- The turns one after the other.
unfoldable pub profile_run : TxOptions → List Turn → Profile → Profile
profile_run o [] w = w
profile_run o (t ∷ ts) w = profile_run o ts (profile_turn o t w)

-- Both programs before their loops.
unfoldable pub profile_start : Ring → Profile
profile_start r = record {
  ring = r;
  tx = record { phase = tx_find; sent = 0; slot_count = 0 };
  rx = record { phase = rx_loop; received = 0 };
}
