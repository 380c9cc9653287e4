-- ===== src/Ring/Writes.antt =====
-- user_src/ntb_profiling.c: what the sender's stores to the header and to a slot leave as it was.
use qemu_ntb_switch.Prelude.{ℕ, ◌+◌, ◌^◌, ◌≤◌, false, ◌<◌, ◌≡◌, arith, update, ◌==◌}
use native.Mathlib.Nat.{mod-eq_of_lt}
use qemu_ntb_switch.Ring.Layout.{RingHeader, RingSlot, Ring}
use qemu_ntb_switch.Ring.Transfer.{
  TxOptions, RxPhase, tx_payload, rx_loop, rx_loaded, rx_load_len, rx_load_seq, rx_store_tail,
  rx_load_flags, rx_confirm, rx_done, rx_invalid, rx_failed, fill_slot, store_seq,
}
use qemu_ntb_switch.Ring.Bounds.{ntb_ring_slot-Apart}
use qemu_ntb_switch.Ring.Invariant.{IsRing, RxAt, row, tx_payload_le, ntb_ring_slot-row}

module _ (o : TxOptions) where
  -- The receiver keeps its place when the head moves; it has not seen the last flag yet.
  pub RxAt-head :
      (h : RingHeader) (got : ℕ) (ph : RxPhase)
      → h.flags ≡ 0
      → RxAt o h got ph
      → RxAt o (record h { head = h.head + 1 }) got ph
  RxAt-head h got rx_loop e at = ground arith
  RxAt-head h got (rx_loaded t) e at = ground arith
  RxAt-head h got (rx_load_len t) e at = ground arith
  RxAt-head h got (rx_load_seq t len) e at = ground arith
  RxAt-head h got (rx_store_tail t) e at = ground arith
  RxAt-head h got (rx_load_flags t) e at = ground arith
  RxAt-head h got (rx_confirm t) e at = ground arith
  RxAt-head h got (rx_done m) e at = ground arith
  RxAt-head h got rx_invalid e at = ground arith
  RxAt-head h got rx_failed e at = tt

  pub RxAt-report :
      (h : RingHeader) (sent ns got : ℕ) (ph : RxPhase)
      → RxAt o h got ph
      → RxAt o (record h { total_bytes = sent; elapsed_ns = ns }) got ph
  RxAt-report h sent ns got rx_loop at = ground arith
  RxAt-report h sent ns got (rx_loaded t) at = ground arith
  RxAt-report h sent ns got (rx_load_len t) at = ground arith
  RxAt-report h sent ns got (rx_load_seq t len) at = ground arith
  RxAt-report h sent ns got (rx_store_tail t) at = ground arith
  RxAt-report h sent ns got (rx_load_flags t) at = ground arith
  RxAt-report h sent ns got (rx_confirm t) at = ground arith
  RxAt-report h sent ns got (rx_done m) at = ground arith
  RxAt-report h sent ns got rx_invalid at = at
  RxAt-report h sent ns got rx_failed at = tt

  pub RxAt-flags :
      (h : RingHeader) (got : ℕ) (ph : RxPhase)
      → RxAt o h got ph
      → RxAt o (record h { flags = 1 }) got ph
  RxAt-flags h got rx_loop at = ground arith
  RxAt-flags h got (rx_loaded t) at = ground arith
  RxAt-flags h got (rx_load_len t) at = ground arith
  RxAt-flags h got (rx_load_seq t len) at = ground arith
  RxAt-flags h got (rx_store_tail t) at = ground arith
  RxAt-flags h got (rx_load_flags t) at = ground arith
  RxAt-flags h got (rx_confirm t) at = ground arith
  RxAt-flags h got (rx_done m) at = ground arith
  RxAt-flags h got rx_invalid at = at
  RxAt-flags h got rx_failed at = tt

module _ (o : TxOptions) (cap n size : ℕ) where
  row_apart :
      (r : Ring) (i j : ℕ)
      → IsRing o cap n size r
      → i < j
      → j < i + n
      → (row n size j == row n size i) ≡ false
  row_apart r i j ring lt near =
      let s = ntb_ring_slot-Apart cap n size r.header ring.geometry i j lt near in
      let a = ntb_ring_slot-row cap n size r.header ring.geometry i in
      let b = ntb_ring_slot-row cap n size r.header ring.geometry j in ground arith

  -- A write to the slot behind the head touches no chunk that is on its way.
  IsRing-slot :
      (r : Ring) (h : ℕ) (v : RingSlot) (b : ℕ → ℕ)
      → IsRing o cap n size r
      → h ≡ r.header.head
      → h < r.header.tail + n
      → IsRing o cap n size (record r { slots = update r.slots (row n size h) v; bytes = b })
  IsRing-slot r h v b ring e room = record {
    geometry = ring.geometry;
    tail_le = ring.tail_le;
    head_le = ring.head_le;
    chunk = ring.chunk;
    progress = ring.progress;
    chunks = λ j ge lt. rw (row_apart r j h ring (omega arith) (omega arith)) (ring.chunks j ge lt);
  }

  pub filled_ring :
      (r : Ring) (h sent : ℕ)
      → IsRing o cap n size r
      → h ≡ r.header.head
      → h < r.header.tail + n
      → IsRing o cap n size (fill_slot o h sent r)
  unfolding fill_slot
  filled_ring r h sent ring e room =
      rw (ntb_ring_slot-row cap n size r.header ring.geometry h) (IsRing-slot r h _ _ ring e room)

  pub sequenced_ring :
      (r : Ring) (h : ℕ)
      → IsRing o cap n size r
      → h ≡ r.header.head
      → h < r.header.tail + n
      → IsRing o cap n size (store_seq h r)
  unfolding store_seq
  sequenced_ring r h ring e room =
      rw (ntb_ring_slot-row cap n size r.header ring.geometry h)
        (IsRing-slot r h _ r.bytes ring e room)

  pub filled_len :
      (r : Ring) (h sent : ℕ)
      → IsRing o cap n size r
      → o.chunk_size ≤ size
      → ((fill_slot o h sent r).slots (row n size h)).len ≡ tx_payload o sent
  unfolding fill_slot
  filled_len r h sent ring fits =
      let p = tx_payload_le o sent in
      let wd = ring.geometry.word in
      let k : tx_payload o sent < 2 ^ 32 = omega arith in
      rw (ntb_ring_slot-row cap n size r.header ring.geometry h, mod-eq_of_lt k) (ground arith)
