-- ===== src/Ring/Reception.antt =====
-- user_src/ntb_profiling.c: each access of run_rx keeps the ring and both programs consistent.
use qemu_ntb_switch.Prelude.{
  ℕ, ◌+◌, ◌^◌, ◌≤◌, inl, inr, u64, false, ◌<◌, ◌≡◌, ◌⊎◌, bit_and, zero-bit_and, sym, arith, refl,
}
use qemu_ntb_switch.Ring.Layout.{RingHeader, Ring, ntb_ring_slot}
use qemu_ntb_switch.Ring.Transfer.{
  TxOptions, TxPhase, RxPhase, Profile, tx_payload, tx_find, tx_loop, tx_loaded, tx_fill,
  tx_barrier, tx_store_seq, tx_store_head, tx_drain, tx_drain_loaded, tx_report, tx_report_barrier,
  tx_store_flags, tx_done, tx_failed, rx_loop, rx_loaded, rx_load_len, rx_load_seq, rx_store_tail,
  rx_load_flags, rx_confirm, rx_done, rx_invalid, rx_failed, rx_turn, Answer, slot_is_invalid,
}
use native.Mathlib.Nat.{mod-eq_of_lt}
use qemu_ntb_switch.Ring.Invariant.{
  IsRing, HasFinished, TxAt, RxAt, IsConsistent, HoldsChunk, chunk_start, chunk_start_le,
  chunk_start-suc, tx_payload_le, ntb_ring_slot-row,
}

one_bit : bit_and 1 1 ≡ 1
one_bit = refl

module _ (o : TxOptions) (cap n size : ℕ) (small : o.total_size < 2 ^ 64) where
  -- The sender keeps its place when the tail moves.
  TxAt-tail :
      (r : Ring) (t sent sc : ℕ) (ph : TxPhase)
      → t ≡ r.header.tail
      → t < r.header.head
      → TxAt o n size r sent sc ph
      → TxAt o n size (record r { header = record r.header { tail = t + 1 } }) sent sc ph
  TxAt-tail r t sent sc tx_find e lt at = ground arith
  TxAt-tail r t sent sc tx_loop e lt at = ground arith
  TxAt-tail r t sent sc (tx_loaded h) e lt at = ground arith
  TxAt-tail r t sent sc (tx_fill h) e lt at = ground arith
  TxAt-tail r t sent sc (tx_barrier h) e lt at = ground arith
  TxAt-tail r t sent sc (tx_store_seq h) e lt at = ground arith
  TxAt-tail r t sent sc (tx_store_head h) e lt at = ground arith
  TxAt-tail r t sent sc tx_drain e lt at = ground arith
  TxAt-tail r t sent sc (tx_drain_loaded h) e lt at = ground arith
  TxAt-tail r t sent sc tx_report e lt at = ground arith
  TxAt-tail r t sent sc tx_report_barrier e lt at = ground arith
  TxAt-tail r t sent sc tx_store_flags e lt at = ground arith
  TxAt-tail r t sent sc tx_done e lt at = ground arith
  TxAt-tail r t sent sc tx_failed e lt at = ground arith

  finished :
      (r : Ring) (sent sc : ℕ) (ph : TxPhase)
      → r.header.flags ≡ 1
      → TxAt o n size r sent sc ph
      → HasFinished o r
  finished r sent sc tx_find e at = absurd (ground arith)
  finished r sent sc tx_loop e at = absurd (ground arith)
  finished r sent sc (tx_loaded h) e at = absurd (ground arith)
  finished r sent sc (tx_fill h) e at = absurd (ground arith)
  finished r sent sc (tx_barrier h) e at = absurd (ground arith)
  finished r sent sc (tx_store_seq h) e at = absurd (ground arith)
  finished r sent sc (tx_store_head h) e at = absurd (ground arith)
  finished r sent sc tx_drain e at = absurd (ground arith)
  finished r sent sc (tx_drain_loaded h) e at = absurd (ground arith)
  finished r sent sc tx_report e at = absurd (ground arith)
  finished r sent sc tx_report_barrier e at = ground arith
  finished r sent sc tx_store_flags e at = ground arith
  finished r sent sc tx_done e at = ground arith
  finished r sent sc tx_failed e at = absurd (ground arith)

  flags-cases :
      (r : Ring) (sent sc : ℕ) (ph : TxPhase)
      → TxAt o n size r sent sc ph
      → (r.header.flags ≡ 0) ⊎ (r.header.flags ≡ 1)
  flags-cases r sent sc tx_find at = inl at.0
  flags-cases r sent sc tx_loop at = inl at.flags
  flags-cases r sent sc (tx_loaded h) at = inl at.0.flags
  flags-cases r sent sc (tx_fill h) at = inl at.0.flags
  flags-cases r sent sc (tx_barrier h) at = inl at.0.flags
  flags-cases r sent sc (tx_store_seq h) at = inl at.0.flags
  flags-cases r sent sc (tx_store_head h) at = inl at.0.flags
  flags-cases r sent sc tx_drain at = inl at.0.flags
  flags-cases r sent sc (tx_drain_loaded h) at = inl at.0.flags
  flags-cases r sent sc tx_report at = inl at.0.flags
  flags-cases r sent sc tx_report_barrier at = inl at.0
  flags-cases r sent sc tx_store_flags at = inl at.0
  flags-cases r sent sc tx_done at = inr at.0
  flags-cases r sent sc tx_failed at = inl at

  rx_counted :
      (t got : ℕ) (h : RingHeader)
      → got ≡ chunk_start o h.tail
      → t ≡ h.tail
      → t < h.head
      → chunk_start o t + tx_payload o (chunk_start o t) < 2 ^ 64
      → RxAt o h (u64 (got + tx_payload o (chunk_start o t))) (rx_store_tail t)
  rx_counted t got h g e lt fits =
      (rw (g, ← e, mod-eq_of_lt fits) (sym (chunk_start-suc o t)), e, lt)

  module _ (w : Profile) (ring : IsRing o cap n size w.ring) (t : ℕ) (e : t ≡ w.ring.header.tail)
      (lt : t < w.ring.header.head) where
    pub slot-HoldsChunk : HoldsChunk o t (w.ring.slots (ntb_ring_slot w.ring.header t))
    slot-HoldsChunk =
        rw (ntb_ring_slot-row cap n size w.ring.header ring.geometry t)
          (ring.chunks t (omega arith) lt)

    pub next_fits : t + 1 < 2 ^ 64
    next_fits = let p = ring.progress in let q = chunk_start_le o w.ring.header.head in omega arith

    chunk_fits : tx_payload o (chunk_start o t) ≤ size
    chunk_fits =
        let c = ring.chunk (omega arith) in let p = tx_payload_le o (chunk_start o t) in omega arith

    pub slot_valid :
        slot_is_invalid t
          (w.ring.slots (ntb_ring_slot w.ring.header t)).seq
          (tx_payload o (chunk_start o t))
          w.ring.header.slot_size
        ≡ false
    unfolding slot_is_invalid
    slot_valid =
        let c = slot-HoldsChunk in
        let f = chunk_fits in
        let k = next_fits in let g = ring.geometry.slot_size in ground (arith, mod-eq_of_lt k)

    count_fits : chunk_start o t + tx_payload o (chunk_start o t) < 2 ^ 64
    count_fits = omega (arith, chunk_start_le o (t + 1), chunk_start-suc o t)

    IsRing-tail :
        IsRing o cap n size (record w.ring { header = record w.ring.header { tail = t + 1 } })
    IsRing-tail = record {
      geometry = ground arith;
      tail_le = omega arith;
      head_le = let h = ring.head_le in omega arith;
      chunk = ring.chunk;
      progress = ring.progress;
      chunks = λ j ge l. ring.chunks j (omega arith) l;
    }

  pub rx_turn-IsConsistent :
      (a : Answer) (ph : RxPhase) (w : Profile)
      → IsRing o cap n size w.ring
      → TxAt o n size w.ring w.tx.sent w.tx.slot_count w.tx.phase
      → RxAt o w.ring.header w.rx.received ph
      → IsConsistent o cap n size (rx_turn a ph w)
  unfolding rx_turn
  rx_turn-IsConsistent a rx_loop w ring tx rx = record { ring = ring; tx = tx; rx = ground arith }
  rx_turn-IsConsistent a (rx_loaded t) w ring tx rx = record {
    ring = ring;
    tx = tx;
    rx = ground arith;
  }
  rx_turn-IsConsistent a (rx_load_len t) w ring tx rx = record {
    ring = ring;
    tx = tx;
    rx = (rx.0, rx.1, rx.2, (slot-HoldsChunk w ring t rx.1 rx.2).len);
  }
  rx_turn-IsConsistent a (rx_load_seq t len) w ring tx rx =
      let e = rx.3 in
      let v = slot_valid w ring t rx.1 rx.2 in
      let c = count_fits w ring t rx.1 rx.2 in
      rw (e, v)
        (record {
          ring = ring;
          tx = tx;
          rx = rx_counted t w.rx.received w.ring.header rx.0 rx.1 rx.2 c;
        })
  rx_turn-IsConsistent a (rx_store_tail t) w ring tx rx = record {
    ring = rw (mod-eq_of_lt (next_fits w ring t rx.1 rx.2)) (IsRing-tail w ring t rx.1 rx.2);
    tx =
        rw (mod-eq_of_lt (next_fits w ring t rx.1 rx.2))
          (TxAt-tail w.ring t w.tx.sent w.tx.slot_count w.tx.phase rx.1 rx.2 tx);
    rx = rw (mod-eq_of_lt (next_fits w ring t rx.1 rx.2)) rx.0;
  }
  rx_turn-IsConsistent a (rx_load_flags t) w ring tx rx = record {
    ring = ring;
    tx = tx;
    rx = elim (flags-cases w.ring w.tx.sent w.tx.slot_count w.tx.phase tx) [
      | inl e ↦ ground (arith, zero-bit_and 1, e)
      | inr e ↦ ground (arith, one_bit, e)
    ];
  }
  rx_turn-IsConsistent a (rx_confirm t) w ring tx rx = record {
    ring = ring;
    tx = tx;
    rx = let f = finished w.ring w.tx.sent w.tx.slot_count w.tx.phase rx.2 tx in ground arith;
  }
  rx_turn-IsConsistent a (rx_done m) w ring tx rx = record { ring = ring; tx = tx; rx = rx }
  rx_turn-IsConsistent a rx_invalid w ring tx rx = absurd rx
  rx_turn-IsConsistent a rx_failed w ring tx rx = record { ring = ring; tx = tx; rx = rx }
