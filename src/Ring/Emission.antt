-- ===== src/Ring/Emission.antt =====
-- user_src/ntb_profiling.c: each access of run_tx keeps the ring and both programs consistent.
use qemu_ntb_switch.Prelude.{
  ℕ, ◌+◌, ◌^◌, ◌≤◌, Bool-cases, inl, inr, u64, false, ◌<◌, ◌≡◌, ◌⊎◌, sym, arith, refl,
  if◌then◌else◌, ◌||◌,
}
use mathlib.Core.Path.{subst}
use native.Mathlib.Nat.{mod-eq_of_lt}
use qemu_ntb_switch.Ring.Layout.{Ring}
use qemu_ntb_switch.Ring.Setup.{tx_finds, tx_refuses}
use qemu_ntb_switch.Ring.Transfer.{
  TxOptions, TxPhase, Profile, tx_payload, tx_find, tx_loop, tx_loaded, tx_fill, tx_barrier,
  tx_store_seq, tx_store_head, tx_drain, tx_drain_loaded, tx_report, tx_report_barrier,
  tx_store_flags, tx_done, tx_failed, tx_turn, Answer, fill_slot, store_seq, ring_full,
}
use qemu_ntb_switch.Ring.Invariant.{
  IsRing, IsSending, TxAt, RxAt, IsConsistent, HoldsChunk, chunk_start, row, chunk_start_le,
  chunk_start-suc, ntb_ring_slot-row,
}
use qemu_ntb_switch.Ring.Writes.{
  RxAt-head, RxAt-report, RxAt-flags, filled_ring, sequenced_ring, filled_len,
}

below-cases : (j h : ℕ) → j < h + 1 → (j ≡ h) ⊎ (j < h)
below-cases j h lt = ground arith

module _ (o : TxOptions) (cap n size : ℕ) (small : o.total_size < 2 ^ 64)
    (chunks : 0 < o.chunk_size) where
  loaded :
      (a : Answer) (h : ℕ) (r : Ring) (sent sc : ℕ)
      → IsRing o cap n size r
      → TxAt o n size r sent sc (tx_loaded h)
      → TxAt o n size r sent sc (
          if ring_full h r.header.tail sc
          then if a.timed_out then tx_failed else tx_loop
          else tx_fill h)
  unfolding ring_full
  loaded a h r sent sc ring at =
      let s = at.0 in
      let p = ring.progress in
      let q = chunk_start_le o r.header.head in
      let k = ring.tail_le in
      let l = ring.head_le in
      let c = ring.geometry.positive in
      let g = ring.geometry.fits in let ad = ring.geometry.addressable in ground arith

  pub next_fits :
      (r : Ring) (sent sc : ℕ)
      → IsRing o cap n size r
      → IsSending o n size r sent sc
      → sent < o.total_size
      → r.header.head + 1 < 2 ^ 64
  next_fits r sent sc ring s more = let p = ring.progress in let e = s.position in omega arith

  sequenced :
      (r : Ring) (h sent sc : ℕ)
      → IsRing o cap n size r
      → TxAt o n size r sent sc (tx_store_seq h)
      → HoldsChunk o h ((store_seq h r).slots (row n size h))
  unfolding store_seq
  sequenced r h sent sc ring at =
      let k = next_fits r sent sc ring at.0 at.2 in
      rw (ntb_ring_slot-row cap n size r.header ring.geometry h) (ground (arith, mod-eq_of_lt k))

  filled :
      (w : Profile) (h : ℕ)
      → IsRing o cap n size w.ring
      → TxAt o n size w.ring w.tx.sent w.tx.slot_count (tx_fill h)
      → RxAt o w.ring.header w.rx.received w.rx.phase
      → IsConsistent o cap n size (record w {
        ring = fill_slot o h w.tx.sent w.ring;
        tx = record w.tx { phase = tx_barrier h };
      })
  unfolding fill_slot
  filled w h ring tx rx = record {
    ring = filled_ring o cap n size w.ring h w.tx.sent ring tx.1 tx.3;
    tx = (
      let f = tx.0 in ground arith,
      tx.1,
      tx.2,
      tx.3,
      filled_len o cap n size w.ring h w.tx.sent ring tx.0.chunk,
    );
    rx = rx;
  }

  seq_stored :
      (w : Profile) (h : ℕ)
      → IsRing o cap n size w.ring
      → TxAt o n size w.ring w.tx.sent w.tx.slot_count (tx_store_seq h)
      → RxAt o w.ring.header w.rx.received w.rx.phase
      → IsConsistent o cap n size
          (record w { ring = store_seq h w.ring; tx = record w.tx { phase = tx_store_head h } })
  unfolding store_seq
  seq_stored w h ring tx rx = record {
    ring = sequenced_ring o cap n size w.ring h ring tx.1 tx.3;
    tx = (
      let f = tx.0 in ground arith,
      tx.1,
      tx.2,
      tx.3,
      sequenced w.ring h w.tx.sent w.tx.slot_count ring tx,
    );
    rx = rx;
  }

  some_payload : (sent : ℕ) → sent < o.total_size → 0 < tx_payload o sent
  unfolding tx_payload
  some_payload sent more = ground arith

  pub moved_sent :
      (head sent : ℕ)
      → sent ≡ chunk_start o head
      → sent < o.total_size
      → (sent + tx_payload o sent < 2 ^ 64)
        × (chunk_start o (head + 1) ≡ sent + tx_payload o sent)
        × (0 < tx_payload o sent)
  moved_sent head sent e more =
      let p = chunk_start_le o (head + 1) in
      let q = chunk_start-suc o head in (rw e (omega arith), rw e q, some_payload sent more)

  moved_chunk :
      (r : Ring) (h sent sc j : ℕ)
      → IsRing o cap n size r
      → TxAt o n size r sent sc (tx_store_head h)
      → r.header.tail ≤ j
      → j < r.header.head + 1
      → HoldsChunk o j (r.slots (row n size j))
  moved_chunk r h sent sc j ring tx ge lt = elim (below-cases j h (omega arith)) [
    | inl e ↦ subst (λ i. HoldsChunk o i (r.slots (row n size i))) (sym e) tx.4
    | inr l ↦ ring.chunks j ge (omega arith)
  ]

  moved :
      (w : Profile) (h : ℕ)
      → IsRing o cap n size w.ring
      → TxAt o n size w.ring w.tx.sent w.tx.slot_count (tx_store_head h)
      → RxAt o w.ring.header w.rx.received w.rx.phase
      → IsConsistent o cap n size (record {
        ring = record w.ring { header = record w.ring.header { head = u64 (h + 1) } };
        tx = record {
          phase = tx_loop;
          sent = u64 (w.tx.sent + tx_payload o w.tx.sent);
          slot_count = w.tx.slot_count;
        };
        rx = w.rx;
      })
  moved w h ring tx rx =
      let k = next_fits w.ring w.tx.sent w.tx.slot_count ring tx.0 tx.2 in
      let m = moved_sent w.ring.header.head w.tx.sent tx.0.position tx.2 in
      rw (tx.1, mod-eq_of_lt k, mod-eq_of_lt m.0)
        (record {
          ring = record {
            geometry = ground arith;
            tail_le = let l = ring.tail_le in omega arith;
            head_le = omega arith;
            chunk = λ _. tx.0.chunk;
            progress = let p = ring.progress in let e = tx.0.position in omega arith;
            chunks = λ j ge lt. moved_chunk w.ring h w.tx.sent w.tx.slot_count j ring tx ge lt;
          };
          tx = ground arith;
          rx = RxAt-head o w.ring.header w.rx.received w.rx.phase tx.0.flags rx;
        })

  accepted :
      (w : Profile)
      → IsRing o cap n size w.ring
      → TxAt o n size w.ring w.tx.sent w.tx.slot_count tx_find
      → tx_refuses o.chunk_size w.ring.header ≡ false
      → IsSending o n size w.ring 0 w.ring.header.slot_count
  unfolding tx_refuses chunk_start
  accepted w ring tx e =
      let g = ring.geometry in
      record { flags = tx.0; position = rw (tx.1) refl; rows = g.slot_count; chunk = ground arith }

  found :
      (a : Answer) (w : Profile)
      → IsRing o cap n size w.ring
      → TxAt o n size w.ring w.tx.sent w.tx.slot_count tx_find
      → RxAt o w.ring.header w.rx.received w.rx.phase
      → IsConsistent o cap n size (tx_turn o a tx_find w)
  unfolding tx_turn
  found a w ring tx rx = elim (Bool-cases (tx_finds w.ring.header)) [
    | inr e ↦ rw e (record { ring = ring; tx = ground arith; rx = rx })
    | inl e ↦ rw e (elim (Bool-cases (tx_refuses o.chunk_size w.ring.header || a.out_of_memory)) [
      | inl f ↦ rw f (record { ring = ring; tx = ground arith; rx = rx })
      | inr f ↦ rw f (record { ring = ring; tx = accepted w ring tx (ground arith); rx = rx })
    ])
  ]

  pub tx_turn-IsConsistent :
      (a : Answer) (ph : TxPhase) (w : Profile)
      → IsRing o cap n size w.ring
      → TxAt o n size w.ring w.tx.sent w.tx.slot_count ph
      → RxAt o w.ring.header w.rx.received w.rx.phase
      → IsConsistent o cap n size (tx_turn o a ph w)
  unfolding tx_turn
  tx_turn-IsConsistent a tx_find w ring tx rx = found a w ring tx rx
  tx_turn-IsConsistent a tx_loop w ring tx rx = record {
    ring = ring;
    tx = ground (arith, chunk_start_le o w.ring.header.head);
    rx = rx;
  }
  tx_turn-IsConsistent a (tx_loaded h) w ring tx rx = record {
    ring = ring;
    tx = loaded a h w.ring w.tx.sent w.tx.slot_count ring tx;
    rx = rx;
  }
  tx_turn-IsConsistent a (tx_fill h) w ring tx rx = filled w h ring tx rx
  tx_turn-IsConsistent a (tx_barrier h) w ring tx rx = record {
    ring = ring;
    tx = ground arith;
    rx = rx;
  }
  tx_turn-IsConsistent a (tx_store_seq h) w ring tx rx = seq_stored w h ring tx rx
  tx_turn-IsConsistent a (tx_store_head h) w ring tx rx = moved w h ring tx rx
  tx_turn-IsConsistent a tx_drain w ring tx rx = record { ring = ring; tx = ground arith; rx = rx }
  tx_turn-IsConsistent a (tx_drain_loaded h) w ring tx rx = record {
    ring = ring;
    tx = ground arith;
    rx = rx;
  }
  tx_turn-IsConsistent a tx_report w ring tx rx = record {
    ring = record {
      geometry = ground arith;
      tail_le = ring.tail_le;
      head_le = ring.head_le;
      chunk = ring.chunk;
      progress = ring.progress;
      chunks = ring.chunks;
    };
    tx = ground arith;
    rx = RxAt-report o w.ring.header w.tx.sent (u64 a.elapsed_ns) w.rx.received w.rx.phase rx;
  }
  tx_turn-IsConsistent a tx_report_barrier w ring tx rx = record {
    ring = ring;
    tx = ground arith;
    rx = rx;
  }
  tx_turn-IsConsistent a tx_store_flags w ring tx rx = record {
    ring = record {
      geometry = ground arith;
      tail_le = ring.tail_le;
      head_le = ring.head_le;
      chunk = ring.chunk;
      progress = ring.progress;
      chunks = ring.chunks;
    };
    tx = ground arith;
    rx = RxAt-flags o w.ring.header w.rx.received w.rx.phase rx;
  }
  tx_turn-IsConsistent a tx_done w ring tx rx = record { ring = ring; tx = tx; rx = rx }
  tx_turn-IsConsistent a tx_failed w ring tx rx = record { ring = ring; tx = tx; rx = rx }
