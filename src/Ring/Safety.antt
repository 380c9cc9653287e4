-- ===== src/Ring/Safety.antt =====
-- user_src/ntb_profiling.c: what any run of the two programs on a fresh ring comes to, whichever
-- way their accesses interleave.
use qemu_ntb_switch.Prelude.{ℕ, ◌+◌, ◌^◌, ◌≤◌, ◌<◌, ◌≡◌, ◌≢◌, List, [], ◌∷◌, some, arith, refl}
use mathlib.Core.Path.{subst}
use qemu_ntb_switch.Ring.Layout.{Ring, ntb_ring_slot, ring_flag_done}
use qemu_ntb_switch.Ring.Setup.{rx_setup}
use qemu_ntb_switch.Ring.Transfer.{
  TxOptions, Profile, Turn, turn_tx, turn_rx, profile_turn, profile_run, profile_start, tx_done,
  rx_done, rx_invalid,
}
use qemu_ntb_switch.Ring.Fresh.{IsFresh, rx_setup-some, rx_slots}
use qemu_ntb_switch.Ring.Invariant.{
  IsConsistent, TxAt, RxAt, chunk_start, HoldsChunk, ntb_ring_slot-row,
}
use qemu_ntb_switch.Ring.Emission.{tx_turn-IsConsistent}
use qemu_ntb_switch.Ring.Reception.{rx_turn-IsConsistent}

module _ (o : TxOptions) (small : o.total_size < 2 ^ 64) (chunks : 0 < o.chunk_size) where
  module _ (cap n size : ℕ) where
    profile_turn-IsConsistent :
        (t : Turn) (w : Profile)
        → IsConsistent o cap n size w
        → IsConsistent o cap n size (profile_turn o t w)
    unfolding profile_turn
    profile_turn-IsConsistent (turn_tx a) w c =
        tx_turn-IsConsistent o cap n size small chunks a w.tx.phase w c.ring c.tx c.rx
    profile_turn-IsConsistent (turn_rx a) w c =
        rx_turn-IsConsistent o cap n size small a w.rx.phase w c.ring c.tx c.rx

    pub profile_run-IsConsistent :
        (ts : List Turn) (w : Profile)
        → IsConsistent o cap n size w
        → IsConsistent o cap n size (profile_run o ts w)
    unfolding profile_run
    profile_run-IsConsistent [] w c = c
    profile_run-IsConsistent (t ∷ ts) w c =
        profile_run-IsConsistent ts (profile_turn o t w) (profile_turn-IsConsistent t w c)

    pub profile_start-IsConsistent :
        (r : Ring) → IsFresh cap n size r → IsConsistent o cap n size (profile_start r)
    unfolding profile_start chunk_start
    profile_start-IsConsistent r f = record {
      ring = record {
        geometry = f.geometry;
        tail_le = let h = f.head in let t = f.tail in omega arith;
        head_le = let h = f.head in omega arith;
        chunk = λ lt. absurd (let h = f.head in omega arith);
        progress = let h = f.head in omega arith;
        chunks = λ j ge lt. absurd (let h = f.head in omega arith);
      };
      tx = (f.flags, f.head);
      rx = rw (f.tail) refl;
    }

  module _ (size chunk : ℕ) (r r' : Ring) (window : size < 2 ^ 64) (word : chunk < 2 ^ 32)
      (laid : rx_setup size chunk r ≡ some r') (ts : List Turn) where
    pub session-IsConsistent :
        IsConsistent o size
          (rx_slots size chunk).0
          (rx_slots size chunk).1
          (profile_run o ts (profile_start r'))
    session-IsConsistent =
        profile_run-IsConsistent size _ _ ts (profile_start r')
          (profile_start-IsConsistent size _ _ r' (rx_setup-some size chunk r r' window word laid))

    -- On a ring that run_rx has laid out in a window, whichever way the loads and stores of
    -- run_rx and run_tx interleave and whatever the clock, the allocator and the barrier
    -- answer: the receiver never rejects a slot, the sender is never more than `slot_count`
    -- chunks ahead, and each slot between the tail and the head holds its chunk's sequence
    -- number and length.
    pub rx_turn-accepts :
        let w = profile_run o ts (profile_start r') in
        let h = w.ring.header in
        (w.rx.phase ≢ rx_invalid)
        × (h.tail ≤ h.head)
        × (h.head ≤ h.tail + h.slot_count)
        × ((j : ℕ) → h.tail ≤ j → j < h.head → HoldsChunk o j (w.ring.slots (ntb_ring_slot h j)))
    rx_turn-accepts =
        let c = session-IsConsistent in
        let w = profile_run o ts (profile_start r') in
        let h = w.ring.header in
        let g = c.ring.geometry in
        (
          λ e. subst (RxAt o h w.rx.received) e c.rx,
          c.ring.tail_le,
          rw (g.slot_count) c.ring.head_le,
          λ j ge lt. rw (ntb_ring_slot-row _ _ _ _ g j) (c.ring.chunks j ge lt),
        )

    -- If, after some interleaving of the two programs on a ring that run_rx has laid out, the
    -- receiver has ended with success, it has received exactly the bytes that the sender was
    -- asked to send, and the count that it prints for the sender is the same.
    pub rx_done-received :
        (m : ℕ)
        → (profile_run o ts (profile_start r')).rx.phase ≡ rx_done m
        → ((profile_run o ts (profile_start r')).rx.received ≡ o.total_size) × (m ≡ o.total_size)
    rx_done-received m e =
        let w = profile_run o ts (profile_start r') in
        subst (RxAt o w.ring.header w.rx.received) e (session-IsConsistent.rx)

    -- If the sender has ended with success after some interleaving of the two programs on a
    -- ring that run_rx has laid out, every chunk has been taken, the header reports the whole
    -- stream, and the done flag is set.
    pub tx_done-drained :
        let w = profile_run o ts (profile_start r') in
        w.tx.phase ≡ tx_done
        → (w.ring.header.tail ≡ w.ring.header.head)
          × (w.ring.header.total_bytes ≡ o.total_size)
          × (w.ring.header.flags ≡ ring_flag_done)
    tx_done-drained e =
        let w = profile_run o ts (profile_start r') in
        let at = subst (TxAt o _ _ w.ring w.tx.sent w.tx.slot_count) e (session-IsConsistent.tx) in
        (at.1.drained, at.1.reported, at.0)
