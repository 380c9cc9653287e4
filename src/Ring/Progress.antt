-- ===== src/Ring/Progress.antt =====
-- user_src/ntb_profiling.c: the programs can finish. A schedule that lets them take turns, with no
-- time-out and no failing barrier, carries the whole stream over.
use qemu_ntb_switch.Prelude.{
  ℕ, zero, suc, ◌+◌, ◌^◌, ◌≤◌, ◌<◌, ◌≡◌, ◌⊎◌, inl, inr, List, ◌++◌, false, true, some, arith, refl,
  sym, ap, u64, ◌∙◌,
}
use mathlib.Core.Path.{subst}
use qemu_ntb_switch.Ring.Layout.{Ring, ntb_ring_slot}
use qemu_ntb_switch.Ring.Transfer.{
  TxOptions, Profile, Turn, profile_turn, profile_run, profile_start, tx_turn, tx_done, rx_done,
  tx_payload, fill_slot, store_seq, ring_full, slot_is_invalid,
}
use qemu_ntb_switch.Ring.Invariant.{IsConsistent, IsRing, chunk_start_le}
use qemu_ntb_switch.Ring.Setup.{tx_finds, tx_refuses, rx_setup}
use qemu_ntb_switch.Ring.Fresh.{IsFresh, rx_setup-some, rx_slots}
use qemu_ntb_switch.Ring.Emission.{next_fits, moved_sent}
use qemu_ntb_switch.Ring.Safety.{
  profile_run-IsConsistent, profile_start-IsConsistent, rx_done-received,
}
use qemu_ntb_switch.Ring.Reception.{slot_valid, slot-HoldsChunk}
use qemu_ntb_switch.Ring.Schedule.{
  tx_turns, rx_turns, at_loops, Completes, sent_ring, taken_ring, sends, takes, ends,
  profile_run-append, continues,
}

le-cases : (a b : ℕ) → (a ≤ b) ⊎ (b < a)
le-cases a b = ground arith

module _ (o : TxOptions) (small : o.total_size < 2 ^ 64) (chunks : 0 < o.chunk_size)
    (cap n size : ℕ) where
  not_full :
      (r : Ring) (sent got : ℕ)
      → IsConsistent o cap n size (at_loops r sent n got)
      → r.header.tail ≡ r.header.head
      → ring_full r.header.head r.header.tail n ≡ false
  unfolding ring_full
  not_full r sent got c d =
      let p = c.ring.geometry.positive in
      let q = c.ring.progress in let b = chunk_start_le o r.header.head in ground arith

  sent_consistent :
      (r : Ring) (sent got : ℕ)
      → IsConsistent o cap n size (at_loops r sent n got)
      → r.header.tail ≡ r.header.head
      → sent < o.total_size
      → IsConsistent o cap n size
          (at_loops (sent_ring o r sent) (u64 (sent + tx_payload o sent)) n got)
  sent_consistent r sent got c d more =
      let w = at_loops r sent n got in
      subst (IsConsistent o cap n size) (sends o r sent n got more (not_full r sent got c d))
        (profile_run-IsConsistent o small chunks cap n size (tx_turns 6) w c)

  valid :
      (w : Profile)
      → IsRing o cap n size w.ring
      → w.ring.header.tail < w.ring.header.head
      → let slot = w.ring.slots (ntb_ring_slot w.ring.header w.ring.header.tail) in
        slot_is_invalid w.ring.header.tail slot.seq slot.len w.ring.header.slot_size ≡ false
  valid w ring lt =
      rw ((slot-HoldsChunk o cap n size small w ring w.ring.header.tail refl lt).len)
        (slot_valid o cap n size small w ring w.ring.header.tail refl lt)

  -- A chunk is sent and taken.
  round :
      (r : Ring) (sent got : ℕ)
      → IsConsistent o cap n size (at_loops r sent n got)
      → r.header.tail ≡ r.header.head
      → sent < o.total_size
      → (r' : Ring) × (sent' : ℕ) × (got' : ℕ) × (profile_run o
            (tx_turns 6 ++ rx_turns 5)
            (at_loops r sent n got)
          ≡ at_loops r' sent' n got')
        × (r'.header.tail ≡ r'.header.head)
        × (sent < sent')
  unfolding store_seq fill_slot
  round r sent got c d more =
      let room = not_full r sent got c d in
      let s = sends o r sent n got more room in
      let c' = sent_consistent r sent got c d more in
      let k = next_fits o cap n size small chunks r sent n c.ring c.tx more in
      let m = moved_sent o cap n size small chunks r.header.head sent c.tx.position more in
      let w = at_loops (sent_ring o r sent) (u64 (sent + tx_payload o sent)) n got in
      let lt : r.header.tail < u64 (r.header.head + 1) = omega arith in
      let t = takes o (sent_ring o r sent) w.tx got lt (valid w c'.ring lt) in
      (
        taken_ring o (sent_ring o r sent),
        u64 (sent + tx_payload o sent),
        _,
        profile_run-append o (tx_turns 6) (rx_turns 5) (at_loops r sent n got)
            ∙ ap (profile_run o (rx_turns 5)) s
            ∙ t,
        ap (λ i. u64 (i + 1)) d,
        omega arith,
      )

  all_sent :
      (r : Ring) (sent got : ℕ)
      → IsConsistent o cap n size (at_loops r sent n got)
      → o.total_size ≤ sent
      → sent ≡ o.total_size
  all_sent r sent got c h =
      let p = c.tx.position in let q = chunk_start_le o r.header.head in omega arith

  finish :
      (r : Ring) (sent got : ℕ)
      → IsConsistent o cap n size (at_loops r sent n got)
      → r.header.tail ≡ r.header.head
      → o.total_size ≤ sent
      → Completes o (at_loops r sent n got)
  finish r sent got c d h =
      let e = ends o r sent n got (all_sent r sent got c h) d in
      (tx_turns 6 ++ rx_turns 4, e.0, sent, e.1)

  -- What is left to do, with enough rounds for the bytes that remain.
  rounds :
      (fuel : ℕ) (r : Ring) (sent got : ℕ)
      → o.total_size ≤ sent + fuel
      → IsConsistent o cap n size (at_loops r sent n got)
      → r.header.tail ≡ r.header.head
      → Completes o (at_loops r sent n got)
  rounds zero r sent got enough c d = finish r sent got c d (omega arith)
  rounds (suc fuel) r sent got enough c d = elim (le-cases o.total_size sent) [
    | inl done ↦ finish r sent got c d done
    | inr more ↦
        let (r', sent', got', run, d', grows) = round r sent got c d more in
        let c' =
          subst (IsConsistent o cap n size) run
            (profile_run-IsConsistent o small chunks cap n size _ (at_loops r sent n got) c) in
        continues o (tx_turns 6 ++ rx_turns 5) _ _ run
          (rounds fuel r' sent' got' (omega arith) c' d')
  ]

found : (cap n size : ℕ) (r : Ring) → IsFresh cap n size r → tx_finds r.header ≡ true
unfolding tx_finds
found cap n size r f =
    let m = f.magic in
    let v = f.version in let g = f.flags in let h = f.head in let t = f.tail in ground arith

accepted :
    (o : TxOptions) (cap n size : ℕ) (r : Ring)
    → IsFresh cap n size r
    → 0 < o.chunk_size
    → o.chunk_size ≤ size
    → tx_refuses o.chunk_size r.header ≡ false
unfolding tx_refuses
accepted o cap n size r f some_bytes fits = let g = f.geometry in ground arith

-- The sender finds the ring.
starts :
    (o : TxOptions) (cap n size : ℕ) (r : Ring)
    → IsFresh cap n size r
    → 0 < o.chunk_size
    → o.chunk_size ≤ size
    → profile_run o (tx_turns 1) (profile_start r) ≡ at_loops r 0 n 0
unfolding profile_run profile_turn tx_turn profile_start
starts o cap n size r f some_bytes fits =
    rw (found cap n size r f, accepted o cap n size r f some_bytes fits)
      (ap (λ c. at_loops r 0 c 0) f.geometry.slot_count)

module _ (o : TxOptions) (small : o.total_size < 2 ^ 64) (some_bytes : 0 < o.chunk_size)
    (size chunk : ℕ) (r r' : Ring) (window : size < 2 ^ 64) (word : chunk < 2 ^ 32)
    (laid : rx_setup size chunk r ≡ some r') (fits : o.chunk_size ≤ r'.header.slot_size) where
  completes : Completes o (profile_start r')
  completes =
      let (n, s) = rx_slots size chunk in
      let f : IsFresh size n s r' = rx_setup-some size chunk r r' window word laid in
      let g = subst (λ x. o.chunk_size ≤ x) f.geometry.slot_size fits in
      let e = starts o size n s r' f some_bytes g in
      let c0 = profile_start-IsConsistent o small some_bytes size n s r' f in
      let c1 =
        profile_run-IsConsistent o small some_bytes size n s (tx_turns 1) (profile_start r') c0 in
      let c = subst (IsConsistent o size n s) e c1 in
      let all = o.total_size in
      let d = f.tail ∙ sym f.head in
      continues o (tx_turns 1) (profile_start r') _ e
        (rounds o small some_bytes size n s all r' 0 0 (omega arith) c d)

  -- If the sender's chunks fit the slots of a ring that run_rx has laid out, some interleaving
  -- of the two programs brings both to success, with the whole stream received.
  pub profile_run-completes :
      (ts : List Turn) × ((profile_run o ts (profile_start r')).tx.phase ≡ tx_done)
      × ((profile_run o ts (profile_start r')).rx.phase ≡ rx_done o.total_size)
      × ((profile_run o ts (profile_start r')).rx.received ≡ o.total_size)
  profile_run-completes =
      let (ts, t, m, x) = completes in
      let p = rx_done-received o small some_bytes size chunk r r' window word laid ts m x in
      (ts, t, x ∙ ap rx_done p.1, p.0)
