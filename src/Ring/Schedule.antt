-- ===== src/Ring/Schedule.antt =====
-- user_src/ntb_profiling.c: what a few turns in a row do when nothing fails.
use qemu_ntb_switch.Prelude.{
  ℕ, zero, suc, ◌+◌, ◌<◌, ◌≡◌, List, [], ◌∷◌, ◌++◌, false, true, arith, refl, ap, ltb, ◌==◌,
  nonzero, bit_and, u64, ◌∙◌,
}
use qemu_ntb_switch.Ring.Layout.{Ring, ntb_ring_slot}
use qemu_ntb_switch.Ring.Transfer.{
  TxOptions, Tx, Profile, Answer, Turn, turn_tx, turn_rx, profile_turn, profile_run, tx_turn,
  rx_turn, tx_loop, rx_loop, tx_done, rx_done, tx_payload, fill_slot, store_seq, ring_full,
  slot_is_invalid,
}

-- Nothing fails and nobody gives up.
abbrev calm : Answer
calm = record { timed_out = false; out_of_memory = false; barrier_failed = false; elapsed_ns = 0 }

abbrev pub tx_turns : ℕ → List Turn
tx_turns zero = []
tx_turns (suc k) = turn_tx calm ∷ tx_turns k

abbrev pub rx_turns : ℕ → List Turn
rx_turns zero = []
rx_turns (suc k) = turn_rx calm ∷ rx_turns k

-- Both programs at the tops of their loops.
abbrev pub at_loops : Ring → ℕ → ℕ → ℕ → Profile
at_loops r sent sc got = record {
  ring = r;
  tx = record { phase = tx_loop; sent = sent; slot_count = sc };
  rx = record { phase = rx_loop; received = got };
}

-- Some schedule brings both programs to their ends.
abbrev pub Completes : TxOptions → Profile → Type 0
Completes o w =
    (ts : List Turn) × ((profile_run o ts w).tx.phase ≡ tx_done)
    × (m : ℕ) × ((profile_run o ts w).rx.phase ≡ rx_done m)

module _ (o : TxOptions) where
  abbrev pub sent_ring : Ring → ℕ → Ring
  sent_ring r sent =
      let f = store_seq r.header.head (fill_slot o r.header.head sent r) in
      record f { header = record f.header { head = u64 (r.header.head + 1) } }

  pub sends :
      (r : Ring) (sent sc got : ℕ)
      → sent < o.total_size
      → ring_full r.header.head r.header.tail sc ≡ false
      → profile_run o (tx_turns 6) (at_loops r sent sc got)
        ≡ at_loops (sent_ring r sent) (u64 (sent + tx_payload o sent)) sc got
  unfolding profile_run profile_turn tx_turn
  sends r sent sc got more room =
      let m : ltb sent o.total_size ≡ true = ground arith in rw (m, room) refl

  abbrev pub taken_ring : Ring → Ring
  taken_ring r = record r { header = record r.header { tail = u64 (r.header.tail + 1) } }

  pub takes :
      (r : Ring) (tx : Tx) (got : ℕ)
      → r.header.tail < r.header.head
      → let slot = r.slots (ntb_ring_slot r.header r.header.tail) in
        slot_is_invalid r.header.tail slot.seq slot.len r.header.slot_size ≡ false
        → profile_run o
            (rx_turns 5)
            (record { ring = r; tx = tx; rx = record { phase = rx_loop; received = got } })
          ≡ record {
            ring = taken_ring r;
            tx = tx;
            rx = record {
              phase = rx_loop;
              received = u64 (got + (r.slots (ntb_ring_slot r.header r.header.tail)).len);
            };
          }
  unfolding profile_run profile_turn rx_turn
  takes r tx got more valid =
      let m : ltb r.header.tail r.header.head ≡ true = ground arith in rw (m, valid) refl

  abbrev ended_ring : Ring → ℕ → Ring
  ended_ring r sent = record r {
    header = record r.header { total_bytes = sent; elapsed_ns = 0; flags = 1 };
  }

  tx_ends :
      (r : Ring) (sent sc got : ℕ)
      → sent ≡ o.total_size
      → r.header.tail ≡ r.header.head
      → profile_run o (tx_turns 6) (at_loops r sent sc got) ≡ record {
        ring = ended_ring r sent;
        tx = record { phase = tx_done; sent = sent; slot_count = sc };
        rx = record { phase = rx_loop; received = got };
      }
  unfolding profile_run profile_turn tx_turn
  tx_ends r sent sc got e d =
      let m : ltb sent o.total_size ≡ false = ground arith in
      let t : (r.header.tail == r.header.head) ≡ true = ground arith in rw (m, t) refl

  rx_ends :
      (r : Ring) (tx : Tx) (got : ℕ)
      → r.header.tail ≡ r.header.head
      → r.header.flags ≡ 1
      → profile_run o
          (rx_turns 4)
          (record { ring = r; tx = tx; rx = record { phase = rx_loop; received = got } })
        ≡ record {
          ring = r;
          tx = tx;
          rx = record { phase = rx_done r.header.total_bytes; received = got };
        }
  unfolding profile_run profile_turn rx_turn
  rx_ends r tx got d f =
      let l : ltb r.header.tail r.header.head ≡ false = ground arith in
      let t : (r.header.tail == r.header.head) ≡ true = ground arith in
      let b : nonzero (bit_and r.header.flags 1) ≡ true = rw f refl in rw (l, b, t) refl

  pub profile_run-append :
      (ts us : List Turn) (w : Profile)
      → profile_run o (ts ++ us) w ≡ profile_run o us (profile_run o ts w)
  unfolding profile_run
  profile_run-append [] us w = refl
  profile_run-append (t ∷ ts) us w = profile_run-append ts us (profile_turn o t w)

  pub ends :
      (r : Ring) (sent sc got : ℕ)
      → sent ≡ o.total_size
      → r.header.tail ≡ r.header.head
      → (profile_run o (tx_turns 6 ++ rx_turns 4) (at_loops r sent sc got)).tx.phase ≡ tx_done
        × (profile_run o (tx_turns 6 ++ rx_turns 4) (at_loops r sent sc got)).rx.phase
          ≡ rx_done sent
  ends r sent sc got e d =
      let p =
        profile_run-append (tx_turns 6) (rx_turns 4) (at_loops r sent sc got)
        ∙ ap (profile_run o (rx_turns 4)) (tx_ends r sent sc got e d)
        ∙ rx_ends (ended_ring r sent) _ got d refl in
      (ap (λ w. w.tx.phase) p, ap (λ w. w.rx.phase) p)

  pub continues :
      (ts : List Turn) (w w' : Profile) → profile_run o ts w ≡ w' → Completes o w' → Completes o w
  continues ts w w' e (us, t, m, x) =
      let p = profile_run-append ts us w ∙ ap (profile_run o us) e in
      (ts ++ us, ap (λ v. v.tx.phase) p ∙ t, m, ap (λ v. v.rx.phase) p ∙ x)
