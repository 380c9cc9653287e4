-- ===== src/Tests/Ring.antt =====
-- Runs of the profiling ring on small windows.
use qemu_ntb_switch.Prelude.{
  ℕ, ◌≡◌, ◌≢◌, ◌≤◌, ◌<◌, ◌+◌, ◌⊎◌, List, [], ◌∷◌, ◌++◌, some, false, refl, arith,
}
use qemu_ntb_switch.Ring.{
  Ring, TxOptions, Answer, Turn, turn_tx, turn_rx, rx_setup, rx_header, rx_slot_size,
  ntb_ring_max_slot_size, ntb_ring_calc_slot_count, profile_run, profile_turn, profile_start,
  tx_turn, rx_turn, rx_done, tx_done, tx_finds, tx_refuses, ring_full, fill_slot, store_seq,
  tx_payload, copy_pattern, slot_is_invalid, ntb_ring_slot, ntb_ring_slot_payload, rx_invalid,
  ring_flag_done,
}
use qemu_ntb_switch.Ring.Fresh.{rx_setup-Separates}
use qemu_ntb_switch.Ring.Invariant.{HoldsChunk}
use qemu_ntb_switch.Ring.Safety.{rx_turn-accepts, rx_done-received, tx_done-drained}
use qemu_ntb_switch.Ring.Progress.{profile_run-completes}

abbrev pub blank : Ring
blank = record {
  header = rx_header 0 0;
  slots = λ _. record { seq = 0; total = 0; len = 0; flags = 0 };
  bytes = λ _. 0;
}

abbrev pub laid_ring : Ring
laid_ring = record blank { header = rx_header 5 16 }

abbrev pub options : TxOptions
options = record { total_size = 40; chunk_size = 16 }

pub laid_ring_lem : rx_setup 512 16 blank ≡ some laid_ring
unfolding rx_setup rx_slot_size ntb_ring_max_slot_size ntb_ring_calc_slot_count
laid_ring_lem = refl

abbrev pub calm : Answer
calm = record { timed_out = false; out_of_memory = false; barrier_failed = false; elapsed_ns = 7 }

abbrev chunk_turns : List Turn
chunk_turns =
    turn_tx calm
    ∷ turn_tx calm
    ∷ turn_tx calm
    ∷ turn_rx calm
    ∷ turn_tx calm
    ∷ turn_tx calm
    ∷ turn_rx calm
    ∷ turn_tx calm
    ∷ turn_rx calm
    ∷ turn_rx calm
    ∷ turn_rx calm
    ∷ turn_rx calm
    ∷ turn_rx calm
    ∷ turn_rx calm
    ∷ []

abbrev last_turns : List Turn
last_turns =
    turn_tx calm
    ∷ turn_tx calm
    ∷ turn_tx calm
    ∷ turn_tx calm
    ∷ turn_tx calm
    ∷ turn_tx calm
    ∷ turn_rx calm
    ∷ turn_rx calm
    ∷ turn_rx calm
    ∷ turn_rx calm
    ∷ turn_rx calm
    ∷ turn_rx calm
    ∷ []

abbrev whole_session : List Turn
whole_session = turn_tx calm ∷ (chunk_turns ++ (chunk_turns ++ (chunk_turns ++ last_turns)))

whole_session_lem :
    (profile_run options whole_session (profile_start laid_ring)).rx.phase ≡ rx_done 40
unfolding profile_run profile_turn profile_start tx_turn rx_turn tx_finds tx_refuses ring_full
    fill_slot store_seq tx_payload copy_pattern slot_is_invalid ntb_ring_slot rx_header
whole_session_lem = refl

sender_done : (profile_run options whole_session (profile_start laid_ring)).tx.phase ≡ tx_done
unfolding profile_run profile_turn profile_start tx_turn rx_turn tx_finds tx_refuses ring_full
    fill_slot store_seq tx_payload copy_pattern slot_is_invalid ntb_ring_slot rx_header
sender_done = refl

rx_setup-Separates_example :
    let h = laid_ring.header in
    (64 ≤ ntb_ring_slot h 3)
    × (ntb_ring_slot h 3 + (64 + h.slot_size) ≤ 512)
    × (ntb_ring_slot_payload h (ntb_ring_slot h 3) ≡ ntb_ring_slot h 3 + 64)
    × ((ntb_ring_slot h 3 + (64 + h.slot_size) ≤ ntb_ring_slot h 6)
        ⊎ (ntb_ring_slot h 6 + (64 + h.slot_size) ≤ ntb_ring_slot h 3))
unfolding rx_header
rx_setup-Separates_example =
    rx_setup-Separates 512 16 blank laid_ring (omega arith) (omega arith) laid_ring_lem 3 6
      (omega arith) (omega arith)

rx_turn-accepts_example :
    let w = profile_run options chunk_turns (profile_start laid_ring) in
    let h = w.ring.header in
    (w.rx.phase ≢ rx_invalid)
    × (h.tail ≤ h.head)
    × (h.head ≤ h.tail + h.slot_count)
    × ((j : ℕ) → h.tail ≤ j → j < h.head → HoldsChunk options j (w.ring.slots (ntb_ring_slot h j)))
rx_turn-accepts_example =
    rx_turn-accepts options (omega arith) (omega arith) 512 16 blank laid_ring (omega arith)
      (omega arith) laid_ring_lem chunk_turns

rx_done-received_example :
    ((profile_run options whole_session (profile_start laid_ring)).rx.received ≡ 40)
    × (◌≡◌ {A = ℕ} 40 40)
rx_done-received_example =
    rx_done-received options (omega arith) (omega arith) 512 16 blank laid_ring (omega arith)
      (omega arith) laid_ring_lem whole_session 40 whole_session_lem

tx_done-drained_example :
    let w = profile_run options whole_session (profile_start laid_ring) in
    (w.ring.header.tail ≡ w.ring.header.head)
    × (w.ring.header.total_bytes ≡ 40)
    × (w.ring.header.flags ≡ ring_flag_done)
tx_done-drained_example =
    tx_done-drained options (omega arith) (omega arith) 512 16 blank laid_ring (omega arith)
      (omega arith) laid_ring_lem whole_session sender_done

pub fitting : 16 ≤ laid_ring.header.slot_size
unfolding rx_header
fitting = omega arith

profile_run-completes_example :
    (ts : List Turn) × ((profile_run options ts (profile_start laid_ring)).tx.phase ≡ tx_done)
    × ((profile_run options ts (profile_start laid_ring)).rx.phase ≡ rx_done 40)
    × ((profile_run options ts (profile_start laid_ring)).rx.received ≡ 40)
profile_run-completes_example =
    profile_run-completes options (omega arith) (omega arith) 512 16 blank laid_ring (omega arith)
      (omega arith) laid_ring_lem fitting
