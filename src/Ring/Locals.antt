-- ===== src/Ring/Locals.antt =====
-- user_src/ntb_profiling.c: neither program reads or changes the locals of the other.
use qemu_ntb_switch.Prelude.{◌≡◌, refl, Bool-cases, inl, inr, ◌||◌}
use qemu_ntb_switch.Ring.Setup.{tx_finds, tx_refuses}
use qemu_ntb_switch.Ring.Layout.{ntb_ring_slot}
use qemu_ntb_switch.Ring.Transfer.{
  Answer, TxOptions, Tx, Rx, Profile, tx_turn, rx_turn, TxPhase, RxPhase, tx_find, tx_loop,
  tx_loaded, tx_fill, tx_barrier, tx_store_seq, tx_store_head, tx_drain, tx_drain_loaded, tx_report,
  tx_report_barrier, tx_store_flags, tx_done, tx_failed, rx_loop, rx_loaded, rx_load_len,
  rx_load_seq, rx_store_tail, rx_load_flags, rx_confirm, rx_done, rx_invalid, rx_failed,
  slot_is_invalid,
}

pub tx_turn-rx :
    (o : TxOptions) (a : Answer) (ph : TxPhase) (w : Profile) (rx : Rx)
    → tx_turn o a ph (record w { rx = rx }) ≡ record (tx_turn o a ph w) { rx = rx }
unfolding tx_turn
tx_turn-rx o a tx_find w rx = elim (Bool-cases (tx_finds w.ring.header)) [
  | inl e ↦ rw e (elim (Bool-cases (tx_refuses o.chunk_size w.ring.header || a.out_of_memory)) [
    | inl f ↦ rw f refl
    | inr f ↦ rw f refl
  ])
  | inr e ↦ rw e refl
]
tx_turn-rx o a tx_loop w rx = refl
tx_turn-rx o a (tx_loaded h) w rx = refl
tx_turn-rx o a (tx_fill h) w rx = refl
tx_turn-rx o a (tx_barrier h) w rx = refl
tx_turn-rx o a (tx_store_seq h) w rx = refl
tx_turn-rx o a (tx_store_head h) w rx = refl
tx_turn-rx o a tx_drain w rx = refl
tx_turn-rx o a (tx_drain_loaded h) w rx = refl
tx_turn-rx o a tx_report w rx = refl
tx_turn-rx o a tx_report_barrier w rx = refl
tx_turn-rx o a tx_store_flags w rx = refl
tx_turn-rx o a tx_done w rx = refl
tx_turn-rx o a tx_failed w rx = refl

pub rx_turn-tx :
    (a : Answer) (ph : RxPhase) (w : Profile) (tx : Tx)
    → rx_turn a ph (record w { tx = tx }) ≡ record (rx_turn a ph w) { tx = tx }
unfolding rx_turn
rx_turn-tx a rx_loop w tx = refl
rx_turn-tx a (rx_loaded t) w tx = refl
rx_turn-tx a (rx_load_len t) w tx = refl
rx_turn-tx a (rx_load_seq t len) w tx =
    elim (Bool-cases (
      slot_is_invalid t (w.ring.slots (ntb_ring_slot w.ring.header t)).seq len
        w.ring.header.slot_size)) [ inl e ↦ rw e refl | inr e ↦ rw e refl ]
rx_turn-tx a (rx_store_tail t) w tx = refl
rx_turn-tx a (rx_load_flags t) w tx = refl
rx_turn-tx a (rx_confirm t) w tx = refl
rx_turn-tx a (rx_done n) w tx = refl
rx_turn-tx a rx_invalid w tx = refl
rx_turn-tx a rx_failed w tx = refl
