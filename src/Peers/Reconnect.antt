-- ===== src/Peers/Reconnect.antt =====
-- Peers that come and go: what the table holds, and what becomes of a freed array.
use qemu_ntb_switch.Prelude.{
  ℕ, zero, suc, ◌+◌, ◌<◌, ◌≡◌, ◌≢◌, refl, arith, false, update, ◌∙◌, ◌∷◌, List,
}
use qemu_ntb_switch.Device.{
  World, ok, fault, allocated, freed, use_after_free, double_free, ◌>>=◌, >>=-ok,
  event_notifier_cleanup, Call,
}
use qemu_ntb_switch.Peers.{
  Kvm, close_peer_eventfds, process_msg_connect, process_msg_disconnect, cleanup_notifiers,
}

-- The calls that the clean-up of the notifiers makes.
pub cleanups : ℕ → ℕ → ℕ → List Call → List Call
cleanups posn i zero cs = cs
cleanups posn i (suc n) cs = cleanups posn (i + 1) n (event_notifier_cleanup posn i ∷ cs)

cleanup_notifiers_lem :
    (posn i n : ℕ) (w : World)
    → cleanup_notifiers posn i n w ≡ ok tt (record w { calls = cleanups posn i n w.calls })
unfolding cleanup_notifiers cleanups
cleanup_notifiers_lem posn i zero w = refl
cleanup_notifiers_lem posn i (suc n) w = cleanup_notifiers_lem posn (i + 1) n _

abbrev pub closed : ℕ → World → World
closed posn w = record w {
  dev = record w.dev {
    peers = update w.dev.peers posn (record { nb_eventfds = 0; eventfds = freed });
  };
  calls = cleanups posn 0 (w.dev.peers posn).nb_eventfds w.calls;
}

pub close_peer_eventfds_lem :
    (posn n : ℕ) (w : World)
    → posn < w.dev.nb_peers
    → (w.dev.peers posn).eventfds ≡ allocated n
    → close_peer_eventfds posn w ≡ ok tt (closed posn w)
unfolding close_peer_eventfds
close_peer_eventfds_lem posn n w lt e =
    ground (arith, cleanup_notifiers_lem posn 0 (w.dev.peers posn).nb_eventfds w)

pub double_close :
    (posn : ℕ) (w : World)
    → posn < w.dev.nb_peers
    → w.dev.peers posn ≡ record { nb_eventfds = 0; eventfds = freed }
    → close_peer_eventfds posn w ≡ fault double_free
unfolding close_peer_eventfds
double_close posn w lt e =
    ground (arith, cleanup_notifiers_lem posn 0 (w.dev.peers posn).nb_eventfds w)

pub disconnect_lem :
    (posn n : ℕ) (w : World)
    → posn < w.dev.nb_peers
    → posn ≢ w.dev.vm_id
    → (w.dev.peers posn).eventfds ≡ allocated n
    → process_msg_disconnect posn w ≡ ok false (closed posn w)
unfolding process_msg_disconnect
disconnect_lem posn n w lt ne e = ground (arith, close_peer_eventfds_lem posn n w)

connect_freed :
    (k : Kvm) (posn fd : ℕ) (w : World)
    → 0 < w.dev.vectors
    → w.dev.peers posn ≡ record { nb_eventfds = 0; eventfds = freed }
    → process_msg_connect k posn fd w ≡ fault use_after_free
unfolding process_msg_connect
connect_freed k posn fd w some_vectors e = ground arith

-- If another client with an allocated array of notifiers disconnects from a device with at
-- least one vector and connects again, its first descriptor is stored into the freed array.
pub process_msg_connect-process_msg_disconnect :
    (k : Kvm) (posn n fd : ℕ) (w : World)
    → posn < w.dev.nb_peers
    → posn ≢ w.dev.vm_id
    → 0 < w.dev.vectors
    → (w.dev.peers posn).eventfds ≡ allocated n
    → (process_msg_disconnect posn >>= λ _. process_msg_connect k posn fd) w ≡ fault use_after_free
process_msg_connect-process_msg_disconnect k posn n fd w lt ne some_vectors e =
    >>=-ok (process_msg_disconnect posn) (λ _. process_msg_connect k posn fd) w (closed posn w)
      false (disconnect_lem posn n w lt ne e)
    ∙ connect_freed k posn fd (closed posn w) some_vectors (ground arith)
