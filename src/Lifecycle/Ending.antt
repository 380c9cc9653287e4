-- ===== src/Lifecycle/Ending.antt =====
-- What becomes of the notifiers when the device goes away.
use qemu_ntb_switch.Prelude.{
  ℕ, zero, suc, ◌+◌, ◌≤◌, ◌<◌, ◌≡◌, ◌≢◌, refl, arith, true, false, not, ◌&&◌, ltb, ◌==◌,
  if◌then◌else◌, ap, ◌∙◌, inl, inr, Bool-cases,
}
use qemu_ntb_switch.Device.{
  World, fault, Peer, allocated, freed, double_free, ◌>>=◌, >>=-ok, >>=-fault, Ensures,
  Ensures-weaken,
}
use qemu_ntb_switch.Peers.{close_peer_eventfds, process_msg_disconnect}
use qemu_ntb_switch.Peers.Members.{Sized}
use qemu_ntb_switch.Peers.Reconnect.{closed, close_peer_eventfds_lem, double_close, disconnect_lem}
use qemu_ntb_switch.Lifecycle.{close_peers, ivshmem_exit}

abbrev pub closed_peer : Peer
closed_peer = record { nb_eventfds = 0; eventfds = freed }

-- Of the peers from `i` on, all but the one at `posn` still have their arrays.
abbrev Unclosed : ℕ → ℕ → World → Type 0
Unclosed i posn w =
    (j : ℕ)
    → i ≤ j
    → j < w.dev.nb_peers
    → j ≢ posn
    → (w.dev.peers j).eventfds ≡ allocated w.dev.vectors

Unclosed-closed : (i posn : ℕ) (w : World) → Unclosed i posn w → Unclosed (i + 1) posn (closed i w)
Unclosed-closed i posn w u j le lt ne =
    let later : (i == j) ≡ false = ground arith in rw later (u j (omega arith) lt ne)

-- Closing up to a peer whose array is freed already.
close_peers-double :
    (n i posn : ℕ) (w : World)
    → i ≤ posn
    → posn < i + n
    → i + n ≤ w.dev.nb_peers
    → Unclosed i posn w
    → w.dev.peers posn ≡ closed_peer
    → close_peers i n w ≡ fault double_free
unfolding close_peers
close_peers-double zero i posn w le lt fits u e = absurd (omega arith)
close_peers-double (suc n) i posn w le lt fits u e = elim (Bool-cases (i == posn)) [
  | inl here ↦
      let at : i ≡ posn = ground arith in
      >>=-fault (close_peer_eventfds i) (λ _. close_peers (i + 1) n) w double_free
        (double_close i w (omega arith) (ap w.dev.peers at ∙ e))
  | inr later ↦
      let ne : i ≢ posn = ground arith in
      >>=-ok (close_peer_eventfds i) (λ _. close_peers (i + 1) n) w (closed i w) tt
        (close_peer_eventfds_lem i w.dev.vectors w (omega arith)
          (u i (omega arith) (omega arith) ne))
      ∙ close_peers-double n (i + 1) posn (closed i w) (ground arith) (omega arith) (omega arith)
          (Unclosed-closed i posn w u) (rw later e)
]

-- If every peer has an array of the device's vectors and has sent no more notifiers than that,
-- and another client of the table disconnects, the device's end frees that client's array a
-- second time.
pub ivshmem_exit-process_msg_disconnect :
    (posn : ℕ) (w : World)
    → Sized w.dev
    → posn < w.dev.nb_peers
    → posn ≢ w.dev.vm_id
    → (process_msg_disconnect posn >>= λ _. ivshmem_exit) w ≡ fault double_free
unfolding ivshmem_exit
ivshmem_exit-process_msg_disconnect posn w sized lt ne =
    >>=-ok (process_msg_disconnect posn) (λ _. ivshmem_exit) w (closed posn w) false
      (disconnect_lem posn w.dev.vectors w lt ne (sized posn lt).0)
    ∙ close_peers-double w.dev.nb_peers 0 posn _ (omega arith) (omega arith) (omega arith)
        (λ j le below differs.
          let other : (posn == j) ≡ false = ground arith in rw other (sized j below).0)
        (let same : (posn == posn) ≡ true = ground arith in rw same refl)

closed_from :
    (n i j : ℕ) (w : World)
    → (if not (ltb j (i + 1)) && ltb j (i + 1 + n) then closed_peer else (closed i w).dev.peers j)
      ≡ (if not (ltb j i) && ltb j (i + suc n) then closed_peer else w.dev.peers j)
closed_from n i j w = ground arith

close_peers-closed :
    (n i j : ℕ) (w : World)
    → i + n ≤ w.dev.nb_peers
    → ((l : ℕ) → i ≤ l → l < w.dev.nb_peers → (w.dev.peers l).eventfds ≡ allocated w.dev.vectors)
    → Ensures (close_peers i n w) (λ _ w'.
      w'.dev.peers j ≡ (if not (ltb j i) && ltb j (i + n) then closed_peer else w.dev.peers j))
unfolding close_peers close_peer_eventfds
close_peers-closed zero i j w fits u = ground arith
close_peers-closed (suc n) i j w fits u =
    rw (close_peer_eventfds_lem i w.dev.vectors w (omega arith) (u i (omega arith) (omega arith))) (
      Ensures-weaken (close_peers (i + 1) n (closed i w)) _ _
        (close_peers-closed n (i + 1) j (closed i w) (omega arith) (λ l le lt.
          let later : (i == l) ≡ false = ground arith in rw later (u l (omega arith) lt)))
        (λ _ w' e. e ∙ closed_from n i j w))

-- If every peer has an array of the device's vectors and has sent no more notifiers than that,
-- the device's end runs without a fault and frees the array of each peer of the table, and of
-- no other.
pub ivshmem_exit-closes :
    (j : ℕ) (w : World)
    → Sized w.dev
    → Ensures
        (ivshmem_exit w)
        (λ _ w'. w'.dev.peers j ≡ (if ltb j w.dev.nb_peers then closed_peer else w.dev.peers j))
unfolding ivshmem_exit
ivshmem_exit-closes j w sized =
    Ensures-weaken (close_peers 0 w.dev.nb_peers _) _ _
      (close_peers-closed w.dev.nb_peers 0 j _ (omega arith) (λ l le lt. (sized l lt).0))
      (λ _ w' e. e ∙ (ground arith))
