-- ===== src/Peers/Members.antt =====
-- A connection message of another client: its notifier is counted, in a table that stays sound.
use qemu_ntb_switch.Prelude.{
  ℕ, ◌+◌, ◌≤◌, ◌<◌, ◌≡◌, ◌≢◌, refl, arith, Bool, true, false, not, ◌&&◌, some, ltb, leb, ◌==◌,
  update, ap, ◌∙◌, ◌∷◌, inl, inr, Bool-cases, min,
}
use qemu_ntb_switch.Device.{
  World, ok, IvshmemState, allocated, ◌>>◌, Ensures, Ensures-weaken, Ensures->>=,
  event_notifier_init_fd, close, check_eventfds,
}
use qemu_ntb_switch.Notify.{idt_kick_peer_interrupt, eventfd_interrupt_host}
use qemu_ntb_switch.Notify.Safety.{PeersFit, peer_at, Notifies, idt_kick_peer_interrupt-Notifies}
use qemu_ntb_switch.Peers.{
  Kvm, resize_peers, grow_peers, process_msg_connect, after_connect, process_peer_msg, grow_for,
}

-- Every peer in the table has an array of the device's vectors, and has sent no more notifiers.
abbrev pub Sized : IvshmemState → Type 0
Sized s =
    (i : ℕ)
    → i < s.nb_peers
    → ((s.peers i).eventfds ≡ allocated s.vectors) × ((s.peers i).nb_eventfds ≤ s.vectors)

-- Only the other machine's identifier may have been learnt.
abbrev pub SameDevice : World → World → Type 0
SameDevice w w' = w'.dev ≡ record w.dev { other_vm_id = w'.dev.other_vm_id }

PeersFit-Sized : (s : IvshmemState) → Sized s → PeersFit s
PeersFit-Sized s sized i = elim (Bool-cases (ltb i s.nb_peers)) [
  | inl lt ↦ let (e, le) = sized i (ground arith) in rw (lt, e) le
  | inr ge ↦ rw ge refl
]

after_connect-SameDevice :
    (k : Kvm) (posn vector : ℕ) (w : World)
    → PeersFit w.dev
    → Ensures (after_connect k posn vector w) (λ _ w'. SameDevice w w')
unfolding after_connect
after_connect-SameDevice k posn vector w fit =
    elim (Bool-cases (not (posn == w.dev.vm_id) && vector == eventfd_interrupt_host)) [
      | inl kicks ↦ rw kicks (
          Ensures-weaken (idt_kick_peer_interrupt w) (λ _. Notifies eventfd_interrupt_host w) _
            (idt_kick_peer_interrupt-Notifies w fit) (λ _ w' n. n.dev))
      | inr quiet ↦ rw quiet refl
    ]

-- The world after the descriptor has been stored as the peer's next notifier.
abbrev pub counted : ℕ → ℕ → World → World
counted posn fd w =
    let peer = w.dev.peers posn in
    record w {
      dev = record w.dev {
        peers = update w.dev.peers posn (record peer { nb_eventfds = peer.nb_eventfds + 1 });
      };
      calls = event_notifier_init_fd posn peer.nb_eventfds fd ∷ w.calls;
    }

Sized-counted :
    (posn fd : ℕ) (w : World)
    → Sized w.dev
    → (w.dev.peers posn).nb_eventfds < w.dev.vectors
    → Sized (counted posn fd w).dev
Sized-counted posn fd w sized lt i below = elim (Bool-cases (posn == i)) [
  | inl same ↦ rw same ((sized posn (ground arith)).0, omega arith)
  | inr differs ↦ rw differs (sized i below)
]

connect_room :
    (k : Kvm) (posn fd : ℕ) (w : World)
    → Sized w.dev
    → posn < w.dev.nb_peers
    → posn ≢ w.dev.vm_id
    → (w.dev.peers posn).nb_eventfds < w.dev.vectors
    → process_msg_connect k posn fd w
      ≡ (after_connect k posn (w.dev.peers posn).nb_eventfds >> λ w'. ok false w')
          (counted posn fd w)
unfolding process_msg_connect check_eventfds
connect_room k posn fd w sized in_table ne lt =
    let full : leb w.dev.vectors (w.dev.peers posn).nb_eventfds ≡ false = ground arith in
    let fits : ltb (w.dev.peers posn).nb_eventfds w.dev.vectors ≡ true = ground arith in
    let own : (posn == w.dev.vm_id) ≡ false = ground arith in
    rw (full, (sized posn in_table).0, fits, own) refl

connect_full :
    (k : Kvm) (posn fd : ℕ) (w : World)
    → w.dev.vectors ≤ (w.dev.peers posn).nb_eventfds
    → process_msg_connect k posn fd w ≡ ok true (record w { calls = close fd ∷ w.calls })
unfolding process_msg_connect
connect_full k posn fd w le = ground arith

Sized-SameDevice : (w w' : World) → SameDevice w w' → Sized w.dev → Sized w'.dev
Sized-SameDevice w w' e sized i lt =
    rw (ap (λ d. d.peers) e, ap (λ d. d.vectors) e) (sized i (rw (ap (λ d. d.nb_peers) e) at lt))

-- What a connection message does to the table, of which the peer `posn` is a part: the
-- notifier is counted, or refused where the peer has sent all of them.
abbrev pub Counts : ℕ → World → Bool → World → Type 0
Counts posn w err w' =
    Sized w'.dev
    × ((w'.dev.peers posn).nb_eventfds ≡ min ((w.dev.peers posn).nb_eventfds + 1) w.dev.vectors)
    × (err ≡ leb w.dev.vectors (w.dev.peers posn).nb_eventfds)

after_connect-Counts :
    (posn fd : ℕ) (w w' : World)
    → Sized w.dev
    → (w.dev.peers posn).nb_eventfds < w.dev.vectors
    → SameDevice (counted posn fd w) w'
    → Counts posn w false w'
after_connect-Counts posn fd w w' sized lt e = (
  Sized-SameDevice (counted posn fd w) w' e (Sized-counted posn fd w sized lt),
  ap (λ d. (d.peers posn).nb_eventfds) e ∙ (ground arith),
  (ground arith),
)

process_msg_connect-Counts :
    (k : Kvm) (posn fd : ℕ) (w : World)
    → Sized w.dev
    → posn < w.dev.nb_peers
    → posn ≢ w.dev.vm_id
    → Ensures (process_msg_connect k posn fd w) (Counts posn w)
process_msg_connect-Counts k posn fd w sized in_table ne =
    elim (Bool-cases (ltb (w.dev.peers posn).nb_eventfds w.dev.vectors)) [
      | inl below ↦
          let lt : (w.dev.peers posn).nb_eventfds < w.dev.vectors = ground arith in
          rw (connect_room k posn fd w sized in_table ne lt) (
            Ensures->>= (after_connect k posn (w.dev.peers posn).nb_eventfds) (λ _ w'. ok false w')
              (counted posn fd w) (λ _. SameDevice (counted posn fd w)) (Counts posn w)
              (after_connect-SameDevice k posn (w.dev.peers posn).nb_eventfds (counted posn fd w)
                (PeersFit-Sized (counted posn fd w).dev (Sized-counted posn fd w sized lt)))
              (λ _ w'. after_connect-Counts posn fd w w' sized lt))
      | inr full ↦
          let le : w.dev.vectors ≤ (w.dev.peers posn).nb_eventfds = ground arith in
          let eq : (w.dev.peers posn).nb_eventfds ≡ w.dev.vectors =
            (let same = (sized posn in_table).1 in omega arith) in
          rw (connect_full k posn fd w le) (sized, (omega arith), (ground arith))
    ]

-- The table has an entry for the client `n`, which the others keep theirs beside.
abbrev Grown : ℕ → World → World → Type 0
Grown n w w' =
    Sized w'.dev
    × (n < w'.dev.nb_peers)
    × (w'.dev.vm_id ≡ w.dev.vm_id)
    × (w'.dev.vectors ≡ w.dev.vectors)
    × ((w'.dev.peers n).nb_eventfds ≡ (peer_at w.dev n).nb_eventfds)

abbrev enlarged : ℕ → World → World
enlarged nb w = record w {
  dev = record w.dev {
    peers = grow_peers w.dev.peers w.dev.nb_peers nb w.dev.vectors;
    nb_peers = nb;
  };
}

Sized-enlarged : (nb : ℕ) (w : World) → Sized w.dev → Sized (enlarged nb w).dev
unfolding grow_peers
Sized-enlarged nb w sized i below = elim (Bool-cases (leb w.dev.nb_peers i)) [
  | inl new ↦ ground arith
  | inr old ↦ ground (arith, sized i)
]

resize_lem : (nb : ℕ) (w : World) → w.dev.nb_peers < nb → resize_peers nb w ≡ ok tt (enlarged nb w)
unfolding resize_peers
resize_lem nb w lt = ground arith

grow_for-Grown : (n : ℕ) (w : World) → Sized w.dev → Ensures (grow_for n w) (λ _ w'. Grown n w w')
unfolding grow_for grow_peers
grow_for-Grown n w sized = elim (Bool-cases (leb w.dev.nb_peers n)) [
  | inl new ↦
      rw (new, resize_lem (n + 1) w (ground arith))
        (Sized-enlarged (n + 1) w sized, (omega arith), refl, refl, (ground arith))
  | inr old ↦ rw old (sized, (ground arith), refl, refl, (ground arith))
]

-- If every peer has an array of the device's vectors and has sent no more notifiers than that,
-- then a connection message of another client, also of one beyond the end of the table, ends
-- without a fault, keeps this so for every peer, and counts the client's notifier, or refuses
-- it with an error where the client has sent all of them.
pub process_peer_msg-Counts :
    (k : Kvm) (n fd : ℕ) (w : World)
    → Sized w.dev
    → n ≢ w.dev.vm_id
    → Ensures (process_peer_msg k n (some fd) w) (λ err w'.
      Sized w'.dev
      × ((w'.dev.peers n).nb_eventfds ≡ min ((peer_at w.dev n).nb_eventfds + 1) w.dev.vectors)
      × (err ≡ leb w.dev.vectors (peer_at w.dev n).nb_eventfds))
unfolding process_peer_msg
process_peer_msg-Counts k n fd w sized ne =
    Ensures->>= (grow_for n) (λ _. process_msg_connect k n fd) w (λ _. Grown n w) _
      (grow_for-Grown n w sized)
      (λ _ u g.
        Ensures-weaken (process_msg_connect k n fd u) (Counts n u) _
          (process_msg_connect-Counts k n fd u g.0 g.1 (λ e. ne (e ∙ g.2)))
          (λ err w' c. (c.0, rw (← g.4, ← g.3) c.1, rw (← g.4, ← g.3) c.2)))
