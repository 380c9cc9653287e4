-- ===== src/Sisci/Sane.antt =====
-- ntb-idt-sisci-app.c: the invariant of the driver, and the functions that keep it.
use qemu_ntb_switch.Prelude.{
  ℕ, ◌≤◌, ◌≡◌, refl, List, Bool, Bool-cases, true, false, inl, inr, some, none, Option, nonzero,
  arith, not, ◌&&◌, ◌||◌,
}
use qemu_ntb_switch.Driver.{Ntb, ResourceCall, Driver, D, send_cmd, ◌>>=◌, is_some, or_return}
use qemu_ntb_switch.Driver.Correctness.{Preserves, send_cmd-Preserves}
use qemu_ntb_switch.Driver.Ledger.{holding}
use qemu_ntb_switch.Sisci.State.{
  SisciDev, Overtaken, sisci_overtaken, sisci_set_link, sisci_set_removed, mark_peer_unready_locked,
  unmap_peer, free_buffer, free_local_segment_locked,
}
use qemu_ntb_switch.Sisci.Segment.{publish_available_locked, publish_unavailable_locked}

abbrev pub held_buffer : Option ℕ → ℕ → Option (ℕ × ℕ)
held_buffer none n = none
held_buffer (some b) n = some (b, n)

-- What the flags promise, and what is held.
pub record IsSane (app : SisciDev) (calls : List ResourceCall) : Type 0 where
  pub ready_mapped : app.peer_ready ≡ true → is_some app.peer_io ≡ true
  pub ready_announced : app.removed ≡ false → app.peer_ready ≡ true → app.remote_announced ≡ true
  pub ready_link : app.peer_ready ≡ true → app.link_up ≡ true
  pub ready_size : app.peer_ready ≡ true → app.peer_usable_size ≤ app.peer_map_size
  pub published : app.removed ≡ false → app.local_published ≡ true → app.local_available ≡ true
  pub published_link : app.local_published ≡ true → app.link_up ≡ true
  pub available : app.local_available ≡ true → is_some app.local_buf ≡ true
  pub ledger :
      holding calls
      ≡ some (record { buffer = held_buffer app.local_buf app.local_size; mapping = app.peer_io })

module _ {H : Type 0} where
  pub sisci_set_link-IsSane : (up : Bool) → Preserves {H = H} IsSane (sisci_set_link up)
  unfolding sisci_set_link
  sisci_set_link-IsSane true w g = ground arith
  sisci_set_link-IsSane false w g = ground arith

  pub sisci_set_removed-IsSane : Preserves {H = H} IsSane sisci_set_removed
  unfolding sisci_set_removed
  sisci_set_removed-IsSane w g = ground arith

  pub sisci_overtaken-IsSane : (o : Overtaken) → Preserves {H = H} IsSane (sisci_overtaken o)
  unfolding sisci_overtaken
  sisci_overtaken-IsSane o w g = ground arith

  module _ (ntb : Ntb H) where
    unready :
        (io : Option ℕ) (w : Driver SisciDev H)
        → w.app.peer_io ≡ io
        → IsSane (record w.app { peer_ready = false }) w.calls
        → let u = (unmap_peer ntb io w).1 in
          IsSane
            (record u.app {
              peer_phys = 0;
              peer_map_size = 0;
              peer_usable_size = 0;
              peer_ready = false;
            })
            u.calls
    unfolding unmap_peer
    unready none w e g = ground arith
    unready (some p) w e g = ground arith

    -- It mends a state in which only the peer's readiness is wrong.
    pub mark_peer_unready_locked-mends :
        (w : Driver SisciDev H)
        → IsSane (record w.app { peer_ready = false }) w.calls
        → IsSane (mark_peer_unready_locked ntb w).1.app (mark_peer_unready_locked ntb w).1.calls
    unfolding mark_peer_unready_locked
    mark_peer_unready_locked-mends w g = unready w.app.peer_io w refl g

    pub mark_peer_unready_locked-IsSane : Preserves IsSane (mark_peer_unready_locked ntb)
    mark_peer_unready_locked-IsSane w g = mark_peer_unready_locked-mends w (ground arith)

    freed :
        (buf : Option ℕ) (w : Driver SisciDev H)
        → w.app.local_buf ≡ buf
        → IsSane w.app w.calls
        → let u = (free_buffer ntb w.app.local_size buf w).1 in
          IsSane
            (record u.app {
              local_dma = 0;
              local_size = 0;
              local_segment_id = 0;
              local_available = false;
              local_published = false;
            })
            u.calls
    unfolding free_buffer
    freed none w e g = ground arith
    freed (some b) w e g = ground arith

    pub free_local_segment_locked-IsSane : Preserves IsSane (free_local_segment_locked ntb)
    unfolding free_local_segment_locked
    free_local_segment_locked-IsSane w g = freed w.app.local_buf w refl g

    pub publish_unavailable_locked-IsSane :
        (id : ℕ) → Preserves IsSane (publish_unavailable_locked ntb id)
    unfolding publish_unavailable_locked
    publish_unavailable_locked-IsSane id w g =
        elim (Bool-cases (w.app.link_up && w.app.local_published)) [
          | inl e ↦ rw e (send_cmd-Preserves IsSane ntb _ _ _ _ (ground arith))
          | inr e ↦ rw e (ground arith)
        ]

    -- A command that is sent changes nothing that the invariant reads.
    sent :
        (a : SisciDev) (c : List ResourceCall) (next : D SisciDev H ℕ) (peer cmd value : ℕ)
        → IsSane a c
        → ((w : Driver SisciDev H)
            → w.app ≡ a
            → w.calls ≡ c
            → IsSane (next w).1.app (next w).1.calls)
        → (w : Driver SisciDev H) → w.app ≡ a
        → w.calls ≡ c
        → let m : D SisciDev H ℕ = send_cmd ntb peer cmd value >>= or_return next in
          IsSane (m w).1.app (m w).1.calls
    sent a c next peer cmd value g k w ea ec =
        let s = send_cmd ntb peer cmd value w in
        let p = send_cmd-Preserves (λ x y. (x ≡ a) × (y ≡ c)) ntb peer cmd value w (ea, ec) in
        elim (Bool-cases (nonzero s.0)) [
          | inl e ↦ rw (e, p.0, p.1) g
          | inr e ↦ rw e (k s.1 p.0 p.1)
        ]

    announced :
        (a : SisciDev) (c : List ResourceCall)
        → IsSane a c
        → a.link_up ≡ true
        → a.local_available ≡ true
        → (w : Driver SisciDev H) → w.app ≡ a
        → w.calls ≡ c
        → IsSane (record w.app { local_published = true }) w.calls
    announced a c g l v w ea ec = rw (ea, ec) (ground arith)

    pub publish_available_locked-IsSane : Preserves IsSane (publish_available_locked ntb)
    unfolding publish_available_locked
    publish_available_locked-IsSane w g =
        let a = w.app in
        elim (Bool-cases (
          not a.link_up
          || (not a.local_available || (not (is_some a.local_buf) || a.local_published)))) [
            | inl e ↦ rw e g
            | inr e ↦ rw e (
                sent a w.calls _ _ _ _ g
                  (sent a w.calls _ _ _ _ g (
                    sent a w.calls _ _ _ _ g (
                      sent a w.calls _ _ _ _ g
                        (announced a w.calls g (ground arith) (ground arith)))))
                  w refl refl)
          ]
