-- ===== src/Frames/Online.antt =====
-- ntb-idt-app.c: the set-up of the buffer and of the window, while the driver serves.
use qemu_ntb_switch.Prelude.{
  ℕ, ◌<◌, ◌≡◌, refl, ◌∙◌, List, ◌∷◌, Bool-cases, true, false, inl, inr, some, none, Option, nonzero,
  arith, not, ◌&&◌, ◌||◌, ◌==◌, ltb, leb,
}
use qemu_ntb_switch.Driver.{
  Ntb, ResourceCall, Driver, allocates, ask, note_alloc, note_map, is_some, is_aligned,
}
use qemu_ntb_switch.Driver.Correctness.{Preserves}
use qemu_ntb_switch.Frames.State.{AppDev, free_peer_mw, frame_header_size}
use qemu_ntb_switch.Frames.Setup.{
  app_undo_alloc, use_rx_buffer, inbound_size, setup_inbound_mw, use_window, setup_peer_mw,
  ready_after, try_setup_peer_locked,
}
use qemu_ntb_switch.Frames.Steady.{IsSteady, unmapped}

-- The driver serves: the link is up and it is not being removed.
pub record IsOnline (app : AppDev) (calls : List ResourceCall) : Type 0 where
  pub steady : IsSteady app calls
  pub link : app.link_up ≡ true
  pub stays : app.removed ≡ false

module _ {H : Type 0} (ntb : Ntb H) where
  none_empty : (b : Option ℕ) → is_some b ≡ false → b ≡ none
  unfolding is_some
  none_empty none e = refl
  none_empty (some x) e = absurd (cc)

  undone :
      (c : List ResourceCall) (n b ret : ℕ) (w : Driver AppDev H)
      → IsOnline (record w.app { rx_buf = none }) c
      → w.calls ≡ allocates b n ∷ c
      → IsOnline (app_undo_alloc ntb n b ret w).1.app (app_undo_alloc ntb n b ret w).1.calls
  unfolding app_undo_alloc is_some
  undone c n b ret w g e =
      let s = g.steady in let l = g.link in let r = g.stays in rw e (ground arith)

  buffer_used :
      (n al b d : ℕ) (w : Driver AppDev H) (c : List ResourceCall)
      → IsOnline w.app c
      → w.app.rx_buf ≡ none
      → 16 < n
      → w.calls ≡ allocates b n ∷ c
      → IsOnline
          (use_rx_buffer ntb n al (some (b, d)) w).1.app
          (use_rx_buffer ntb n al (some (b, d)) w).1.calls
  unfolding use_rx_buffer is_some
  buffer_used n al b d w c g v big e =
      let r = ask (ntb.ntb_mw_set_trans d n) w in
      let s = g.steady in
      let l = g.link in
      let t = g.stays in
      elim (Bool-cases (ltb 1 al && not (is_aligned d al))) [
        | inl i ↦ rw i (undone c n b _ _ (ground arith) e)
        | inr i ↦ rw i (elim (Bool-cases (nonzero r.0)) [
          | inl f ↦ rw f (undone c n b _ _ (ground arith) e)
          | inr f ↦ rw (f, e) (ground arith)
        ])
      ]

  buffer_noted :
      (n al : ℕ) (r : Option (ℕ × ℕ)) (w : Driver AppDev H)
      → IsOnline w.app w.calls
      → w.app.rx_buf ≡ none
      → 16 < n
      → let u = (note_alloc n r w).1 in
        IsOnline (use_rx_buffer ntb n al r u).1.app (use_rx_buffer ntb n al r u).1.calls
  buffer_noted n al none w g v big = unfold use_rx_buffer in g
  buffer_noted n al (some (b, d)) w g v big =
      buffer_used n al b d (note_alloc n (some (b, d)) w).1 w.calls g v big refl

  pub setup_inbound_mw-IsOnline :
      (buffer_size : ℕ) → Preserves IsOnline (setup_inbound_mw ntb buffer_size)
  unfolding setup_inbound_mw
  setup_inbound_mw-IsOnline buffer_size w g =
      let r = ask ntb.ntb_mw_get_align w in
      let n = inbound_size buffer_size r.0.2 r.0.3 in
      elim (Bool-cases (is_some w.app.rx_buf)) [
        | inl e ↦ rw e g
        | inr e ↦ rw e (elim (Bool-cases (nonzero r.0.0)) [
          | inl f ↦ rw f g
          | inr f ↦ rw f (elim (Bool-cases (leb n frame_header_size)) [
            | inl h ↦ rw h g
            | inr h ↦ rw h (
                let b = ask (ntb.dma_alloc_coherent n) r.1 in
                buffer_noted n r.0.1 b.0 b.1 g (none_empty w.app.rx_buf e) (ground arith))
          ])
        ])
      ]

  window_noted :
      (xlat n phys size : ℕ) (r : Option ℕ) (w : Driver AppDev H)
      → IsOnline w.app w.calls
      → w.app.peer_io ≡ none
      → let u = (note_map r w).1 in
        IsOnline
          (use_window ntb xlat n phys size r u).1.app
          (use_window ntb xlat n phys size r u).1.calls
  unfolding use_window
  window_noted xlat n phys size none w g v = g
  window_noted xlat n phys size (some p) w g v =
      let s = g.steady in let l = g.link in let t = g.stays in ground arith

  emptied :
      (w : Driver AppDev H)
      → IsOnline w.app w.calls
      → let u = (free_peer_mw ntb w).1 in IsOnline u.app u.calls × (u.app.peer_io ≡ none)
  unfolding free_peer_mw
  emptied w g =
      let (s, io, l, r, b) = unmapped ntb w.app.peer_io w refl g.steady in
      (record { steady = s; link = l ∙ g.link; stays = r ∙ g.stays }, io)

  setup_peer_mw-IsOnline : Preserves IsOnline (setup_peer_mw ntb)
  unfolding setup_peer_mw
  setup_peer_mw-IsOnline w g =
      let a = w.app in
      let (h, io) = emptied w g in
      let u = (free_peer_mw ntb w).1 in
      let r = ask ntb.ntb_peer_mw_get_addr u in
      let t = ask (ntb.ntb_peer_mw_set_trans a.peer_xlat a.peer_size) r.1 in
      elim (Bool-cases (a.peer_xlat == 0 || leb a.peer_size frame_header_size)) [
        | inl e ↦ rw e g
        | inr e ↦ rw e (elim (Bool-cases (nonzero r.0.0)) [
          | inl f ↦ rw f h
          | inr f ↦ rw f (elim (Bool-cases (nonzero t.0)) [
            | inl i ↦ rw i h
            | inr i ↦ rw i (
                let m = ask (ntb.ioremap_wc r.0.1 r.0.2) t.1 in
                window_noted a.peer_xlat a.peer_size r.0.1 r.0.2 m.0 m.1 h io)
          ])
        ])
      ]

  ready_after-IsOnline : (ret : ℕ) → Preserves {H = H} IsOnline (ready_after ret)
  unfolding ready_after
  ready_after-IsOnline ret w g =
      let s = g.steady in
      let l = g.link in
      let t = g.stays in
      elim (Bool-cases (nonzero ret)) [ inl e ↦ rw e g | inr e ↦ rw e (ground arith) ]

  pub try_setup_peer_locked-IsOnline : Preserves IsOnline (try_setup_peer_locked ntb)
  unfolding try_setup_peer_locked
  try_setup_peer_locked-IsOnline w g =
      let u = setup_peer_mw ntb w in
      elim (Bool-cases (w.app.peer_xlat == 0 || w.app.peer_size == 0)) [
        | inl e ↦ rw e g
        | inr e ↦ rw e (ready_after-IsOnline u.0 u.1 (setup_peer_mw-IsOnline w g))
      ]
