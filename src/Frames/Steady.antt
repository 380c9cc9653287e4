-- ===== src/Frames/Steady.antt =====
-- ntb-idt-app.c: the invariant of the driver, and the functions of the set-up that keep it.
use qemu_ntb_switch.Prelude.{
  ℕ, ◌+◌, ◌<◌, ◌≤◌, ◌≡◌, refl, List, Bool, true, false, some, none, Option, arith,
}
use qemu_ntb_switch.Driver.{Ntb, ResourceCall, Driver, is_some}
use qemu_ntb_switch.Driver.Correctness.{Preserves}
use qemu_ntb_switch.Driver.Ledger.{holding}
use qemu_ntb_switch.Frames.State.{
  AppDev, app_set_link, app_set_removed, app_overtaken, unmap_window, free_peer_mw, free_rx_buffer,
  free_inbound_mw,
}

abbrev pub held_rx : Option ℕ → ℕ → Option (ℕ × ℕ)
held_rx none n = none
held_rx (some b) n = some (b, n)

-- What the flags promise, and what is held.
pub record IsSteady (app : AppDev) (calls : List ResourceCall) : Type 0 where
  pub ready_link : app.peer_ready ≡ true → app.link_up ≡ true
  pub arrived : app.removed ≡ false → app.rx_avail ≡ true → app.rx_len + 16 ≤ app.rx_size
  pub arrived_in : app.removed ≡ false → app.rx_avail ≡ true → is_some app.rx_buf ≡ true
  pub room : is_some app.rx_buf ≡ true → 16 < app.rx_size
  pub ledger :
      holding calls
      ≡ some (record { buffer = held_rx app.rx_buf app.rx_size; mapping = app.peer_io })

module _ {H : Type 0} where
  pub app_set_link-IsSteady : (up : Bool) → Preserves {H = H} IsSteady (app_set_link up)
  unfolding app_set_link
  app_set_link-IsSteady true w g = ground arith
  app_set_link-IsSteady false w g = ground arith

  pub app_set_removed-IsSteady : Preserves {H = H} IsSteady app_set_removed
  unfolding app_set_removed
  app_set_removed-IsSteady w g = ground arith

  pub app_overtaken-IsSteady : Preserves {H = H} IsSteady app_overtaken
  unfolding app_overtaken
  app_overtaken-IsSteady w g = ground arith

  module _ (ntb : Ntb H) where
    pub unmapped :
        (io : Option ℕ) (w : Driver AppDev H)
        → w.app.peer_io ≡ io
        → IsSteady w.app w.calls
        → let u = (unmap_window ntb io w).1 in
          IsSteady
            (record u.app { peer_phys = 0; peer_map_size = 0; peer_size = 0; peer_xlat = 0 })
            u.calls
          × (u.app.peer_io ≡ none)
          × (u.app.link_up ≡ w.app.link_up)
          × (u.app.removed ≡ w.app.removed)
          × (u.app.rx_buf ≡ w.app.rx_buf)
    unfolding unmap_window
    unmapped none w e g = (ground arith, e, refl, refl, refl)
    unmapped (some p) w e g = (ground arith, refl, refl, refl, refl)

    pub free_peer_mw-IsSteady : Preserves IsSteady (free_peer_mw ntb)
    unfolding free_peer_mw
    free_peer_mw-IsSteady w g = (unmapped w.app.peer_io w refl g).0

    -- The buffer is only freed by the removal, once the window is unmapped.
    freed :
        (buf : Option ℕ) (w : Driver AppDev H)
        → w.app.rx_buf ≡ buf
        → w.app.peer_io ≡ none
        → IsSteady w.app w.calls
        → holding (free_rx_buffer ntb w.app.rx_size buf w).1.calls
          ≡ some (record { buffer = none; mapping = none })
    unfolding free_rx_buffer
    freed none w e r g = ground arith
    freed (some b) w e r g = ground arith

    pub free_inbound_mw-holding :
        (w : Driver AppDev H)
        → IsSteady w.app w.calls
        → holding (free_inbound_mw ntb (free_peer_mw ntb w).1).1.calls
          ≡ some (record { buffer = none; mapping = none })
    unfolding free_inbound_mw free_peer_mw
    free_inbound_mw-holding w g =
        let u = (free_peer_mw ntb w).1 in
        freed u.app.rx_buf u refl (unmapped w.app.peer_io w refl g).1 (free_peer_mw-IsSteady w g)
