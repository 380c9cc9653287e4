-- ===== src/Frames/Attendance.antt =====
-- ntb-idt-app.c: the service work keeps the invariant, whatever commands arrive.
use qemu_ntb_switch.Prelude.{
  ℕ, zero, suc, ◌≡◌, refl, Bool-cases, true, false, inl, inr, some, none, Option, nonzero, arith,
  not, ◌==◌,
}
use qemu_ntb_switch.Driver.{
  Ntb, Driver, D, ask, recv_cmd, link_is_up, send_cmd, ◌>>=◌, ◌>>◌, when, is_some,
}
use qemu_ntb_switch.Driver.Correctness.{Preserves, send_cmd-Preserves, recv_cmd-Preserves}
use qemu_ntb_switch.Frames.State.{
  AppDev, Frame, FrameMemory, app_set_link, app_cmd_size, app_cmd_xlat, app_cmd_kick,
}
use qemu_ntb_switch.Frames.Setup.{setup_inbound_mw}
use qemu_ntb_switch.Frames.Service.{
  publish_ready, frame_is_invalid, take_frame, complete_rx, app_command, app_act_on, app_commands,
  publish_unready, app_service_work,
}
use qemu_ntb_switch.Frames.Steady.{IsSteady, app_set_link-IsSteady}
use qemu_ntb_switch.Frames.Online.{
  IsOnline, setup_inbound_mw-IsOnline, try_setup_peer_locked-IsOnline,
}

module _ {H : Type 0} (ntb : Ntb H) (mem : FrameMemory H) where
  take_frame-IsOnline :
      (f : Frame) (value : ℕ) (w : Driver AppDev H)
      → IsOnline w.app w.calls
      → is_some w.app.rx_buf ≡ true
      → IsOnline (take_frame f value w).1.app (take_frame f value w).1.calls
  unfolding take_frame frame_is_invalid
  take_frame-IsOnline f value w g b =
      let s = g.steady in
      let l = g.link in
      let t = g.stays in
      let big = s.room b in
      elim (Bool-cases (frame_is_invalid f value w.app.rx_size)) [
        | inl e ↦ rw e g
        | inr e ↦ rw e (ground arith)
      ]

  completed :
      (b : Option ℕ) (value : ℕ) (w : Driver AppDev H)
      → w.app.rx_buf ≡ b
      → IsOnline w.app w.calls
      → IsOnline (complete_rx mem b value w).1.app (complete_rx mem b value w).1.calls
  unfolding complete_rx
  completed none value w e g = g
  completed (some buf) value w e g =
      let f = ask (mem.read_frame buf) w in
      take_frame-IsOnline f.0 value f.1 g (rw e (unfold is_some in refl))

  app_command-IsOnline : (cmd value : ℕ) → Preserves IsOnline (app_command ntb mem cmd value)
  unfolding app_command
  app_command-IsOnline cmd value w g =
      let s = g.steady in
      let l = g.link in
      let t = g.stays in
      elim (Bool-cases (cmd == app_cmd_size)) [
        | inl e ↦ rw e (try_setup_peer_locked-IsOnline ntb _ (ground arith))
        | inr e ↦ rw e (elim (Bool-cases (cmd == app_cmd_xlat)) [
          | inl f ↦ rw f (try_setup_peer_locked-IsOnline ntb _ (ground arith))
          | inr f ↦ rw f (elim (Bool-cases (cmd == app_cmd_kick)) [
            | inl h ↦ rw h (completed w.app.rx_buf value w refl g)
            | inr h ↦ rw h g
          ])
        ])
      ]

  acted :
      (n : ℕ) (c : Option (ℕ × ℕ)) (w : Driver AppDev H)
      → IsOnline w.app w.calls
      → Preserves IsOnline (app_commands ntb mem n)
      → let m = app_act_on ntb mem c (app_commands ntb mem n) in IsOnline (m w).1.app (m w).1.calls
  unfolding app_act_on
  acted n none w g ih = g
  acted n (some (cmd, value)) w g ih =
      ih (app_command ntb mem cmd value w).1 (app_command-IsOnline cmd value w g)

  app_commands-IsOnline : (most : ℕ) → Preserves IsOnline (app_commands ntb mem most)
  unfolding app_commands
  app_commands-IsOnline zero w g = g
  app_commands-IsOnline (suc n) w g =
      let r = recv_cmd ntb w in
      acted n r.0 r.1 (recv_cmd-Preserves IsOnline ntb w g) (app_commands-IsOnline n)

  publish_ready-IsSteady : Preserves IsSteady (publish_ready ntb)
  unfolding publish_ready
  publish_ready-IsSteady w g =
      let s = send_cmd ntb w.app.peer_idx app_cmd_size w.app.rx_size w in
      let p = send_cmd-Preserves IsSteady ntb w.app.peer_idx app_cmd_size w.app.rx_size w g in
      elim (Bool-cases (not (is_some w.app.rx_buf))) [
        | inl e ↦ rw e g
        | inr e ↦ rw e (elim (Bool-cases (nonzero s.0)) [
          | inl f ↦ rw f p
          | inr f ↦
              rw f (send_cmd-Preserves IsSteady ntb w.app.peer_idx app_cmd_xlat w.app.rx_dma s.1 p)
        ])
      ]

  publish_unready-IsSteady : Preserves IsSteady (publish_unready ntb)
  unfolding publish_unready
  publish_unready-IsSteady w g = elim (Bool-cases w.app.peer_ready) [
    | inl e ↦ simp e g
    | inr e ↦ simp e (publish_ready-IsSteady w g)
  ]

  served :
      (buffer_size most : ℕ) (w : Driver AppDev H)
      → IsSteady w.app w.calls
      → w.app.removed ≡ false
      → w.app.link_up ≡ true
      → let r = setup_inbound_mw ntb buffer_size w in
        (IsOnline r.1.app r.1.calls)
        × (let c = (app_commands ntb mem most r.1).1 in
            IsSteady (publish_unready ntb c).1.app (publish_unready ntb c).1.calls)
  served buffer_size most w g t l =
      let i =
        setup_inbound_mw-IsOnline ntb buffer_size w (record { steady = g; link = l; stays = t }) in
      let r = setup_inbound_mw ntb buffer_size w in
      let c = app_commands-IsOnline most r.1 i in
      (i, publish_unready-IsSteady (app_commands ntb mem most r.1).1 c.steady)

  online :
      (buffer_size most : ℕ) (w : Driver AppDev H)
      → IsSteady w.app w.calls
      → w.app.removed ≡ false
      → let v = (app_set_link true w).1 in
        let m : D AppDev H (Unit {0}) = setup_inbound_mw ntb buffer_size >>= λ ret.
        when (not (nonzero ret)) (app_commands ntb mem most >> publish_unready ntb) in
        IsSteady (m v).1.app (m v).1.calls
  unfolding app_set_link
  online buffer_size most w g t =
      let v = (app_set_link true w).1 in
      let (i, p) = served buffer_size most v (app_set_link-IsSteady true w g) t refl in
      elim (Bool-cases (nonzero (setup_inbound_mw ntb buffer_size v).0)) [
        | inl e ↦ rw e (i.steady)
        | inr e ↦ rw e p
      ]

  pub app_service_work-IsSteady :
      (buffer_size most : ℕ) → Preserves IsSteady (app_service_work ntb mem buffer_size most)
  unfolding app_service_work
  app_service_work-IsSteady buffer_size most w g =
      let u = link_is_up ntb w.app.peer_idx w in
      elim (Bool-cases w.app.removed) [
        | inl e ↦ simp e g
        | inr e ↦ simp e (elim (Bool-cases u.0) [
          | inr f ↦ rw f (app_set_link-IsSteady false u.1 g)
          | inl f ↦ rw f (online buffer_size most u.1 g e)
        ])
      ]
