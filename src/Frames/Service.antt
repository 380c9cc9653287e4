-- ===== src/Frames/Service.antt =====
-- ntb_idt_app_publish_ready, ntb_idt_app_complete_rx and ntb_idt_app_service_work.
use qemu_ntb_switch.Prelude.{
  ℕ, zero, suc, ◌+◌, ◌-◌, ◌^◌, Bool, true, Option, some, none, ◌||◌, not, ltb, ◌==◌, nonzero, u64,
  if◌then◌else◌,
}
use qemu_ntb_switch.Driver.{
  Ntb, D, pure, ◌>>=◌, ◌>>◌, when, get_app, put_app, ask, send_cmd, recv_cmd, link_is_up, is_some,
  enodev, or_return,
}
use qemu_ntb_switch.Frames.State.{
  AppDev, Frame, FrameMemory, frame_magic, frame_header_size, app_cmd_size, app_cmd_xlat,
  app_cmd_kick, app_set_link,
}
use qemu_ntb_switch.Frames.Setup.{setup_inbound_mw, try_setup_peer_locked}

unfoldable pub publish_ready : {H : Type 0} → Ntb H → D AppDev H ℕ
publish_ready ntb = do
  app ← get_app
  if not (is_some app.rx_buf)
      then pure enodev
      else (send_cmd ntb app.peer_idx app_cmd_size app.rx_size
          >>= or_return (send_cmd ntb app.peer_idx app_cmd_xlat app.rx_dma))

-- The test of a frame that is announced with this length.
unfoldable pub frame_is_invalid : Frame → ℕ → ℕ → Bool
frame_is_invalid f value rx_size =
    not (f.magic == frame_magic)
    || (not (f.len == value) || ltb (u64 (rx_size + 2 ^ 64 - frame_header_size)) f.len)

unfoldable pub take_frame : {H : Type 0} → Frame → ℕ → D AppDev H (Unit {0})
take_frame f value = do
  app ← get_app
  put_app (
      if frame_is_invalid f value app.rx_size
      then app
      else record app { rx_len = f.len; rx_seq = f.seq; rx_avail = true })

-- Without a buffer C would follow a null pointer; the work sets it up before it takes commands.
unfoldable pub complete_rx : {H : Type 0} → FrameMemory H → Option ℕ → ℕ → D AppDev H (Unit {0})
complete_rx mem none value = pure tt
complete_rx mem (some buf) value = do f ← ask (mem.read_frame buf); take_frame f value

-- One turn of the switch.
unfoldable pub app_command : {H : Type 0} → Ntb H → FrameMemory H → ℕ → ℕ → D AppDev H (Unit {0})
app_command ntb mem cmd value =
    if cmd == app_cmd_size
    then (do app ← get_app; put_app (record app { peer_size = value }); try_setup_peer_locked ntb)
    else if cmd == app_cmd_xlat
    then (do app ← get_app; put_app (record app { peer_xlat = value }); try_setup_peer_locked ntb)
    else if cmd == app_cmd_kick
    then (do app ← get_app; complete_rx mem app.rx_buf value)
    else pure tt

unfoldable pub app_act_on :
    {H : Type 0}
    → Ntb H
    → FrameMemory H
    → Option (ℕ × ℕ)
    → D AppDev H (Unit {0})
    → D AppDev H (Unit {0})
app_act_on ntb mem none rest = pure tt
app_act_on ntb mem (some (cmd, value)) rest = do app_command ntb mem cmd value; rest

-- The loop, with a bound on the commands that it takes.
unfoldable pub app_commands : {H : Type 0} → Ntb H → FrameMemory H → ℕ → D AppDev H (Unit {0})
app_commands ntb mem zero = pure tt
app_commands ntb mem (suc n) = do r ← recv_cmd ntb; app_act_on ntb mem r (app_commands ntb mem n)

unfoldable pub publish_unready : {H : Type 0} → Ntb H → D AppDev H (Unit {0})
publish_unready ntb = do
  app ← get_app
  when (not app.peer_ready) (do ret ← publish_ready ntb; pure tt)

unfoldable pub app_service_work :
    {H : Type 0} → Ntb H → FrameMemory H → ℕ → ℕ → D AppDev H (Unit {0})
app_service_work ntb mem buffer_size most = do
  app ← get_app
  when (not app.removed) (do
    up ← link_is_up ntb app.peer_idx
    app_set_link up
    when up (do
      ret ← setup_inbound_mw ntb buffer_size
      when (not (nonzero ret)) (do app_commands ntb mem most; publish_unready ntb)))
