-- ===== src/Sisci/Service.antt =====
-- ntb_idt_sisci_setup_peer_mw_locked and ntb_idt_sisci_service_work.
use qemu_ntb_switch.Prelude.{
  ℕ, zero, suc, min, true, false, Option, some, none, ◌||◌, not, ◌==◌, nonzero, u32, if◌then◌else◌,
}
use qemu_ntb_switch.Driver.{
  Ntb, D, pure, ◌>>=◌, ◌>>◌, when, get_app, put_app, ask, tell, map_io, recv_cmd, link_is_up,
  enomem, is_some,
}
use qemu_ntb_switch.Sisci.State.{
  SisciDev, sisci_cmd_segid, sisci_cmd_size, sisci_cmd_xlat, sisci_cmd_avail, sisci_cmd_unavail,
  sisci_set_link, mark_peer_unready_locked,
}
use qemu_ntb_switch.Sisci.Segment.{publish_available_locked}

unfoldable pub use_mapping : {H : Type 0} → Ntb H → ℕ → ℕ → Option ℕ → D SisciDev H ℕ
use_mapping ntb phys map_size none = do tell ntb.ntb_peer_mw_clear_trans; pure enomem
use_mapping ntb phys map_size (some p) = do
  app ← get_app
  put_app (record app {
    peer_io = some p;
    peer_phys = phys;
    peer_map_size = map_size;
    peer_usable_size = min app.remote_size map_size;
    peer_ready = true;
  })
  pure 0

unfoldable pub setup_peer_mw_locked : {H : Type 0} → Ntb H → D SisciDev H ℕ
setup_peer_mw_locked ntb = do
  app ← get_app
  if is_some app.peer_io
        || (not app.remote_announced || (app.remote_xlat == 0 || app.remote_size == 0))
      then pure 0
      else (do
        r ← ask ntb.ntb_peer_mw_get_addr
        if nonzero r.0 then pure r.0 else (do
          ret ← ask (ntb.ntb_peer_mw_set_trans app.remote_xlat app.remote_size)
          if nonzero ret then pure ret else (do p ← map_io ntb r.1 r.2; use_mapping ntb r.1 r.2 p)))

-- One turn of the switch.
unfoldable pub sisci_command : {H : Type 0} → Ntb H → ℕ → ℕ → D SisciDev H (Unit {0})
sisci_command ntb cmd value =
    if cmd == sisci_cmd_segid
    then (do
      mark_peer_unready_locked ntb
      app ← get_app
      put_app (record app { remote_segment_id = u32 value; remote_announced = false }))
    else if cmd == sisci_cmd_size
    then (do app ← get_app; put_app (record app { remote_size = value }))
    else if cmd == sisci_cmd_xlat
    then (do app ← get_app; put_app (record app { remote_xlat = value }))
    else if cmd == sisci_cmd_avail
    then (do
      app ← get_app
      put_app (record app { remote_segment_id = u32 value; remote_announced = true })
      ret ← setup_peer_mw_locked ntb
      pure tt)
    else if cmd == sisci_cmd_unavail
    then (do
      app ← get_app
      when (app.remote_segment_id == u32 value)
          (do put_app (record app { remote_announced = false }); mark_peer_unready_locked ntb))
    else pure tt

-- The body of the loop, and what follows it.
unfoldable pub act_on :
    {H : Type 0} → Ntb H → Option (ℕ × ℕ) → D SisciDev H (Unit {0}) → D SisciDev H (Unit {0})
act_on ntb none rest = pure tt
act_on ntb (some (cmd, value)) rest = do sisci_command ntb cmd value; rest

-- The loop, with a bound on the commands that it takes.
unfoldable pub sisci_commands : {H : Type 0} → Ntb H → ℕ → D SisciDev H (Unit {0})
sisci_commands ntb zero = pure tt
sisci_commands ntb (suc n) = do r ← recv_cmd ntb; act_on ntb r (sisci_commands ntb n)

unfoldable pub sisci_service_work : {H : Type 0} → Ntb H → ℕ → D SisciDev H (Unit {0})
sisci_service_work ntb most = do
  app ← get_app
  when (not app.removed) (do
    up ← link_is_up ntb app.peer_idx
    sisci_set_link up
    if up
        then (do sisci_commands ntb most; ret ← publish_available_locked ntb; pure tt)
        else mark_peer_unready_locked ntb)
