-- ===== src/Frames/State.antt =====
-- ntb_idt_app_dev, and the functions that only set its fields or give back what it holds.
use qemu_ntb_switch.Prelude.{ℕ, Bool, true, false, Option, some, none, ◌&&◌, ◌||◌, if◌then◌else◌}
use qemu_ntb_switch.Driver.{
  Ntb, D, pure, ◌>>=◌, ◌>>◌, get_app, put_app, tell, free, unmap_io, is_some,
}

-- The magic number of a frame, the commands, and the size of a frame's header.
abbrev pub frame_magic : ℕ
frame_magic = 1230258512

abbrev pub app_cmd_size : ℕ
app_cmd_size = 1230258515

abbrev pub app_cmd_xlat : ℕ
app_cmd_xlat = 1230258520

abbrev pub app_cmd_kick : ℕ
app_cmd_kick = 1230258507

abbrev pub frame_header_size : ℕ
frame_header_size = 16

-- `ntb_idt_app_frame`
pub record Frame : Type 0 where
  pub magic : ℕ
  pub len : ℕ
  pub seq : ℕ
  pub flags : ℕ

-- The memory that the driver shares with the other machine and with its callers. The other machine
-- may change a frame at any time. A copy says whether it failed.
pub record FrameMemory (H : Type 0) : Type 0 where
  -- The header in the buffer at this address.
  pub read_frame : ℕ → H → Frame × H
  -- A header through the mapping at this address.
  pub write_frame : ℕ → Frame → H → H
  -- The payload behind the header, of this length, to and from a caller.
  pub copy_to_user : ℕ → ℕ → H → Bool × H
  pub copy_from_user : ℕ → ℕ → H → Bool × H

-- `ntb_idt_app_dev`, less its locks and wait queues.
pub record AppDev : Type 0 where
  pub peer_idx : ℕ
  pub removed : Bool
  pub link_up : Bool
  pub peer_ready : Bool
  pub rx_avail : Bool
  pub rx_buf : Option ℕ
  pub rx_dma : ℕ
  pub rx_size : ℕ
  pub rx_len : ℕ
  pub peer_io : Option ℕ
  pub peer_phys : ℕ
  pub peer_map_size : ℕ
  pub peer_size : ℕ
  pub peer_xlat : ℕ
  pub tx_seq : ℕ
  pub rx_seq : ℕ

unfoldable pub can_read : AppDev → Bool
can_read app = app.rx_avail || app.removed

unfoldable pub can_write : AppDev → Bool
can_write app = app.peer_ready && app.link_up || app.removed

unfoldable pub app_set_link : {H : Type 0} → Bool → D AppDev H (Unit {0})
app_set_link up = do
  app ← get_app
  put_app (
      if up
      then record app { link_up = true }
      else record app { link_up = false; peer_ready = false })

unfoldable pub app_set_removed : {H : Type 0} → D AppDev H (Unit {0})
app_set_removed = do app ← get_app; put_app (record app { removed = true; peer_ready = false })

-- The removal does not take the mutex when it sets the flag. The service work that runs meanwhile may
-- set up the window and write `peer_ready` after it.
unfoldable pub app_overtaken : {H : Type 0} → D AppDev H (Unit {0})
app_overtaken = do
  app ← get_app
  put_app (record app {
    peer_ready = app.peer_ready || (app.removed && (app.link_up && is_some app.peer_io));
  })

unfoldable pub unmap_window : {H : Type 0} → Ntb H → Option ℕ → D AppDev H (Unit {0})
unmap_window ntb none = pure tt
unmap_window ntb (some p) = do
  unmap_io ntb p
  app ← get_app
  put_app (record app { peer_io = none })

unfoldable pub free_peer_mw : {H : Type 0} → Ntb H → D AppDev H (Unit {0})
free_peer_mw ntb = do
  app ← get_app
  unmap_window ntb app.peer_io
  tell ntb.ntb_peer_mw_clear_trans
  app' ← get_app
  put_app (record app' { peer_phys = 0; peer_map_size = 0; peer_size = 0; peer_xlat = 0 })

unfoldable pub free_rx_buffer : {H : Type 0} → Ntb H → ℕ → Option ℕ → D AppDev H (Unit {0})
free_rx_buffer ntb size none = pure tt
free_rx_buffer ntb size (some buf) = do
  tell ntb.ntb_mw_clear_trans
  free ntb size buf
  app ← get_app
  put_app (record app { rx_buf = none })

unfoldable pub free_inbound_mw : {H : Type 0} → Ntb H → D AppDev H (Unit {0})
free_inbound_mw ntb = do
  app ← get_app
  free_rx_buffer ntb app.rx_size app.rx_buf
  app' ← get_app
  put_app (record app' { rx_dma = 0; rx_size = 0 })
