-- ===== src/Sisci/State.antt =====
-- ntb_idt_sisci_dev, and the functions that only set its fields or give back what it holds.
use qemu_ntb_switch.Prelude.{
  ℕ, Bool, true, false, Option, some, none, ◌&&◌, ◌||◌, ◌==◌, leb, if◌then◌else◌,
}
use qemu_ntb_switch.Driver.{
  Ntb, D, pure, ◌>>=◌, ◌>>◌, get_app, put_app, tell, free, unmap_io, is_some,
}

-- The commands.
abbrev pub sisci_cmd_segid : ℕ
sisci_cmd_segid = 1396918596

abbrev pub sisci_cmd_size : ℕ
sisci_cmd_size = 1396918611

abbrev pub sisci_cmd_xlat : ℕ
sisci_cmd_xlat = 1396918616

abbrev pub sisci_cmd_avail : ℕ
sisci_cmd_avail = 1396918593

abbrev pub sisci_cmd_unavail : ℕ
sisci_cmd_unavail = 1396918613

-- `ntb_idt_sisci_dev`: what the driver keeps, less its lock and its wait queues.
pub record SisciDev : Type 0 where
  pub peer_idx : ℕ
  pub removed : Bool
  pub link_up : Bool
  pub local_available : Bool
  pub local_published : Bool
  pub remote_announced : Bool
  pub peer_ready : Bool
  pub local_buf : Option ℕ
  pub local_dma : ℕ
  pub local_size : ℕ
  pub local_segment_id : ℕ
  pub peer_io : Option ℕ
  pub peer_phys : ℕ
  pub peer_map_size : ℕ
  pub peer_usable_size : ℕ
  pub remote_xlat : ℕ
  pub remote_size : ℕ
  pub remote_segment_id : ℕ

unfoldable pub has_peer_segment : SisciDev → ℕ → Bool
has_peer_segment app segment_id =
    app.removed || (app.peer_ready && app.remote_segment_id == segment_id)

unfoldable pub sisci_can_poll_write : SisciDev → Bool
sisci_can_poll_write app = app.removed || app.peer_ready

unfoldable pub sisci_set_link : {H : Type 0} → Bool → D SisciDev H (Unit {0})
sisci_set_link up = do
  app ← get_app
  put_app (
      if up then record app { link_up = true } else record app {
        link_up = false;
        peer_ready = false;
        remote_announced = false;
        local_published = false;
      })

unfoldable pub sisci_set_removed : {H : Type 0} → D SisciDev H (Unit {0})
sisci_set_removed = do
  app ← get_app
  put_app (record app {
    removed = true;
    peer_ready = false;
    remote_announced = false;
    local_available = false;
    local_published = false;
  })

-- The removal takes no lock when it sets these flags. A handler that runs meanwhile may write some of
-- them after it, as it has found things before.
pub record Overtaken : Type 0 where
  pub ready : Bool
  pub announced : Bool
  pub available : Bool
  pub published : Bool

unfoldable pub sisci_overtaken : {H : Type 0} → Overtaken → D SisciDev H (Unit {0})
sisci_overtaken o = do
  app ← get_app
  put_app (record app {
    peer_ready =
        app.peer_ready
        || (app.removed
            && (o.ready
                && (is_some app.peer_io
                    && (app.link_up && leb app.peer_usable_size app.peer_map_size))));
    remote_announced = app.remote_announced || (app.removed && o.announced);
    local_available =
        app.local_available || (app.removed && (o.available && is_some app.local_buf));
    local_published = app.local_published || (app.removed && (o.published && app.link_up));
  })

unfoldable pub unmap_peer : {H : Type 0} → Ntb H → Option ℕ → D SisciDev H (Unit {0})
unmap_peer ntb none = pure tt
unmap_peer ntb (some p) = do unmap_io ntb p; app ← get_app; put_app (record app { peer_io = none })

unfoldable pub mark_peer_unready_locked : {H : Type 0} → Ntb H → D SisciDev H (Unit {0})
mark_peer_unready_locked ntb = do
  app ← get_app
  unmap_peer ntb app.peer_io
  tell ntb.ntb_peer_mw_clear_trans
  app' ← get_app
  put_app
      (record app' { peer_phys = 0; peer_map_size = 0; peer_usable_size = 0; peer_ready = false })

unfoldable pub free_buffer : {H : Type 0} → Ntb H → ℕ → Option ℕ → D SisciDev H (Unit {0})
free_buffer ntb size none = pure tt
free_buffer ntb size (some buf) = do
  tell ntb.ntb_mw_clear_trans
  free ntb size buf
  app ← get_app
  put_app (record app { local_buf = none })

unfoldable pub free_local_segment_locked : {H : Type 0} → Ntb H → D SisciDev H (Unit {0})
free_local_segment_locked ntb = do
  app ← get_app
  free_buffer ntb app.local_size app.local_buf
  app' ← get_app
  put_app (record app' {
    local_dma = 0;
    local_size = 0;
    local_segment_id = 0;
    local_available = false;
    local_published = false;
  })
