-- ===== src/Sisci/Probe.antt =====
-- ntb_idt_sisci_probe, ntb_idt_sisci_enable and ntb_idt_sisci_remove.
use qemu_ntb_switch.Prelude.{ℕ, false, none}
use qemu_ntb_switch.Driver.{Ntb, D, ◌>>◌}
use qemu_ntb_switch.Sisci.State.{
  SisciDev, sisci_set_removed, mark_peer_unready_locked, free_local_segment_locked,
}

-- The structure as kzalloc and the probe leave it.
unfoldable pub sisci_fresh : ℕ → SisciDev
sisci_fresh peer_index = record {
  peer_idx = peer_index;
  removed = false;
  link_up = false;
  local_available = false;
  local_published = false;
  remote_announced = false;
  peer_ready = false;
  local_buf = none;
  local_dma = 0;
  local_size = 0;
  local_segment_id = 0;
  peer_io = none;
  peer_phys = 0;
  peer_map_size = 0;
  peer_usable_size = 0;
  remote_xlat = 0;
  remote_size = 0;
  remote_segment_id = 0;
}

-- The removal. Between the first part and the second the link is disabled and the work that still
-- runs ends, `settle`, with the rest of what was running when the flag was set.
unfoldable pub sisci_remove :
    {H : Type 0} → Ntb H → D SisciDev H (Unit {0}) → D SisciDev H (Unit {0})
sisci_remove ntb settle = do
  sisci_set_removed
  settle
  mark_peer_unready_locked ntb
  free_local_segment_locked ntb
