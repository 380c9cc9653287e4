-- ===== src/Frames/Probe.antt =====
-- ntb_idt_app_probe and ntb_idt_app_remove.
use qemu_ntb_switch.Prelude.{ℕ, false, none}
use qemu_ntb_switch.Driver.{Ntb, D, ◌>>◌}
use qemu_ntb_switch.Frames.State.{AppDev, app_set_removed, free_peer_mw, free_inbound_mw}

-- The structure as kzalloc and the probe leave it.
unfoldable pub app_fresh : ℕ → AppDev
app_fresh peer_index = record {
  peer_idx = peer_index;
  removed = false;
  link_up = false;
  peer_ready = false;
  rx_avail = false;
  rx_buf = none;
  rx_dma = 0;
  rx_size = 0;
  rx_len = 0;
  peer_io = none;
  peer_phys = 0;
  peer_map_size = 0;
  peer_size = 0;
  peer_xlat = 0;
  tx_seq = 0;
  rx_seq = 0;
}

-- The removal; `settle` is the work that still runs until it is cancelled, with the rest of what was
-- running when the flag was set.
unfoldable pub app_remove : {H : Type 0} → Ntb H → D AppDev H (Unit {0}) → D AppDev H (Unit {0})
app_remove ntb settle = do app_set_removed; settle; free_peer_mw ntb; free_inbound_mw ntb
