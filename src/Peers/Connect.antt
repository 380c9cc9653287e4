-- ===== src/Peers/Connect.antt =====
-- The table of peers when it grows for a new client.
use qemu_ntb_switch.Prelude.{ℕ, ◌<◌, ◌≡◌, arith, ltb, if◌then◌else◌}
use qemu_ntb_switch.Device.{World, allocated, Ensures}
use qemu_ntb_switch.Notify.Safety.{peer_at}
use qemu_ntb_switch.Peers.{resize_peers, grow_peers}

-- When the table of peers grows, the peers that it had stay as they were and every new one has
-- no notifier yet and room for the device's vectors.
pub resize_peers-peer_at :
    (nb i : ℕ) (w : World)
    → w.dev.nb_peers < nb
    → Ensures (resize_peers nb w) (λ _ w'.
      (w'.dev.nb_peers ≡ nb)
      × (peer_at w'.dev i ≡ (
          if ltb i w.dev.nb_peers
          then peer_at w.dev i
          else if ltb i nb
          then record { nb_eventfds = 0; eventfds = allocated w.dev.vectors }
          else peer_at w.dev i)))
unfolding resize_peers grow_peers
resize_peers-peer_at nb i w lt = ground arith
