-- ===== src/Lifecycle/Stop.antt =====
-- The peers' part of ivshmem_exit, the migration hooks, and ivshmem_read_config.
use qemu_ntb_switch.Prelude.{ℕ, zero, suc, ◌+◌, Bool, ◌==◌, if◌then◌else◌}
use qemu_ntb_switch.Registers.{address, barsetup}
use qemu_ntb_switch.Device.{
  M, pure, when, call, error_report, get_dev, put_dev, get_bar_config, ◌>>=◌, ◌>>◌,
}
use qemu_ntb_switch.Peers.{close_peer_eventfds, ivshmem_has_feature, ivshmem_msi}
use qemu_ntb_switch.Irqfd.{ivshmem_msix_vector_use}
use qemu_ntb_switch.Lifecycle.Start.{ivshmem_is_master}

unfoldable pub close_peers : ℕ → ℕ → M (Unit {0})
close_peers i zero = pure tt
close_peers i (suc n) = do close_peer_eventfds i; close_peers (i + 1) n

-- The blocker is removed and every peer closed. Unmapping the shared memory is QEMU's.
unfoldable pub ivshmem_exit : M (Unit {0})
unfolding close_peers
ivshmem_exit = do
  s ← get_dev
  put_dev (record s { migration_blocker = Bool.false })
  close_peers 0 s.nb_peers

-- `true` where the device cannot be migrated.
unfoldable pub ivshmem_pre_load : M Bool
unfolding ivshmem_is_master
ivshmem_pre_load = do
  master ← ivshmem_is_master
  if master then pure Bool.false else (do call error_report; pure Bool.true)

unfoldable pub ivshmem_post_load : M (Unit {0})
ivshmem_post_load = do s ← get_dev; when (ivshmem_has_feature s ivshmem_msi) ivshmem_msix_vector_use

-- `default_value` is what `pci_default_read_config` answers.
unfoldable pub ivshmem_read_config : ℕ → ℕ → M ℕ
unfolding address
ivshmem_read_config addr default_value =
    if addr == address (barsetup 0)
    then (do c ← get_bar_config 0; pure c.setup)
    else pure default_value
