-- ===== src/Tools/Sci/Types.antt =====
-- The structures of user_src/ntb_sisci.c, each with the address that it was allocated at, the error
-- codes, and the device path.
use qemu_ntb_switch.Prelude.{
  ℕ, zero, suc, ◌-◌, Bool, false, Option, not, [], ◌∷◌, leb, ◌==◌, if◌then◌else◌, length,
}
use qemu_ntb_switch.Tools.Numbers.{Text, is_empty}
use qemu_ntb_switch.Tools.Options.{path_max}
use qemu_ntb_switch.Tools.Process.{P}

-- `ntb_sisci_desc`
pub record SciDesc : Type 0 where
  pub desc_at : ℕ
  pub fd : ℕ

-- `ntb_sisci_local_segment`
pub record LocalSegment : Type 0 where
  pub segment_at : ℕ
  pub sd : Option SciDesc
  pub segment_id : ℕ
  pub size : ℕ

-- `ntb_sisci_remote_segment`
pub record RemoteSegment : Type 0 where
  pub segment_at : ℕ
  pub sd : Option SciDesc
  pub remote_node_id : ℕ
  pub segment_id : ℕ
  pub size : ℕ

-- `ntb_sisci_map`
pub record SciMap : Type 0 where
  pub map_at : ℕ
  pub sd : Option SciDesc
  pub base : ℕ
  pub addr : ℕ
  pub map_size : ℕ
  pub size : ℕ
  pub region : ℕ

-- `ntb_sisci_sequence`
pub record SciSequence : Type 0 where
  pub sequence_at : ℕ
  pub map : Option SciMap

abbrev pub eio : ℕ
eio = 5

-- `sci_set_errno`
unfoldable pub sci_errno : ℕ → ℕ
sci_errno e = if e == 0 then eio else e

unfoldable pub take_bytes : ℕ → Text → Text
take_bytes zero s = []
take_bytes (suc n) [] = []
take_bytes (suc n) (c ∷ s) = c ∷ take_bytes n s

-- Whether the path is accepted. A path that is too long is stored as far as it fits.
unfoldable pub sci_set_device_path : {H : Type 0} → Text → P H Bool
sci_set_device_path path w = if is_empty path then (false, w) else (
  not (leb path_max (length path)),
  record w { device_path = take_bytes (path_max - 1) path },
)
