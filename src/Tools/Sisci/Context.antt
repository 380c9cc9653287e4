-- ===== src/Tools/Sisci/Context.antt =====
-- user_src/ntb_profiling.c: an endpoint of the backend over the SISCI library, its descriptor and its
-- end.
use qemu_ntb_switch.Prelude.{
  ℕ, Bool, true, false, Option, some, none, ◌&&◌, not, nonzero, if◌then◌else◌,
}
use qemu_ntb_switch.Tools.Options.{Options, codes}
use qemu_ntb_switch.Tools.Process.{Os, P, pure, ◌>>=◌, ◌>>◌, tell, give, memory}
use qemu_ntb_switch.Tools.Sci.{
  SciDesc, LocalSegment, RemoteSegment, SciMap, SciSequence, sci_set_device_path, sci_open,
  sci_close, sci_set_segment_unavailable, sci_remove_segment, sci_disconnect_segment,
  sci_unmap_segment, sci_remove_sequence,
}
use qemu_ntb_switch.Tools.Backend.{Endpoint, no_endpoint}

-- `ntb_sisci_profile_endpoint`, with the address that it was allocated at
pub record SisciEndpoint : Type 0 where
  pub ctx_at : ℕ
  pub sd : Option SciDesc
  pub local_segment : Option LocalSegment
  pub remote_segment : Option RemoteSegment
  pub map : Option SciMap
  pub sequence : Option SciSequence
  pub local : Bool
  pub available : Bool

-- What calloc leaves, with its `local` set.
unfoldable pub fresh_endpoint : ℕ → Bool → SisciEndpoint
fresh_endpoint a local = record {
  ctx_at = a;
  sd = none;
  local_segment = none;
  remote_segment = none;
  map = none;
  sequence = none;
  local = local;
  available = false;
}

-- A second attempt, after the module may have been loaded.
unfoldable pub open_again : {H : Type 0} → Os H → Bool → P H (ℕ × Option SciDesc)
open_again os no_modprobe = do
  (if no_modprobe then pure tt else tell (os.modprobe (codes "ntb-idt-sisci-app")))
  sci_open os

unfoldable pub open_sisci_desc : {H : Type 0} → Os H → Options → P H (Bool × Option SciDesc)
open_sisci_desc os opt = do
  set ← sci_set_device_path opt.device_path
  if not set then pure (false, none) else (do
    r ← sci_open os
    if nonzero r.0
        then (do s ← open_again os opt.no_modprobe; pure (not (nonzero s.0), s.1))
        else pure (true, r.1))

-- The calls of the end whose pointer is not null.
unfoldable pub end_sequence : {H : Type 0} → Option SciSequence → P H (Unit {0})
end_sequence none = pure tt
end_sequence (some q) = do e ← sci_remove_sequence (some q); pure tt

unfoldable pub end_map : {H : Type 0} → Os H → Option SciMap → P H (Unit {0})
end_map os none = pure tt
end_map os (some m) = do e ← sci_unmap_segment os (some m); pure tt

unfoldable pub end_remote : {H : Type 0} → Option RemoteSegment → P H (Unit {0})
end_remote none = pure tt
end_remote (some s) = do e ← sci_disconnect_segment (some s); pure tt

unfoldable pub end_local : {H : Type 0} → Os H → Option LocalSegment → P H (Unit {0})
end_local os none = pure tt
end_local os (some s) = do e ← sci_remove_segment os (some s); pure tt

unfoldable pub end_desc : {H : Type 0} → Os H → Option SciDesc → P H (Unit {0})
end_desc os none = pure tt
end_desc os (some d) = do e ← sci_close os (some d); pure tt

unfoldable pub withdraw : {H : Type 0} → Os H → SisciEndpoint → P H (Unit {0})
withdraw os c =
    if c.local && c.available
    then (do e ← sci_set_segment_unavailable os c.local_segment 0; pure tt)
    else pure tt

unfoldable pub close_ctx : {H : Type 0} → Os H → Option SisciEndpoint → P H (Unit {0})
close_ctx os none = pure tt
close_ctx os (some c) = do
  withdraw os c
  end_sequence c.sequence
  end_map os c.map
  end_remote c.remote_segment
  end_local os c.local_segment
  end_desc os c.sd
  give (memory c.ctx_at)

unfoldable pub sisci_endpoint_close :
    {H : Type 0} → Os H → Endpoint SisciEndpoint → P H (Endpoint SisciEndpoint)
sisci_endpoint_close os e = do close_ctx os e.ctx; pure no_endpoint
