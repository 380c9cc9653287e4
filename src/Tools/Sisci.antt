-- ===== src/Tools/Sisci.antt =====
-- user_src/ntb_profiling.c: the backend over the SISCI library.
mod Context
pub mod Ending
mod Descriptor
mod Pointers
pub mod Opening
use qemu_ntb_switch.Prelude.{
  ℕ, ◌*◌, Bool, true, false, Option, some, none, ◌&&◌, not, nonzero, if◌then◌else◌,
}
use qemu_ntb_switch.Driver.{is_some}
use qemu_ntb_switch.Tools.Options.{Options, codes}
use qemu_ntb_switch.Tools.Process.{
  Os, Process, P, Answer, fails, gives, pure, ◌>>=◌, ◌>>◌, tell, give, memory, calloc,
}
use qemu_ntb_switch.Tools.Sci.{
  SciDesc, LocalSegment, RemoteSegment, SciMap, SciSequence, sci_set_device_path, sci_open,
  sci_close, sci_create_segment, sci_prepare_segment, sci_set_segment_available,
  sci_set_segment_unavailable, sci_remove_segment, sci_connect_segment, sci_disconnect_segment,
  sci_map_local_segment, sci_map_remote_segment, sci_map_addr, sci_map_bytes, sci_unmap_segment,
  sci_create_map_sequence, sci_store_barrier, sci_remove_sequence,
}
use qemu_ntb_switch.Tools.Backend.{Endpoint, no_endpoint, Backend}
unfoldable pub use Context.*

-- The label `fail`.
unfoldable pub give_up : {H : Type 0} → Os H → SisciEndpoint → P H (Bool × Endpoint SisciEndpoint)
give_up os c = do
  e ← sisci_endpoint_close os (record { ctx = some c; addr = 0; size = 0 })
  pure (false, e)

abbrev pub opened_endpoint : SisciEndpoint → Endpoint SisciEndpoint
opened_endpoint c = record { ctx = some c; addr = sci_map_addr c.map; size = sci_map_bytes c.map }

unfoldable pub map_created :
    {H : Type 0} → Os H → SisciEndpoint → P H (Bool × Endpoint SisciEndpoint)
map_created os c = do
  p ← sci_prepare_segment os c.local_segment 0
  if nonzero p then give_up os c else (do
    m ← sci_map_local_segment os c.local_segment c.map 0 0
    if nonzero m.0
        then give_up os (record c { map = m.1 })
        else pure (true, opened_endpoint (record c { map = m.1 })))

unfoldable pub create_and_map :
    {H : Type 0} → Os H → Options → SisciEndpoint → P H (Bool × Endpoint SisciEndpoint)
create_and_map os opt c = do
  r ← sci_create_segment os c.sd c.local_segment opt.segment_id opt.window_size
  if nonzero r.0
      then give_up os (record c { local_segment = r.1 })
      else map_created os (record c { local_segment = r.1 })

unfoldable pub local_with_ctx :
    {H : Type 0} → Os H → Options → Answer → P H (Bool × Endpoint SisciEndpoint)
local_with_ctx os opt (fails e) = pure (false, no_endpoint)
local_with_ctx os opt (gives a) = do
  d ← open_sisci_desc os opt
  if not d.0
      then give_up os (record (fresh_endpoint a true) { sd = d.1 })
      else create_and_map os opt (record (fresh_endpoint a true) { sd = d.1 })

unfoldable pub sisci_open_local :
    {H : Type 0} → Os H → Options → P H (Bool × Endpoint SisciEndpoint)
sisci_open_local os opt = do a ← calloc os; local_with_ctx os opt a

abbrev pub has_segment : Option LocalSegment → Bool
has_segment none = false
has_segment (some s) = true

unfoldable pub publish_segment :
    {H : Type 0}
    → Os H
    → Endpoint SisciEndpoint
    → Option SisciEndpoint
    → P H (Bool × Endpoint SisciEndpoint)
publish_segment os e none = pure (false, e)
publish_segment os e (some c) = if not (has_segment c.local_segment) then pure (false, e) else (do
  r ← sci_set_segment_available os c.local_segment 0
  pure (
      if nonzero r
      then (false, e)
      else (true, record e { ctx = some (record c { available = true }) })))

unfoldable pub sisci_publish_local :
    {H : Type 0} → Os H → Endpoint SisciEndpoint → P H (Bool × Endpoint SisciEndpoint)
sisci_publish_local os e = publish_segment os e e.ctx

unfoldable pub sequence_mapped :
    {H : Type 0} → Os H → SisciEndpoint → P H (Bool × Endpoint SisciEndpoint)
sequence_mapped os c = do
  q ← sci_create_map_sequence os c.map c.sequence
  if nonzero q.0
      then give_up os (record c { sequence = q.1 })
      else pure (true, opened_endpoint (record c { sequence = q.1 }))

unfoldable pub map_connected :
    {H : Type 0} → Os H → SisciEndpoint → P H (Bool × Endpoint SisciEndpoint)
map_connected os c = do
  m ← sci_map_remote_segment os c.remote_segment c.map 0 0
  if nonzero m.0
      then give_up os (record c { map = m.1 })
      else sequence_mapped os (record c { map = m.1 })

unfoldable pub connect_and_map :
    {H : Type 0} → Os H → Options → SisciEndpoint → P H (Bool × Endpoint SisciEndpoint)
connect_and_map os opt c = do
  r ←
      sci_connect_segment os c.sd c.remote_segment opt.peer_node opt.segment_id 0
        (opt.timeout_sec * 1000)
  if nonzero r.0
      then give_up os (record c { remote_segment = r.1 })
      else map_connected os (record c { remote_segment = r.1 })

unfoldable pub remote_with_ctx :
    {H : Type 0} → Os H → Options → Answer → P H (Bool × Endpoint SisciEndpoint)
remote_with_ctx os opt (fails e) = pure (false, no_endpoint)
remote_with_ctx os opt (gives a) = do
  d ← open_sisci_desc os opt
  if not d.0
      then give_up os (record (fresh_endpoint a false) { sd = d.1 })
      else connect_and_map os opt (record (fresh_endpoint a false) { sd = d.1 })

unfoldable pub sisci_open_remote :
    {H : Type 0} → Os H → Options → P H (Bool × Endpoint SisciEndpoint)
sisci_open_remote os opt = do a ← calloc os; remote_with_ctx os opt a

unfoldable pub barrier_through : {H : Type 0} → Os H → Option SisciEndpoint → P H Bool
barrier_through os none = pure false
barrier_through os (some c) = do e ← sci_store_barrier os c.sequence 0; pure (not (nonzero e))

-- Without a sequence the library's error comes to the same answer.
unfoldable pub sisci_store_barrier : {H : Type 0} → Os H → Endpoint SisciEndpoint → P H Bool
sisci_store_barrier os e = barrier_through os e.ctx

unfoldable pub sisci_backend : {H : Type 0} → Os H → Backend H SisciEndpoint
sisci_backend os = record {
  open_local = sisci_open_local os;
  publish_local = sisci_publish_local os;
  open_remote = sisci_open_remote os;
  store_barrier = sisci_store_barrier os;
  close = sisci_endpoint_close os;
}
