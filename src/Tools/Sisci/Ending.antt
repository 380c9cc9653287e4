-- ===== src/Tools/Sisci/Ending.antt =====
-- user_src/ntb_profiling.c: sisci_endpoint_close gives back all that an endpoint holds.
use qemu_ntb_switch.Prelude.{
  refl, Bool, Bool-cases, inl, inr, Option, some, none, List, ◌∷◌, ◌&&◌, arith,
}
use qemu_ntb_switch.Tools.Process.{
  Os, Process, SciRequest, Resource, descriptor, mapped, memory, close, unmap, ask,
}
use qemu_ntb_switch.Tools.Sci.{
  SciDesc, LocalSegment, RemoteSegment, SciMap, SciSequence, sci_close, sci_set_segment_unavailable,
  sci_remove_segment, sci_remove_through, sci_request_through, sci_disconnect_segment,
  sci_unmap_segment, sci_remove_sequence,
}
use qemu_ntb_switch.Tools.Backend.{Endpoint, Holds}
use qemu_ntb_switch.Tools.Ledger.{give_last, give_before}
use qemu_ntb_switch.Tools.Sisci.{
  SisciEndpoint, end_sequence, end_map, end_remote, end_local, end_desc, withdraw, close_ctx,
  sisci_endpoint_close,
}

-- What each pointer of an endpoint holds, before what was held without it.
abbrev pub with_sequence : Option SciSequence → List Resource → List Resource
with_sequence none l = l
with_sequence (some q) l = memory q.sequence_at ∷ l

abbrev pub with_map : Option SciMap → List Resource → List Resource
with_map none l = l
with_map (some m) l = memory m.map_at ∷ mapped m.base m.map_size ∷ l

abbrev pub with_remote : Option RemoteSegment → List Resource → List Resource
with_remote none l = l
with_remote (some s) l = memory s.segment_at ∷ l

abbrev pub with_local : Option LocalSegment → List Resource → List Resource
with_local none l = l
with_local (some s) l = memory s.segment_at ∷ l

abbrev pub with_desc : Option SciDesc → List Resource → List Resource
with_desc none l = l
with_desc (some d) l = memory d.desc_at ∷ descriptor d.fd ∷ l

abbrev pub with_segments : SisciEndpoint → List Resource → List Resource
with_segments c l =
    with_remote c.remote_segment (with_local c.local_segment (with_desc c.sd (memory c.ctx_at ∷ l)))

abbrev pub with_ctx : SisciEndpoint → List Resource → List Resource
with_ctx c l = with_sequence c.sequence (with_map c.map (with_segments c l))

abbrev with_endpoint : Option SisciEndpoint → List Resource → List Resource
with_endpoint none l = l
with_endpoint (some c) l = with_ctx c l

abbrev pub sisci_held : Endpoint SisciEndpoint → List Resource → List Resource
sisci_held e l = with_endpoint e.ctx l

module _ {H : Type 0} (os : Os H) (l : List Resource) (bad : Bool) where
  pub sci_request_through-Holds :
      (d : Option SciDesc) (r : SciRequest) (w : Process H)
      → Holds l bad w
      → Holds l bad (sci_request_through os d r w).1
  unfolding sci_request_through
  sci_request_through-Holds none r w h = h
  sci_request_through-Holds (some d) r w h = ground arith

  end_sequence-Holds :
      (q : Option SciSequence) (w : Process H)
      → Holds (with_sequence q l) bad w
      → Holds l bad (end_sequence q w).1
  unfolding end_sequence sci_remove_sequence
  end_sequence-Holds none w h = h
  end_sequence-Holds (some q) w h = give_last l bad (memory q.sequence_at) w h

  end_map-Holds :
      (m : Option SciMap) (w : Process H)
      → Holds (with_map m l) bad w
      → Holds l bad (end_map os m w).1
  unfolding end_map sci_unmap_segment unmap
  end_map-Holds none w h = h
  end_map-Holds (some m) w h =
      let u = (ask (os.munmap m.base m.map_size) w).1 in
      give_last l bad (memory m.map_at) _
        (give_before l bad (mapped m.base m.map_size) (memory m.map_at) u refl (ground arith))

  end_remote-Holds :
      (s : Option RemoteSegment) (w : Process H)
      → Holds (with_remote s l) bad w
      → Holds l bad (end_remote s w).1
  unfolding end_remote sci_disconnect_segment
  end_remote-Holds none w h = h
  end_remote-Holds (some s) w h = give_last l bad (memory s.segment_at) w h

  end_desc-Holds :
      (d : Option SciDesc) (w : Process H)
      → Holds (with_desc d l) bad w
      → Holds l bad (end_desc os d w).1
  unfolding end_desc sci_close close
  end_desc-Holds none w h = h
  end_desc-Holds (some d) w h =
      let u = (ask (os.close_fd d.fd) w).1 in
      give_last l bad (memory d.desc_at) _
        (give_before l bad (descriptor d.fd) (memory d.desc_at) u refl (ground arith))

module _ {H : Type 0} (os : Os H) (l : List Resource) (bad : Bool) where
  sci_remove_through-Holds :
      (d : Option SciDesc) (r : SciRequest) (w : Process H)
      → Holds l bad w
      → Holds l bad (sci_remove_through os d r w).1
  unfolding sci_remove_through
  sci_remove_through-Holds none r w h = h
  sci_remove_through-Holds (some d) r w h = ground arith

module _ {H : Type 0} (os : Os H) (l : List Resource) (bad : Bool) where
  end_local-Holds :
      (s : Option LocalSegment) (w : Process H)
      → Holds (with_local s l) bad w
      → Holds l bad (end_local os s w).1
  unfolding end_local sci_remove_segment
  end_local-Holds none w h = h
  end_local-Holds (some s) w h =
      give_last l bad (memory s.segment_at) _
        (sci_remove_through-Holds os (memory s.segment_at ∷ l) bad s.sd _ w h)

  withdraw_through :
      (s : Option LocalSegment) (w : Process H)
      → Holds l bad w
      → Holds l bad (sci_set_segment_unavailable os s 0 w).1
  unfolding sci_set_segment_unavailable
  withdraw_through none w h = h
  withdraw_through (some s) w h = sci_request_through-Holds os l bad s.sd _ w h

  withdraw-Holds :
      (c : SisciEndpoint) (w : Process H) → Holds l bad w → Holds l bad (withdraw os c w).1
  unfolding withdraw
  withdraw-Holds c w h = elim (Bool-cases (c.local && c.available)) [
    | inl e ↦ rw e (withdraw_through c.local_segment w h)
    | inr e ↦ rw e h
  ]

module _ {H : Type 0} (os : Os H) (l : List Resource) (bad : Bool) where
  close_ctx-Holds :
      (c : Option SisciEndpoint) (w : Process H)
      → Holds (with_endpoint c l) bad w
      → Holds l bad (close_ctx os c w).1
  unfolding close_ctx
  close_ctx-Holds none w h = h
  close_ctx-Holds (some c) w h =
      let here = memory c.ctx_at ∷ l in
      let described = with_desc c.sd here in
      let segmented = with_local c.local_segment described in
      let segments = with_segments c l in
      let mapped = with_map c.map segments in
      give_last l bad (memory c.ctx_at) _ (
        end_desc-Holds os here bad c.sd _ (
          end_local-Holds os described bad c.local_segment _ (
            end_remote-Holds os segmented bad c.remote_segment _ (
              end_map-Holds os segments bad c.map _ (
                end_sequence-Holds os mapped bad c.sequence _
                  (withdraw-Holds os (with_ctx c l) bad c w h))))))

  pub sisci_endpoint_close-Holds :
      (e : Endpoint SisciEndpoint) (w : Process H)
      → Holds (sisci_held e l) bad w
      → Holds l bad (sisci_endpoint_close os e w).1
  unfolding sisci_endpoint_close
  sisci_endpoint_close-Holds e w h = close_ctx-Holds e.ctx w h
