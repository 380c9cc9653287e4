-- ===== src/Tools/Sisci/Opening.antt =====
-- user_src/ntb_profiling.c: an endpoint of the SISCI backend that is opened holds what its pointers
-- say, and one that cannot be opened leaves nothing behind.
use qemu_ntb_switch.Prelude.{
  ℕ, ◌*◌, ◌≡◌, refl, Bool, Bool-cases, true, false, inl, inr, Option, some, none, List, ◌∷◌, not,
  nonzero,
}
use qemu_ntb_switch.Tools.Options.{Options}
use qemu_ntb_switch.Tools.Process.{Os, Process, Answer, fails, gives, Resource, memory, calloc}
use qemu_ntb_switch.Tools.Sci.{
  SciDesc, LocalSegment, RemoteSegment, SciMap, sci_create_segment, sci_prepare_segment,
  sci_connect_segment, sci_map_local_segment, sci_map_remote_segment, sci_create_map_sequence,
  sci_set_segment_available,
}
use qemu_ntb_switch.Tools.Backend.{Endpoint, Holds, Opened, IsClean}
use qemu_ntb_switch.Tools.Ledger.{calloc-Holds, with_given}
use qemu_ntb_switch.Tools.Sisci.{
  SisciEndpoint, fresh_endpoint, open_sisci_desc, give_up, map_created, create_and_map,
  local_with_ctx, sisci_open_local, publish_segment, has_segment, sisci_publish_local,
  sequence_mapped, map_connected, connect_and_map, remote_with_ctx, sisci_open_remote,
  barrier_through, sisci_store_barrier, sisci_backend,
}
use qemu_ntb_switch.Tools.Sisci.Ending.{
  with_map, with_remote, with_local, with_desc, with_ctx, sisci_held, sisci_endpoint_close-Holds,
}
use qemu_ntb_switch.Tools.Sisci.Descriptor.{open_sisci_desc-Holds}
use qemu_ntb_switch.Tools.Sisci.Pointers.{
  sci_create_segment-Holds, sci_prepare_segment-Holds, sci_set_segment_available-Holds,
  sci_connect_segment-Holds, sci_map_local_segment-Holds, sci_map_remote_segment-Holds,
  sci_create_map_sequence-Holds, sci_store_barrier-Holds,
}

module _ {H : Type 0} (os : Os H) (l : List Resource) (bad : Bool) where
  given_up :
      (c : SisciEndpoint) (w : Process H)
      → Holds (with_ctx c l) bad w
      → Opened sisci_held l bad (give_up os c w)
  unfolding give_up
  given_up c w h =
      sisci_endpoint_close-Holds os l bad (record { ctx = some c; addr = 0; size = 0 }) w h

  map_created-Opened :
      (a : ℕ) (d : Option SciDesc) (s : Option LocalSegment) (w : Process H)
      → let c = record (fresh_endpoint a true) { sd = d; local_segment = s } in
        Holds (with_ctx c l) bad w → Opened sisci_held l bad (map_created os c w)
  unfolding map_created fresh_endpoint
  map_created-Opened a d s w h =
      let here = with_local s (with_desc d (memory a ∷ l)) in
      let p = sci_prepare_segment os s 0 w in
      let q = sci_prepare_segment-Holds os here bad s 0 w h in
      let m = sci_map_local_segment os s none 0 0 p.1 in
      let n = sci_map_local_segment-Holds os here bad s 0 0 p.1 q in
      elim (Bool-cases (nonzero p.0)) [
        | inl e ↦ rw e (given_up _ p.1 q)
        | inr e ↦
            rw e (elim (Bool-cases (nonzero m.0.0)) [
              | inl f ↦ rw f (given_up _ m.1 n)
              | inr f ↦ rw f n
            ])
      ]

  create_and_map-Opened :
      (opt : Options) (a : ℕ) (d : Option SciDesc) (w : Process H)
      → let c = record (fresh_endpoint a true) { sd = d } in
        Holds (with_ctx c l) bad w → Opened sisci_held l bad (create_and_map os opt c w)
  unfolding create_and_map fresh_endpoint
  create_and_map-Opened opt a d w h =
      let r = sci_create_segment os d none opt.segment_id opt.window_size w in
      let here = with_desc d (memory a ∷ l) in
      let s = sci_create_segment-Holds os here bad d opt.segment_id opt.window_size w h in
      elim (Bool-cases (nonzero r.0.0)) [
        | inl e ↦ rw e (given_up _ r.1 s)
        | inr e ↦ rw e (map_created-Opened a d r.0.1 r.1 s)
      ]

  local_with_ctx-Opened :
      (opt : Options) (a : Answer) (w : Process H)
      → Holds (with_given memory a l) bad w
      → Opened sisci_held l bad (local_with_ctx os opt a w)
  unfolding local_with_ctx
  local_with_ctx-Opened opt (fails e) w h = h
  local_with_ctx-Opened opt (gives a) w h =
      let d = open_sisci_desc os opt w in
      let k = open_sisci_desc-Holds os (memory a ∷ l) bad opt w h in
      elim (Bool-cases (not d.0.0)) [
        | inl e ↦ rw e (
            given_up (record (fresh_endpoint a true) { sd = d.0.1 }) d.1
              (unfold fresh_endpoint in k))
        | inr e ↦ rw e (create_and_map-Opened opt a d.0.1 d.1 (unfold fresh_endpoint in k))
      ]

  sequence_mapped-Opened :
      (a : ℕ) (d : Option SciDesc) (s : Option RemoteSegment) (m : Option SciMap) (w : Process H)
      → let c = record (fresh_endpoint a false) { sd = d; remote_segment = s; map = m } in
        Holds (with_ctx c l) bad w → Opened sisci_held l bad (sequence_mapped os c w)
  unfolding sequence_mapped fresh_endpoint
  sequence_mapped-Opened a d s m w h =
      let here = with_map m (with_remote s (with_desc d (memory a ∷ l))) in
      let q = sci_create_map_sequence os m none w in
      let k = sci_create_map_sequence-Holds os here bad m w h in
      elim (Bool-cases (nonzero q.0.0)) [ inl e ↦ rw e (given_up _ q.1 k) | inr e ↦ rw e k ]

  map_connected-Opened :
      (a : ℕ) (d : Option SciDesc) (s : Option RemoteSegment) (w : Process H)
      → let c = record (fresh_endpoint a false) { sd = d; remote_segment = s } in
        Holds (with_ctx c l) bad w → Opened sisci_held l bad (map_connected os c w)
  unfolding map_connected fresh_endpoint
  map_connected-Opened a d s w h =
      let here = with_remote s (with_desc d (memory a ∷ l)) in
      let m = sci_map_remote_segment os s none 0 0 w in
      let k = sci_map_remote_segment-Holds os here bad s 0 0 w h in
      elim (Bool-cases (nonzero m.0.0)) [
        | inl e ↦ rw e (given_up _ m.1 k)
        | inr e ↦ rw e (sequence_mapped-Opened a d s m.0.1 m.1 k)
      ]

  connect_and_map-Opened :
      (opt : Options) (a : ℕ) (d : Option SciDesc) (w : Process H)
      → let c = record (fresh_endpoint a false) { sd = d } in
        Holds (with_ctx c l) bad w → Opened sisci_held l bad (connect_and_map os opt c w)
  unfolding connect_and_map fresh_endpoint
  connect_and_map-Opened opt a d w h =
      let r =
        sci_connect_segment os d none opt.peer_node opt.segment_id 0 (opt.timeout_sec * 1000) w in
      let here = with_desc d (memory a ∷ l) in
      let s =
        sci_connect_segment-Holds os here bad d opt.peer_node opt.segment_id 0
          (opt.timeout_sec * 1000) w h in
      elim (Bool-cases (nonzero r.0.0)) [
        | inl e ↦ rw e (given_up _ r.1 s)
        | inr e ↦ rw e (map_connected-Opened a d r.0.1 r.1 s)
      ]

  remote_with_ctx-Opened :
      (opt : Options) (a : Answer) (w : Process H)
      → Holds (with_given memory a l) bad w
      → Opened sisci_held l bad (remote_with_ctx os opt a w)
  unfolding remote_with_ctx
  remote_with_ctx-Opened opt (fails e) w h = h
  remote_with_ctx-Opened opt (gives a) w h =
      let d = open_sisci_desc os opt w in
      let k = open_sisci_desc-Holds os (memory a ∷ l) bad opt w h in
      elim (Bool-cases (not d.0.0)) [
        | inl e ↦ rw e (
            given_up (record (fresh_endpoint a false) { sd = d.0.1 }) d.1
              (unfold fresh_endpoint in k))
        | inr e ↦ rw e (connect_and_map-Opened opt a d.0.1 d.1 (unfold fresh_endpoint in k))
      ]

  sisci_open_local-Opened :
      (opt : Options) (w : Process H)
      → Holds l bad w
      → Opened sisci_held l bad (sisci_open_local os opt w)
  unfolding sisci_open_local
  sisci_open_local-Opened opt w h =
      let a = calloc os w in local_with_ctx-Opened opt a.0 a.1 (calloc-Holds l bad os w h)

  sisci_open_remote-Opened :
      (opt : Options) (w : Process H)
      → Holds l bad w
      → Opened sisci_held l bad (sisci_open_remote os opt w)
  unfolding sisci_open_remote
  sisci_open_remote-Opened opt w h =
      let a = calloc os w in remote_with_ctx-Opened opt a.0 a.1 (calloc-Holds l bad os w h)

  publish_segment-Holds :
      (e : Endpoint SisciEndpoint) (c : Option SisciEndpoint) (w : Process H)
      → e.ctx ≡ c
      → Holds (sisci_held e l) bad w
      → Holds (sisci_held (publish_segment os e c w).0.1 l) bad (publish_segment os e c w).1
  unfolding publish_segment
  publish_segment-Holds e none w p h = h
  publish_segment-Holds e (some c) w p h =
      let r = sci_set_segment_available os c.local_segment 0 w in
      let k = sci_set_segment_available-Holds os (sisci_held e l) bad c.local_segment 0 w h in
      elim (Bool-cases (not (has_segment c.local_segment))) [
        | inl f ↦ rw f h
        | inr f ↦
            rw f (elim (Bool-cases (nonzero r.0)) [ inl g ↦ rw g k | inr g ↦ rw g (rw p at k) ])
      ]

  barrier_through-Holds :
      (c : Option SisciEndpoint) (w : Process H)
      → Holds l bad w
      → Holds l bad (barrier_through os c w).1
  unfolding barrier_through
  barrier_through-Holds none w h = h
  barrier_through-Holds (some c) w h = sci_store_barrier-Holds os l bad c.sequence 0 w h

pub sisci_backend-IsClean : {H : Type 0} (os : Os H) → IsClean (sisci_backend os)
unfolding sisci_backend sisci_publish_local sisci_store_barrier
sisci_backend-IsClean os = record {
  held = sisci_held;
  local = λ o l bad w h. sisci_open_local-Opened os l bad o w h;
  remote = λ o l bad w h. sisci_open_remote-Opened os l bad o w h;
  publish = λ e l bad w h. publish_segment-Holds os l bad e e.ctx w refl h;
  barrier = λ e l bad w h. barrier_through-Holds os l bad e.ctx w h;
  close = λ e l bad w h. sisci_endpoint_close-Holds os l bad e w h;
}
