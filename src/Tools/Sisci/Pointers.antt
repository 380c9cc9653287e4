-- ===== src/Tools/Sisci/Pointers.antt =====
-- user_src/ntb_sisci.c: a function that sets a pointer holds what the pointer says, and nothing where
-- it fails.
use qemu_ntb_switch.Prelude.{
  ℕ, ◌+◌, ◌-◌, ◌*◌, Bool, Bool-cases, inl, inr, Option, some, none, List, ◌∷◌, ◌||◌, ltb, ◌==◌,
  arith,
}
use qemu_ntb_switch.Tools.Process.{
  Os, Process, Answer, fails, gives, Resource, mapped, memory, calloc, unmap, ask, create, connect,
  map_file, page_size_of,
}
use qemu_ntb_switch.Tools.Sci.{
  SciDesc, LocalSegment, RemoteSegment, SciMap, SciSequence, sci_create_segment,
  sci_create_answered, sci_created, sci_prepare_segment, sci_connect_segment, sci_connect_answered,
  sci_connected, sci_map_segment, sci_map_answered, sci_mapped, sci_map_local_segment,
  sci_map_remote_segment, whole_size, sci_create_map_sequence, sci_sequence_made, sci_store_barrier,
  sci_barrier_through, sci_set_segment_available,
}
use qemu_ntb_switch.Tools.Backend.{Holds}
use qemu_ntb_switch.Tools.Ledger.{give_last, calloc-Holds, map_file-Holds, with_given}
use qemu_ntb_switch.Tools.Sisci.Ending.{
  with_sequence, with_map, with_remote, with_local, sci_request_through-Holds,
}

module _ {H : Type 0} (l : List Resource) (bad : Bool) where
  segment_made :
      (d : SciDesc) (segment_id size : ℕ) (a : Answer) (w : Process H)
      → Holds (with_given memory a l) bad w
      → let r = sci_created d segment_id size a w in Holds (with_local r.0.1 l) bad r.1
  unfolding sci_created
  segment_made d segment_id size (fails e) w h = h
  segment_made d segment_id size (gives a) w h = h

  connection_made :
      (d : SciDesc) (node segment_id size : ℕ) (a : Answer) (w : Process H)
      → Holds (with_given memory a l) bad w
      → let r = sci_connected d node segment_id size a w in Holds (with_remote r.0.1 l) bad r.1
  unfolding sci_connected
  connection_made d node segment_id size (fails e) w h = h
  connection_made d node segment_id size (gives a) w h = h

  sequence_made :
      (m : SciMap) (a : Answer) (w : Process H)
      → Holds (with_given memory a l) bad w
      → let r = sci_sequence_made m a w in Holds (with_sequence r.0.1 l) bad r.1
  unfolding sci_sequence_made
  sequence_made m (fails e) w h = h
  sequence_made m (gives a) w h = h

module _ {H : Type 0} (os : Os H) (l : List Resource) (bad : Bool) where
  segment_answered :
      (d : SciDesc) (segment_id : ℕ) (a : Answer) (w : Process H)
      → Holds l bad w
      → let r = sci_create_answered os d segment_id a w in Holds (with_local r.0.1 l) bad r.1
  unfolding sci_create_answered
  segment_answered d segment_id (fails e) w h = h
  segment_answered d segment_id (gives n) w h =
      let a = calloc os w in segment_made l bad d segment_id n a.0 a.1 (calloc-Holds l bad os w h)

  pub sci_create_segment-Holds :
      (d : Option SciDesc) (segment_id size : ℕ) (w : Process H)
      → Holds l bad w
      → let r = sci_create_segment os d none segment_id size w in Holds (with_local r.0.1 l) bad r.1
  unfolding sci_create_segment
  sci_create_segment-Holds none segment_id size w h = h
  sci_create_segment-Holds (some d) segment_id size w h =
      let r = ask (os.sci_ioctl d.fd (create segment_id size)) w in
      elim (Bool-cases (size == 0)) [
        | inl e ↦ rw e h
        | inr e ↦ rw e (segment_answered d segment_id r.0 r.1 (ground arith))
      ]

  pub sci_prepare_segment-Holds :
      (s : Option LocalSegment) (adapter_no : ℕ) (w : Process H)
      → Holds l bad w
      → Holds l bad (sci_prepare_segment os s adapter_no w).1
  unfolding sci_prepare_segment
  sci_prepare_segment-Holds none adapter_no w h = h
  sci_prepare_segment-Holds (some s) adapter_no w h = sci_request_through-Holds os l bad s.sd _ w h

  pub sci_set_segment_available-Holds :
      (s : Option LocalSegment) (adapter_no : ℕ) (w : Process H)
      → Holds l bad w
      → Holds l bad (sci_set_segment_available os s adapter_no w).1
  unfolding sci_set_segment_available
  sci_set_segment_available-Holds none adapter_no w h = h
  sci_set_segment_available-Holds (some s) adapter_no w h =
      sci_request_through-Holds os l bad s.sd _ w h

  connection_answered :
      (d : SciDesc) (node segment_id : ℕ) (a : Answer) (w : Process H)
      → Holds l bad w
      → let r = sci_connect_answered os d node segment_id a w in Holds (with_remote r.0.1 l) bad r.1
  unfolding sci_connect_answered
  connection_answered d node segment_id (fails e) w h = h
  connection_answered d node segment_id (gives n) w h =
      let a = calloc os w in
      connection_made l bad d node segment_id n a.0 a.1 (calloc-Holds l bad os w h)

  pub sci_connect_segment-Holds :
      (d : Option SciDesc) (node segment_id adapter_no timeout_ms : ℕ) (w : Process H)
      → Holds l bad w
      → let r = sci_connect_segment os d none node segment_id adapter_no timeout_ms w in
        Holds (with_remote r.0.1 l) bad r.1
  unfolding sci_connect_segment
  sci_connect_segment-Holds none node segment_id adapter_no timeout_ms w h = h
  sci_connect_segment-Holds (some d) node segment_id adapter_no timeout_ms w h =
      let r = ask (os.sci_ioctl d.fd (connect node segment_id adapter_no timeout_ms)) w in
      connection_answered d node segment_id r.0 r.1 (ground arith)

  map_made :
      (d : SciDesc) (region offset size base : ℕ) (a : Answer) (w : Process H)
      → Holds (with_given memory a (mapped base (offset + size) ∷ l)) bad w
      → let r = sci_mapped os d region offset size base a w in Holds (with_map r.0.1 l) bad r.1
  unfolding sci_mapped unmap
  map_made d region offset size base (fails e) w h =
      give_last l bad (mapped base (offset + size)) (ask (os.munmap base (offset + size)) w).1
        (ground arith)
  map_made d region offset size base (gives a) w h = h

  map_answered :
      (d : SciDesc) (region offset size : ℕ) (a : Answer) (w : Process H)
      → Holds (with_given (λ base. mapped base (offset + size)) a l) bad w
      → let r = sci_map_answered os d region offset size a w in Holds (with_map r.0.1 l) bad r.1
  unfolding sci_map_answered
  map_answered d region offset size (fails e) w h = h
  map_answered d region offset size (gives base) w h =
      let a = calloc os w in
      map_made d region offset size base a.0 a.1
        (calloc-Holds (mapped base (offset + size) ∷ l) bad os w h)

  sci_map_segment-Holds :
      (d : Option SciDesc) (region offset size segment_size : ℕ) (w : Process H)
      → Holds l bad w
      → let r = sci_map_segment os d region none offset size segment_size w in
        Holds (with_map r.0.1 l) bad r.1
  unfolding sci_map_segment
  sci_map_segment-Holds none region offset size segment_size w h = h
  sci_map_segment-Holds (some d) region offset size segment_size w h =
      let r = map_file os d.fd (region * page_size_of os) (offset + size) w in
      elim (Bool-cases
        (size == 0 || (ltb segment_size offset || ltb (segment_size - offset) size))) [
          | inl e ↦ rw e h
          | inr e ↦
              rw e (map_answered d region offset size r.0 r.1 (map_file-Holds l bad os _ _ _ w h))
        ]

  pub sci_map_local_segment-Holds :
      (s : Option LocalSegment) (offset size : ℕ) (w : Process H)
      → Holds l bad w
      → let r = sci_map_local_segment os s none offset size w in Holds (with_map r.0.1 l) bad r.1
  unfolding sci_map_local_segment
  sci_map_local_segment-Holds none offset size w h = h
  sci_map_local_segment-Holds (some s) offset size w h =
      sci_map_segment-Holds s.sd 0 offset (whole_size s.size offset size) s.size w h

  pub sci_map_remote_segment-Holds :
      (s : Option RemoteSegment) (offset size : ℕ) (w : Process H)
      → Holds l bad w
      → let r = sci_map_remote_segment os s none offset size w in Holds (with_map r.0.1 l) bad r.1
  unfolding sci_map_remote_segment
  sci_map_remote_segment-Holds none offset size w h = h
  sci_map_remote_segment-Holds (some s) offset size w h =
      sci_map_segment-Holds s.sd 1 offset (whole_size s.size offset size) s.size w h

  pub sci_create_map_sequence-Holds :
      (m : Option SciMap) (w : Process H)
      → Holds l bad w
      → let r = sci_create_map_sequence os m none w in Holds (with_sequence r.0.1 l) bad r.1
  unfolding sci_create_map_sequence
  sci_create_map_sequence-Holds none w h = h
  sci_create_map_sequence-Holds (some m) w h =
      let a = calloc os w in sequence_made l bad m a.0 a.1 (calloc-Holds l bad os w h)

  barrier_through_map :
      (m : Option SciMap) (flags : ℕ) (w : Process H)
      → Holds l bad w
      → Holds l bad (sci_barrier_through os flags m w).1
  unfolding sci_barrier_through
  barrier_through_map none flags w h = h
  barrier_through_map (some m) flags w h = sci_request_through-Holds os l bad m.sd _ w h

  pub sci_store_barrier-Holds :
      (q : Option SciSequence) (flags : ℕ) (w : Process H)
      → Holds l bad w
      → Holds l bad (sci_store_barrier os q flags w).1
  unfolding sci_store_barrier
  sci_store_barrier-Holds none flags w h = h
  sci_store_barrier-Holds (some q) flags w h = barrier_through_map q.map flags w h
