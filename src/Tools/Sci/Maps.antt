-- ===== src/Tools/Sci/Maps.antt =====
-- user_src/ntb_sisci.c: mappings of segments and their sequences.
use qemu_ntb_switch.Prelude.{
  ℕ, ◌+◌, ◌-◌, ◌*◌, ◌^◌, Option, some, none, ◌||◌, ltb, ◌==◌, nonzero, u64, if◌then◌else◌,
}
use qemu_ntb_switch.Driver.{einval}
use qemu_ntb_switch.Tools.Process.{
  Os, P, Answer, fails, gives, barrier, pure, ◌>>=◌, ◌>>◌, give, memory, calloc, unmap, map_file,
  page_size_of,
}
use qemu_ntb_switch.Tools.Sci.Types.{
  SciDesc, LocalSegment, RemoteSegment, SciMap, SciSequence, sci_errno,
}
use qemu_ntb_switch.Tools.Sci.Segments.{sci_request_through}

unfoldable pub sci_mapped :
    {H : Type 0} → Os H → SciDesc → ℕ → ℕ → ℕ → ℕ → Answer → P H (ℕ × Option SciMap)
sci_mapped os d region offset size base (fails e) = do
  c ← unmap os base (offset + size)
  pure (sci_errno (if nonzero c then c else e), none)
sci_mapped os d region offset size base (gives a) = pure (
  0,
  some (record {
    map_at = a;
    sd = some d;
    base = base;
    addr = base + offset;
    map_size = offset + size;
    size = size;
    region = region;
  }),
)

unfoldable pub sci_map_answered :
    {H : Type 0} → Os H → SciDesc → ℕ → ℕ → ℕ → Answer → P H (ℕ × Option SciMap)
sci_map_answered os d region offset size (fails e) = pure (sci_errno e, none)
sci_map_answered os d region offset size (gives base) = do
  a ← calloc os
  sci_mapped os d region offset size base a

-- The sum of offset and size is at most the segment's size, which is below 2^64.
unfoldable pub sci_map_segment :
    {H : Type 0} → Os H → Option SciDesc → ℕ → Option SciMap → ℕ → ℕ → ℕ → P H (ℕ × Option SciMap)
sci_map_segment os none region map offset size segment_size = pure (einval, map)
sci_map_segment os (some d) region map offset size segment_size =
    if size == 0 || (ltb segment_size offset || ltb (segment_size - offset) size)
    then pure (einval, map)
    else (do
      r ← map_file os d.fd (region * page_size_of os) (offset + size)
      sci_map_answered os d region offset size r)

-- Size 0 asks for the rest of the segment.
unfoldable pub whole_size : ℕ → ℕ → ℕ → ℕ
whole_size segment_size offset size =
    if size == 0 then u64 (segment_size + 2 ^ 64 - offset) else size

unfoldable pub sci_map_local_segment :
    {H : Type 0} → Os H → Option LocalSegment → Option SciMap → ℕ → ℕ → P H (ℕ × Option SciMap)
sci_map_local_segment os none map offset size = pure (einval, map)
sci_map_local_segment os (some s) map offset size =
    sci_map_segment os s.sd 0 map offset (whole_size s.size offset size) s.size

unfoldable pub sci_map_remote_segment :
    {H : Type 0} → Os H → Option RemoteSegment → Option SciMap → ℕ → ℕ → P H (ℕ × Option SciMap)
sci_map_remote_segment os none map offset size = pure (einval, map)
sci_map_remote_segment os (some s) map offset size =
    sci_map_segment os s.sd 1 map offset (whole_size s.size offset size) s.size

-- The null pointer is 0.
unfoldable pub sci_map_addr : Option SciMap → ℕ
sci_map_addr none = 0
sci_map_addr (some m) = m.addr

unfoldable pub sci_map_bytes : Option SciMap → ℕ
sci_map_bytes none = 0
sci_map_bytes (some m) = m.size

unfoldable pub sci_unmap_segment : {H : Type 0} → Os H → Option SciMap → P H ℕ
sci_unmap_segment os none = pure einval
sci_unmap_segment os (some m) = do e ← unmap os m.base m.map_size; give (memory m.map_at); pure e

unfoldable pub sci_sequence_made : {H : Type 0} → SciMap → Answer → P H (ℕ × Option SciSequence)
sci_sequence_made m (fails e) = pure (sci_errno e, none)
sci_sequence_made m (gives a) = pure (0, some (record { sequence_at = a; map = some m }))

unfoldable pub sci_create_map_sequence :
    {H : Type 0} → Os H → Option SciMap → Option SciSequence → P H (ℕ × Option SciSequence)
sci_create_map_sequence os none sequence = pure (einval, sequence)
sci_create_map_sequence os (some m) sequence = do a ← calloc os; sci_sequence_made m a

-- SCIStartSequence and SCICheckSequence
unfoldable pub sci_check_sequence : Option SciSequence → ℕ
sci_check_sequence none = einval
sci_check_sequence (some q) = 0

unfoldable pub sci_barrier_through : {H : Type 0} → Os H → ℕ → Option SciMap → P H ℕ
sci_barrier_through os flags none = pure einval
sci_barrier_through os flags (some m) = sci_request_through os m.sd (barrier flags)

-- SCIFlush is the same function.
unfoldable pub sci_store_barrier : {H : Type 0} → Os H → Option SciSequence → ℕ → P H ℕ
sci_store_barrier os none flags = pure einval
sci_store_barrier os (some q) flags = sci_barrier_through os flags q.map

unfoldable pub sci_remove_sequence : {H : Type 0} → Option SciSequence → P H ℕ
sci_remove_sequence none = pure einval
sci_remove_sequence (some q) = do give (memory q.sequence_at); pure 0
