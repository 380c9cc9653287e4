-- ===== src/Tools/Sci/Segments.antt =====
-- user_src/ntb_sisci.c: the descriptor of the device, and local and remote segments. A function that
-- sets a pointer of its caller takes the pointer's value and returns the error with the new value.
-- Error 0 is success. Flags and callbacks that the source ignores are left out.
use qemu_ntb_switch.Prelude.{ℕ, Option, some, none, ◌==◌, nonzero, if◌then◌else◌}
use qemu_ntb_switch.Driver.{einval, enoent}
use qemu_ntb_switch.Tools.Process.{
  Os, P, Answer, fails, gives, SciRequest, create, prepare, make_available, make_unavailable,
  remove, connect, pure, ◌>>=◌, ◌>>◌, ask, give, memory, calloc, close, open_file,
}
use qemu_ntb_switch.Tools.Sci.Types.{SciDesc, LocalSegment, RemoteSegment, sci_errno}

-- Where the structure cannot be allocated, the errno is that of `close` if it fails too.
unfoldable pub sci_opened : {H : Type 0} → Os H → ℕ → Answer → P H (ℕ × Option SciDesc)
sci_opened os fd (fails e) = do c ← close os fd; pure (sci_errno (if nonzero c then c else e), none)
sci_opened os fd (gives a) = pure (0, some (record { desc_at = a; fd = fd }))

unfoldable pub sci_with_file : {H : Type 0} → Os H → Answer → P H (ℕ × Option SciDesc)
sci_with_file os (fails e) = pure (sci_errno e, none)
sci_with_file os (gives fd) = do a ← calloc os; sci_opened os fd a

-- No caller passes a null pointer.
unfoldable pub sci_open : {H : Type 0} → Os H → P H (ℕ × Option SciDesc)
sci_open os w = (open_file os w.device_path >>= sci_with_file os) w

unfoldable pub sci_close : {H : Type 0} → Os H → Option SciDesc → P H ℕ
sci_close os none = pure einval
sci_close os (some d) = do e ← close os d.fd; give (memory d.desc_at); pure e

unfoldable pub sci_created : {H : Type 0} → SciDesc → ℕ → ℕ → Answer → P H (ℕ × Option LocalSegment)
sci_created d segment_id size (fails e) = pure (sci_errno e, none)
sci_created d segment_id size (gives a) =
    pure (0, some (record { segment_at = a; sd = some d; segment_id = segment_id; size = size }))

unfoldable pub sci_create_answered :
    {H : Type 0} → Os H → SciDesc → ℕ → Answer → P H (ℕ × Option LocalSegment)
sci_create_answered os d segment_id (fails e) = pure (sci_errno e, none)
sci_create_answered os d segment_id (gives size) = do a ← calloc os; sci_created d segment_id size a

unfoldable pub sci_create_segment :
    {H : Type 0}
    → Os H
    → Option SciDesc
    → Option LocalSegment
    → ℕ
    → ℕ
    → P H (ℕ × Option LocalSegment)
sci_create_segment os none segment segment_id size = pure (einval, segment)
sci_create_segment os (some d) segment segment_id size =
    if size == 0 then pure (einval, segment) else (do
      r ← ask (os.sci_ioctl d.fd (create segment_id size))
      sci_create_answered os d segment_id r)

-- 0, or the error of a request.
abbrev pub error_of : Answer → ℕ
error_of (fails e) = sci_errno e
error_of (gives n) = 0

unfoldable pub sci_request_through : {H : Type 0} → Os H → Option SciDesc → SciRequest → P H ℕ
sci_request_through os none request = pure einval
sci_request_through os (some d) request = do r ← ask (os.sci_ioctl d.fd request); pure (error_of r)

unfoldable pub sci_prepare_segment : {H : Type 0} → Os H → Option LocalSegment → ℕ → P H ℕ
sci_prepare_segment os none adapter_no = pure einval
sci_prepare_segment os (some s) adapter_no =
    sci_request_through os s.sd (prepare s.segment_id adapter_no s.size)

unfoldable pub sci_set_segment_available : {H : Type 0} → Os H → Option LocalSegment → ℕ → P H ℕ
sci_set_segment_available os none adapter_no = pure einval
sci_set_segment_available os (some s) adapter_no =
    sci_request_through os s.sd (make_available s.segment_id adapter_no s.size)

unfoldable pub sci_set_segment_unavailable : {H : Type 0} → Os H → Option LocalSegment → ℕ → P H ℕ
sci_set_segment_unavailable os none adapter_no = pure einval
sci_set_segment_unavailable os (some s) adapter_no =
    sci_request_through os s.sd (make_unavailable s.segment_id adapter_no s.size)

-- ENOENT counts as success.
abbrev pub remove_error : Answer → ℕ
remove_error (fails e) = if e == enoent then 0 else sci_errno e
remove_error (gives n) = 0

unfoldable pub sci_remove_through : {H : Type 0} → Os H → Option SciDesc → SciRequest → P H ℕ
sci_remove_through os none request = pure 0
sci_remove_through os (some d) request = do
  r ← ask (os.sci_ioctl d.fd request)
  pure (remove_error r)

unfoldable pub sci_remove_segment : {H : Type 0} → Os H → Option LocalSegment → P H ℕ
sci_remove_segment os none = pure einval
sci_remove_segment os (some s) = do
  e ← sci_remove_through os s.sd (remove s.segment_id s.size)
  give (memory s.segment_at)
  pure e

unfoldable pub sci_connected :
    {H : Type 0} → SciDesc → ℕ → ℕ → ℕ → Answer → P H (ℕ × Option RemoteSegment)
sci_connected d node segment_id size (fails e) = pure (sci_errno e, none)
sci_connected d node segment_id size (gives a) = pure (
  0,
  some (record {
    segment_at = a;
    sd = some d;
    remote_node_id = node;
    segment_id = segment_id;
    size = size;
  }),
)

unfoldable pub sci_connect_answered :
    {H : Type 0} → Os H → SciDesc → ℕ → ℕ → Answer → P H (ℕ × Option RemoteSegment)
sci_connect_answered os d node segment_id (fails e) = pure (sci_errno e, none)
sci_connect_answered os d node segment_id (gives size) = do
  a ← calloc os
  sci_connected d node segment_id size a

unfoldable pub sci_connect_segment :
    {H : Type 0}
    → Os H
    → Option SciDesc
    → Option RemoteSegment
    → ℕ
    → ℕ
    → ℕ
    → ℕ
    → P H (ℕ × Option RemoteSegment)
sci_connect_segment os none segment node segment_id adapter_no timeout_ms = pure (einval, segment)
sci_connect_segment os (some d) segment node segment_id adapter_no timeout_ms = do
  r ← ask (os.sci_ioctl d.fd (connect node segment_id adapter_no timeout_ms))
  sci_connect_answered os d node segment_id r

unfoldable pub sci_disconnect_segment : {H : Type 0} → Option RemoteSegment → P H ℕ
sci_disconnect_segment none = pure einval
sci_disconnect_segment (some s) = do give (memory s.segment_at); pure 0
