-- ===== src/Sisci/Requests.antt =====
-- ntb_idt_sisci_ioctl, ntb_idt_sisci_mmap and ntb_idt_sisci_poll.
use qemu_ntb_switch.Prelude.{
  ℕ, ◌%◌, Bool, true, false, Option, some, none, ◌&&◌, ◌||◌, not, ltb, ◌==◌, nonzero, bit_or,
  if◌then◌else◌,
}
use qemu_ntb_switch.Driver.{
  Ntb, D, pure, ◌>>=◌, ◌>>◌, get_app, put_app, enolink, eagain, is_some, enodev, einval, enoent,
  efault, enotty, page_size, page_align, Mapping, maps_nothing, maps_buffer, maps_physical,
}
use qemu_ntb_switch.Sisci.State.{
  SisciDev, has_peer_segment, sisci_can_poll_write, free_local_segment_locked,
}
use qemu_ntb_switch.Sisci.Segment.{
  publish_available_locked, publish_unavailable_locked, alloc_local_segment_locked,
}

-- `ntb_idt_sisci_ioc_info`, less the node that is always 0.
pub record SisciInfo : Type 0 where
  pub peer_node_id : ℕ
  pub local_segment_id : ℕ
  pub remote_segment_id : ℕ
  pub local_segment_size : ℕ
  pub remote_segment_size : ℕ
  pub max_segments : ℕ
  pub flags : ℕ

-- The three flags NTB_IDT_SISCI_INFO_F_*.
unfoldable pub info_flags : SisciDev → ℕ
info_flags app =
    bit_or (if app.link_up then 1 else 0)
      (bit_or (if app.local_available then 2 else 0) (if app.peer_ready then 4 else 0))

unfoldable pub info_of : SisciDev → SisciInfo
info_of app = record {
  peer_node_id = app.peer_idx;
  local_segment_id = app.local_segment_id;
  remote_segment_id = app.remote_segment_id;
  local_segment_size = app.local_size;
  remote_segment_size = app.peer_usable_size;
  max_segments = 1;
  flags = info_flags app;
}

-- The request names a segment other than the driver's.
unfoldable pub names_other_segment : SisciDev → ℕ → Bool
names_other_segment app segment_id =
    not (is_some app.local_buf) || not (app.local_segment_id == segment_id)

-- The test at the start of the requests on an existing segment.
unfoldable pub with_segment : {H : Type 0} → ℕ → D SisciDev H ℕ → D SisciDev H ℕ
with_segment segment_id act = do
  app ← get_app
  if app.removed
      then pure enodev
      else if names_other_segment app segment_id
      then pure enoent
      else act

unfoldable pub set_available : {H : Type 0} → Ntb H → ℕ → D SisciDev H ℕ
set_available ntb segment_id = with_segment segment_id (do
  app ← get_app
  put_app (record app { local_available = true; local_published = false })
  publish_available_locked ntb)

unfoldable pub set_unavailable : {H : Type 0} → Ntb H → ℕ → D SisciDev H ℕ
set_unavailable ntb segment_id = with_segment segment_id (publish_unavailable_locked ntb segment_id)

unfoldable pub remove_segment : {H : Type 0} → Ntb H → ℕ → D SisciDev H ℕ
remove_segment ntb segment_id = with_segment segment_id (do
  ret ← publish_unavailable_locked ntb segment_id
  if nonzero ret then pure ret else (do free_local_segment_locked ntb; pure 0))

-- What an ioctl comes to: an error number, 0 among them, or a structure for the caller.
pub data Reply : Type 0 where
  code : ℕ → Reply
  info : SisciInfo → Reply
  size_of : ℕ → Reply

-- CONNECT_SEGMENT. The wait is an operation of its own, since others run while it lasts: it
-- returns 0 once the segment is there, or an error.
unfoldable pub finish_connect : {H : Type 0} → ℕ → D SisciDev H Reply
finish_connect segment_id = do
  app ← get_app
  pure (
      if app.removed
      then code enodev
      else if not app.peer_ready || not (app.remote_segment_id == segment_id)
      then code enolink
      else size_of app.peer_usable_size)

unfoldable pub connect_segment : {H : Type 0} → Bool → D SisciDev H ℕ → ℕ → D SisciDev H Reply
connect_segment nonblock wait segment_id =
    if nonblock
    then (do
      app ← get_app
      if has_peer_segment app segment_id then finish_connect segment_id else pure (code eagain))
    else (do ret ← wait; if nonzero ret then pure (code ret) else finish_connect segment_id)

-- The requests, with what copy_from_user has read.
pub data SisciRequest : Type 0 where
  get_info : SisciRequest
  -- The segment and the size.
  create : ℕ → ℕ → SisciRequest
  prepare : ℕ → SisciRequest
  available : ℕ → SisciRequest
  unavailable : ℕ → SisciRequest
  remove : ℕ → SisciRequest
  connect : ℕ → SisciRequest
  store_barrier : SisciRequest
  unknown : SisciRequest

unfoldable pub create_segment : {H : Type 0} → Ntb H → ℕ → ℕ → ℕ → D SisciDev H Reply
create_segment ntb buffer_size segment_id size = do
  ret ← alloc_local_segment_locked ntb buffer_size segment_id size
  app ← get_app
  pure (if nonzero ret then code ret else size_of app.local_size)

unfoldable pub sisci_request :
    {H : Type 0} → Ntb H → ℕ → Bool → D SisciDev H ℕ → SisciRequest → D SisciDev H Reply
sisci_request ntb buffer_size nonblock wait get_info = do
  app ← get_app
  pure (if app.removed then code enodev else info (info_of app))
sisci_request ntb buffer_size nonblock wait (create segment_id size) =
    create_segment ntb buffer_size segment_id size
sisci_request ntb buffer_size nonblock wait (prepare segment_id) = do
  ret ← with_segment segment_id (pure 0)
  pure (code ret)
sisci_request ntb buffer_size nonblock wait (available segment_id) = do
  ret ← set_available ntb segment_id
  pure (code ret)
sisci_request ntb buffer_size nonblock wait (unavailable segment_id) = do
  ret ← set_unavailable ntb segment_id
  pure (code ret)
sisci_request ntb buffer_size nonblock wait (remove segment_id) = do
  ret ← remove_segment ntb segment_id
  pure (code ret)
sisci_request ntb buffer_size nonblock wait (connect segment_id) =
    connect_segment nonblock wait segment_id
sisci_request ntb buffer_size nonblock wait store_barrier = pure (code 0)
sisci_request ntb buffer_size nonblock wait unknown = pure (code enotty)

-- The structure that goes back may not be writable.
unfoldable pub copied_out : Bool → Reply → Reply
copied_out fails (code ret) = code ret
copied_out fails (info i) = if fails then code efault else info i
copied_out fails (size_of n) = if fails then code efault else size_of n

unfoldable pub reads_argument : SisciRequest → Bool
reads_argument get_info = false
reads_argument unknown = false
reads_argument _ = true

-- The ioctl, with what the two copies come to.
unfoldable pub sisci_ioctl :
    {H : Type 0}
    → Ntb H
    → ℕ
    → Bool
    → D SisciDev H ℕ
    → Bool
    → Bool
    → SisciRequest
    → D SisciDev H Reply
sisci_ioctl ntb buffer_size nonblock wait in_fails out_fails request =
    if in_fails && reads_argument request then pure (code efault) else (do
      reply ← sisci_request ntb buffer_size nonblock wait request
      pure (copied_out out_fails reply))

abbrev pub map_local : ℕ → SisciDev → Option ℕ → Mapping
map_local size app none = maps_nothing einval
map_local size app (some buf) =
    if ltb (page_align app.local_size) size
    then maps_nothing einval
    else maps_buffer buf app.local_size

-- The page offset of the request chooses the region.
unfoldable pub sisci_mmap : ℕ → ℕ → SisciDev → Mapping
sisci_mmap region size app =
    if app.removed
    then maps_nothing enodev
    else if region == 0
    then map_local size app app.local_buf
    else if region == 1
    then (if not app.peer_ready
          || (not (is_some app.peer_io)
              || (not (app.peer_phys % page_size == 0)
                  || ltb (page_align app.peer_usable_size) size))
        then maps_nothing einval
        else maps_physical app.peer_phys size)
    else maps_nothing einval

-- EPOLLOUT | EPOLLWRNORM, and EPOLLERR | EPOLLHUP
abbrev pub poll_out : ℕ
poll_out = 260

abbrev pub poll_err : ℕ
poll_err = 24

unfoldable pub sisci_poll : SisciDev → ℕ
sisci_poll app =
    bit_or (if sisci_can_poll_write app then poll_out else 0) (if app.removed then poll_err else 0)
