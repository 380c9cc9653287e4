-- ===== src/Frames/Requests.antt =====
-- ntb_idt_app_ioctl, ntb_idt_app_mmap and ntb_idt_app_poll.
use qemu_ntb_switch.Prelude.{
  ℕ, ◌%◌, Bool, Option, some, none, ◌||◌, not, ltb, ◌==◌, nonzero, bit_or, if◌then◌else◌,
}
use qemu_ntb_switch.Driver.{
  Ntb, D, pure, ◌>>=◌, ◌>>◌, get_app, eagain, is_some, enodev, einval, efault, page_align,
  page_size, Mapping, maps_nothing, maps_buffer, maps_physical,
}
use qemu_ntb_switch.Frames.State.{AppDev, FrameMemory, frame_header_size, can_read, can_write}
use qemu_ntb_switch.Frames.Transfer.{tx_payload_size, rx_payload_size, read_ends, tx_commit_locked}

-- What RX_WAIT returns: an error, or the length and the sequence number of the frame.
pub data Arrival : Type 0 where
  no_frame : ℕ → Arrival
  frame : ℕ → ℕ → Arrival

unfoldable pub rx_wait_begins : AppDev → Arrival
rx_wait_begins app =
    if app.removed
    then no_frame enodev
    else if not app.rx_avail
    then no_frame eagain
    else frame app.rx_len app.rx_seq

unfoldable pub rx_wait_through :
    {H : Type 0} → D AppDev H (Unit {0}) → Bool → Arrival → D AppDev H Arrival
rx_wait_through others out_fails (no_frame ret) = pure (no_frame ret)
rx_wait_through others out_fails (frame len seq) =
    if out_fails then pure (no_frame efault) else (do others; read_ends; pure (frame len seq))

-- `others` is what the service work does between the copy and the end.
unfoldable pub app_rx_wait :
    {H : Type 0} → Bool → D AppDev H ℕ → D AppDev H (Unit {0}) → Bool → D AppDev H Arrival
app_rx_wait nonblock wait others out_fails =
    if nonblock
    then (do
      app ← get_app
      if can_read app
          then rx_wait_through others out_fails (rx_wait_begins app)
          else pure (no_frame eagain))
    else (do
      ret ← wait
      app ← get_app
      if nonzero ret
          then pure (no_frame ret)
          else rx_wait_through others out_fails (rx_wait_begins app))

-- TX_COMMIT, after its argument is read or not; the length is below 2^64.
unfoldable pub app_tx_commit :
    {H : Type 0} → Ntb H → FrameMemory H → Bool → D AppDev H ℕ → Bool → ℕ → D AppDev H ℕ
app_tx_commit ntb mem nonblock wait in_fails len =
    if in_fails
    then pure efault
    else if nonblock
    then (do app ← get_app; if can_write app then tx_commit_locked ntb mem len else pure eagain)
    else (do ret ← wait; if nonzero ret then pure ret else tx_commit_locked ntb mem len)

-- `ntb_idt_app_ioc_info`, less its reserved word.
pub record AppInfo : Type 0 where
  pub rx_map_size : ℕ
  pub tx_map_size : ℕ
  pub rx_payload : ℕ
  pub tx_payload : ℕ
  pub header_size : ℕ

unfoldable pub app_info : AppDev → AppInfo
app_info app = record {
  rx_map_size = app.rx_size;
  tx_map_size = if app.peer_ready then app.peer_size else 0;
  rx_payload = rx_payload_size app;
  tx_payload = if app.peer_ready then tx_payload_size app else 0;
  header_size = frame_header_size;
}

abbrev pub map_received : ℕ → AppDev → Option ℕ → Mapping
map_received size app none = maps_nothing einval
map_received size app (some buf) =
    if ltb (page_align app.rx_size) size then maps_nothing einval else maps_buffer buf app.rx_size

unfoldable pub app_mmap : ℕ → ℕ → AppDev → Mapping
app_mmap region size app =
    if app.removed
    then maps_nothing enodev
    else if region == 0
    then map_received size app app.rx_buf
    else if region == 1
    then (if not app.peer_ready
          || (not (is_some app.peer_io)
              || (not (app.peer_phys % page_size == 0) || ltb (page_align app.peer_size) size))
        then maps_nothing einval
        else maps_physical app.peer_phys size)
    else maps_nothing einval

-- EPOLLIN | EPOLLRDNORM and EPOLLOUT | EPOLLWRNORM
unfoldable pub app_poll : AppDev → ℕ
app_poll app = bit_or (if can_read app then 65 else 0) (if can_write app then 260 else 0)
