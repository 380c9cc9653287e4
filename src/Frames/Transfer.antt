-- ===== src/Frames/Transfer.antt =====
-- ntb_idt_app_read and ntb_idt_app_write.
use qemu_ntb_switch.Prelude.{
  ℕ, ◌+◌, ◌-◌, ◌^◌, Bool, true, false, Option, some, none, ◌||◌, not, ltb, leb, ◌==◌, nonzero, u32,
  if◌then◌else◌,
}
use qemu_ntb_switch.Driver.{
  Ntb, D, pure, ◌>>=◌, ◌>>◌, get_app, put_app, ask, tell, send_cmd, eagain, enolink, enodev,
  emsgsize, efault,
}
use qemu_ntb_switch.Frames.State.{
  AppDev, FrameMemory, frame_magic, frame_header_size, app_cmd_kick, can_read, can_write,
}

unfoldable pub rx_payload_size : AppDev → ℕ
rx_payload_size app =
    if leb app.rx_size frame_header_size then 0 else app.rx_size - frame_header_size

unfoldable pub tx_payload_size : AppDev → ℕ
tx_payload_size app =
    if leb app.peer_size frame_header_size then 0 else app.peer_size - frame_header_size

-- U32_MAX
abbrev pub u32_max : ℕ
u32_max = 2 ^ 32 - 1

unfoldable pub commit_through : {H : Type 0} → Ntb H → FrameMemory H → ℕ → Option ℕ → D AppDev H ℕ
commit_through ntb mem len none = pure enolink
commit_through ntb mem len (some io) = do
  app ← get_app
  if not app.peer_ready
      then pure enolink
      else if ltb u32_max len || ltb (tx_payload_size app) len
      then pure emsgsize
      else (do
        put_app (record app { tx_seq = u32 (app.tx_seq + 1) })
        tell (
            mem.write_frame io (record {
              magic = frame_magic;
              len = u32 len;
              seq = u32 (app.tx_seq + 1);
              flags = 0;
            }))
        send_cmd ntb app.peer_idx app_cmd_kick len)

unfoldable pub tx_commit_locked : {H : Type 0} → Ntb H → FrameMemory H → ℕ → D AppDev H ℕ
tx_commit_locked ntb mem len = do
  app ← get_app
  if app.removed then pure enodev else commit_through ntb mem len app.peer_io

-- What read and write return: an error or a number of bytes.
pub data Count : Type 0 where
  fails : ℕ → Count
  counts : ℕ → Count

-- The wait before a transfer, which returns 0 or an error; others run while it lasts.
unfoldable pub after_wait :
    {H : Type 0} → Bool → (AppDev → Bool) → D AppDev H ℕ → D AppDev H Count → D AppDev H Count
after_wait nonblock test wait act =
    if nonblock
    then (do app ← get_app; if test app then act else pure (fails eagain))
    else (do ret ← wait; if nonzero ret then pure (fails ret) else act)

unfoldable pub write_through :
    {H : Type 0} → Ntb H → FrameMemory H → ℕ → Option ℕ → D AppDev H Count
write_through ntb mem count none = pure (fails enolink)
write_through ntb mem count (some io) = do
  app ← get_app
  if not app.peer_ready
      then pure (fails enolink)
      else if ltb u32_max count || ltb (tx_payload_size app) count
      then pure (fails emsgsize)
      else (do
        faulted ← ask (mem.copy_from_user io count)
        if faulted then pure (fails efault) else (do
          ret ← tx_commit_locked ntb mem count
          pure (if nonzero ret then fails ret else counts count)))

-- The part of write under the lock.
unfoldable pub write_locked : {H : Type 0} → Ntb H → FrameMemory H → ℕ → D AppDev H Count
write_locked ntb mem count = do
  app ← get_app
  if app.removed then pure (fails enodev) else write_through ntb mem count app.peer_io

unfoldable pub app_write :
    {H : Type 0} → Ntb H → FrameMemory H → Bool → D AppDev H ℕ → ℕ → D AppDev H Count
app_write ntb mem nonblock wait count =
    if count == 0
    then pure (counts 0)
    else after_wait nonblock can_write wait (write_locked ntb mem count)

-- The first part of read, up to the copy: a frame of this length is there, or an error.
unfoldable pub read_begins : AppDev → ℕ → Count
read_begins app count =
    if app.removed
    then fails enodev
    else if not app.rx_avail
    then fails eagain
    else if ltb count app.rx_len
    then fails emsgsize
    else counts app.rx_len

unfoldable pub copy_frame : {H : Type 0} → FrameMemory H → Option ℕ → ℕ → D AppDev H Bool
copy_frame mem none len = pure true
copy_frame mem (some buf) len = ask (mem.copy_to_user buf len)

-- The last part of read. It does not hold the lock between the two parts.
unfoldable pub read_ends : {H : Type 0} → D AppDev H (Unit {0})
read_ends = do app ← get_app; put_app (record app { rx_avail = false; rx_len = 0 })

unfoldable pub read_frame_through :
    {H : Type 0} → FrameMemory H → D AppDev H (Unit {0}) → Count → D AppDev H Count
read_frame_through mem others (fails ret) = pure (fails ret)
read_frame_through mem others (counts len) = do
  app ← get_app
  faulted ← copy_frame mem app.rx_buf len
  if faulted then pure (fails efault) else (do others; read_ends; pure (counts len))

-- `others` is what the service work does between the copy and the end.
unfoldable pub app_read :
    {H : Type 0}
    → FrameMemory H
    → Bool
    → D AppDev H ℕ
    → D AppDev H (Unit {0})
    → ℕ
    → D AppDev H Count
app_read mem nonblock wait others count =
    if count == 0
    then pure (counts 0)
    else after_wait nonblock can_read wait
        (do app ← get_app; read_frame_through mem others (read_begins app count))
