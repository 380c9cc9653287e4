-- ===== src/Sisci/Segment.antt =====
-- ntb_idt_sisci_alloc_local_segment_locked and the two functions that publish a segment.
use qemu_ntb_switch.Prelude.{
  ℕ, ◌+◌, ◌-◌, ◌^◌, true, false, Option, some, none, ◌&&◌, ◌||◌, not, ltb, leb, ◌==◌, nonzero,
  bit_and, complement, u64, if◌then◌else◌,
}
use qemu_ntb_switch.Driver.{
  Ntb, D, pure, ◌>>=◌, ◌>>◌, get_app, put_app, ask, alloc, free, send_cmd, enomem, ebusy, enodev,
  einval, emsgsize, or_return, is_some, is_aligned,
}
use qemu_ntb_switch.Sisci.State.{
  SisciDev, sisci_cmd_segid, sisci_cmd_size, sisci_cmd_xlat, sisci_cmd_avail, sisci_cmd_unavail,
  free_local_segment_locked,
}

unfoldable pub publish_available_locked : {H : Type 0} → Ntb H → D SisciDev H ℕ
publish_available_locked ntb = do
  app ← get_app
  if not app.link_up
        || (not app.local_available || (not (is_some app.local_buf) || app.local_published))
      then pure 0
      else (send_cmd ntb app.peer_idx sisci_cmd_segid app.local_segment_id
          >>= or_return (
              send_cmd ntb app.peer_idx sisci_cmd_size app.local_size
              >>= or_return (
                  send_cmd ntb app.peer_idx sisci_cmd_xlat app.local_dma
                  >>= or_return (
                      send_cmd ntb app.peer_idx sisci_cmd_avail app.local_segment_id
                      >>= or_return (do
                        app' ← get_app
                        put_app (record app' { local_published = true })
                        pure 0)))))

unfoldable pub publish_unavailable_locked : {H : Type 0} → Ntb H → ℕ → D SisciDev H ℕ
publish_unavailable_locked ntb segment_id = do
  app ← get_app
  put_app (record app { local_available = false; local_published = false })
  if app.link_up && app.local_published
      then send_cmd ntb app.peer_idx sisci_cmd_unavail segment_id
      else pure 0

-- `ALIGN`
unfoldable pub align_up : ℕ → ℕ → ℕ
align_up x a = bit_and (u64 (x + (a - 1))) (complement 64 (a - 1))

-- The size to ask for, or an error.
pub data Request : Type 0 where
  asks : ℕ → Request
  refuses : ℕ → Request

unfoldable pub request_size : ℕ → ℕ → ℕ → Request
request_size size size_align size_max =
    if ltb 1 size_align && ltb (2 ^ 64 - 1 - (size_align - 1)) size
    then refuses emsgsize
    else (let req_size = if ltb 1 size_align then align_up size size_align else size in
        if not (size_max == 0) && ltb size_max req_size
        then refuses emsgsize
        else if req_size == 0
        then refuses einval
        else asks req_size)

-- `err_free`
unfoldable pub undo_alloc : {H : Type 0} → Ntb H → ℕ → ℕ → ℕ → D SisciDev H ℕ
undo_alloc ntb req_size buf ret = do
  free ntb req_size buf
  app ← get_app
  put_app (record app { local_buf = none; local_dma = 0 })
  pure ret

unfoldable pub use_buffer : {H : Type 0} → Ntb H → ℕ → ℕ → ℕ → Option (ℕ × ℕ) → D SisciDev H ℕ
use_buffer ntb segment_id req_size addr_align none = pure enomem
use_buffer ntb segment_id req_size addr_align (some (buf, dma)) = do
  app ← get_app
  put_app (record app { local_buf = some buf; local_dma = dma })
  if ltb 1 addr_align && not (is_aligned dma addr_align)
      then undo_alloc ntb req_size buf einval
      else (do
        ret ← ask (ntb.ntb_mw_set_trans dma req_size)
        if nonzero ret then undo_alloc ntb req_size buf ret else (do
          app' ← get_app
          put_app (record app' {
            local_size = req_size;
            local_segment_id = segment_id;
            local_available = false;
            local_published = false;
          })
          pure 0))

unfoldable pub request_buffer : {H : Type 0} → Ntb H → ℕ → ℕ → Request → D SisciDev H ℕ
request_buffer ntb segment_id addr_align (refuses ret) = pure ret
request_buffer ntb segment_id addr_align (asks req_size) = do
  r ← alloc ntb req_size
  use_buffer ntb segment_id req_size addr_align r

-- The part behind the test of the old segment.
unfoldable pub fresh_segment : {H : Type 0} → Ntb H → ℕ → ℕ → D SisciDev H ℕ
fresh_segment ntb segment_id size = do
  r ← ask ntb.ntb_mw_get_align
  if nonzero r.0 then pure r.0 else request_buffer ntb segment_id r.1 (request_size size r.2 r.3)

-- `buffer_size` is the module's parameter, the size where the request names none.
unfoldable pub alloc_local_segment_locked : {H : Type 0} → Ntb H → ℕ → ℕ → ℕ → D SisciDev H ℕ
alloc_local_segment_locked ntb buffer_size segment_id asked = do
  app ← get_app
  let size = if asked == 0 then buffer_size else asked
  if app.removed
      then pure enodev
      else if is_some app.local_buf
      then (if app.local_segment_id == segment_id && leb size app.local_size
          then pure 0
          else if app.local_available
          then pure ebusy
          else (do free_local_segment_locked ntb; fresh_segment ntb segment_id size))
      else fresh_segment ntb segment_id size
