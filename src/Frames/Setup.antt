-- ===== src/Frames/Setup.antt =====
-- ntb_idt_app_setup_inbound_mw, ntb_idt_app_setup_peer_mw and ntb_idt_app_try_setup_peer_locked.
use qemu_ntb_switch.Prelude.{
  ℕ, ◌-◌, min, true, Option, some, none, ◌&&◌, ◌||◌, not, ltb, leb, ◌==◌, nonzero, bit_and,
  complement, if◌then◌else◌,
}
use qemu_ntb_switch.Driver.{
  Ntb, D, pure, ◌>>=◌, ◌>>◌, when, get_app, put_app, ask, tell, alloc, free, map_io, enomem,
  is_some, is_aligned, einval, enodata,
}
use qemu_ntb_switch.Frames.State.{AppDev, frame_header_size, free_peer_mw}

unfoldable pub app_undo_alloc : {H : Type 0} → Ntb H → ℕ → ℕ → ℕ → D AppDev H ℕ
app_undo_alloc ntb req_size buf ret = do
  free ntb req_size buf
  app ← get_app
  put_app (record app { rx_buf = none; rx_dma = 0 })
  pure ret

unfoldable pub use_rx_buffer : {H : Type 0} → Ntb H → ℕ → ℕ → Option (ℕ × ℕ) → D AppDev H ℕ
use_rx_buffer ntb req_size addr_align none = pure enomem
use_rx_buffer ntb req_size addr_align (some (buf, dma)) = do
  app ← get_app
  put_app (record app { rx_buf = some buf; rx_dma = dma })
  if ltb 1 addr_align && not (is_aligned dma addr_align)
      then app_undo_alloc ntb req_size buf einval
      else (do
        ret ← ask (ntb.ntb_mw_set_trans dma req_size)
        if nonzero ret
            then app_undo_alloc ntb req_size buf ret
            else (do app' ← get_app; put_app (record app' { rx_size = req_size }); pure 0))

-- The module's buffer size, cut to what the hardware takes and rounded down.
unfoldable pub inbound_size : ℕ → ℕ → ℕ → ℕ
inbound_size buffer_size size_align size_max =
    let capped =
      if not (size_max == 0) && ltb size_max buffer_size then size_max else buffer_size in
    if ltb 1 size_align then bit_and capped (complement 64 (size_align - 1)) else capped

unfoldable pub setup_inbound_mw : {H : Type 0} → Ntb H → ℕ → D AppDev H ℕ
setup_inbound_mw ntb buffer_size = do
  app ← get_app
  if is_some app.rx_buf then pure 0 else (do
    r ← ask ntb.ntb_mw_get_align
    let req_size = inbound_size buffer_size r.2 r.3
    if nonzero r.0
        then pure r.0
        else if leb req_size frame_header_size
        then pure einval
        else (do b ← alloc ntb req_size; use_rx_buffer ntb req_size r.1 b))

unfoldable pub use_window : {H : Type 0} → Ntb H → ℕ → ℕ → ℕ → ℕ → Option ℕ → D AppDev H ℕ
use_window ntb xlat size phys map_size none = do tell ntb.ntb_peer_mw_clear_trans; pure enomem
use_window ntb xlat size phys map_size (some p) = do
  app ← get_app
  put_app (record app {
    peer_io = some p;
    peer_phys = phys;
    peer_map_size = map_size;
    peer_xlat = xlat;
    peer_size = min size map_size;
  })
  pure 0

unfoldable pub setup_peer_mw : {H : Type 0} → Ntb H → D AppDev H ℕ
setup_peer_mw ntb = do
  app ← get_app
  if app.peer_xlat == 0 || leb app.peer_size frame_header_size then pure enodata else (do
    free_peer_mw ntb
    r ← ask ntb.ntb_peer_mw_get_addr
    if nonzero r.0 then pure r.0 else (do
      ret ← ask (ntb.ntb_peer_mw_set_trans app.peer_xlat app.peer_size)
      if nonzero ret
          then pure ret
          else (do p ← map_io ntb r.1 r.2; use_window ntb app.peer_xlat app.peer_size r.1 r.2 p)))

-- Readiness after the set-up has returned.
unfoldable pub ready_after : {H : Type 0} → ℕ → D AppDev H (Unit {0})
ready_after ret = do
  app ← get_app
  put_app (if nonzero ret then app else record app { peer_ready = true })

unfoldable pub try_setup_peer_locked : {H : Type 0} → Ntb H → D AppDev H (Unit {0})
try_setup_peer_locked ntb = do
  app ← get_app
  when (not (app.peer_xlat == 0 || app.peer_size == 0))
      (do ret ← setup_peer_mw ntb; ready_after ret)
