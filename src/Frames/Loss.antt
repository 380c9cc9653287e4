-- ===== src/Frames/Loss.antt =====
-- ntb-idt-app.c: a frame that arrives while another one is being read.
use qemu_ntb_switch.Prelude.{ℕ, ◌≡◌, ◌<◌, ◌==◌, arith, refl, true, false, some}
use qemu_ntb_switch.Driver.{Driver, D, ask, eagain}
use qemu_ntb_switch.Frames.State.{AppDev, FrameMemory, can_read}
use qemu_ntb_switch.Frames.Service.{complete_rx, take_frame, frame_is_invalid}
use qemu_ntb_switch.Frames.Transfer.{
  fails, counts, app_read, after_wait, read_frame_through, copy_frame, read_ends,
}

module _ {H : Type 0} (mem : FrameMemory H) where
  -- The state once the first frame is copied.
  abbrev pub copied : ℕ → ℕ → Driver AppDev H → Driver AppDev H
  copied buf len w = (ask (mem.copy_to_user buf len) w).1

  -- A valid frame that arrives after the copy of the frame before it and before the end of that
  -- read, with the buffer there, the driver not being removed and the first copy without a
  -- fault: its doorbell makes it available and the read returns its own count, but no frame
  -- waits after it: a reader that may wait does so, and a read of at least one byte that may
  -- not wait ends with EAGAIN.
  pub read_frame_through-loses :
      (w : Driver AppDev H) (buf len next count : ℕ) (wait : D AppDev H ℕ)
      (others : D AppDev H (Unit {0}))
      → w.app.rx_buf ≡ some buf
      → w.app.removed ≡ false
      → (mem.copy_to_user buf len w.hw).0 ≡ false
      → frame_is_invalid (mem.read_frame buf (copied buf len w).hw).0 next w.app.rx_size ≡ false
      → 0 < count
      → let kick : D AppDev H (Unit {0}) = complete_rx mem (some buf) next in
        let r = read_frame_through mem kick (counts len) w in
        ((kick (copied buf len w)).1.app.rx_avail ≡ true)
        × (r.0 ≡ counts len)
        × (can_read r.1.app ≡ false)
        × (app_read mem true wait others count r.1 ≡ (fails eagain, r.1))
  unfolding read_frame_through read_ends copy_frame complete_rx take_frame app_read after_wait
      can_read
  read_frame_through-loses w buf len next count wait others b stays ok valid some_bytes =
      let asked : (count == 0) ≡ false = ground arith in
      (
        rw valid refl,
        rw (b, ok) refl,
        rw (b, ok) (rw valid (simp stays refl)),
        rw asked (rw (b, ok) (rw valid (simp stays refl))),
      )
