-- ===== src/Tests/Frames.antt =====
-- The theorems on the frame driver, on the small machine.
use qemu_ntb_switch.Prelude.{arith, ◌≡◌, refl, true, false, none, some, List, [], ◌∷◌}
use qemu_ntb_switch.Driver.{Driver, D, eagain}
use qemu_ntb_switch.Driver.Ledger.{holding}
use qemu_ntb_switch.Frames.{
  AppDev, FrameMemory, frame_magic, app_fresh, app_remove, complete_rx, read_frame_through,
  can_read, app_read, counts, fails, frame_is_invalid,
}
use qemu_ntb_switch.Frames.Steady.{IsSteady}
use qemu_ntb_switch.Frames.Histories.{
  AppEvent, serves, writes, commits, reads, rx_waits, shifts, begins_removal, overtakes,
  app_history, app_remove-releases,
}
use qemu_ntb_switch.Frames.Loss.{copied, read_frame_through-loses}
use qemu_ntb_switch.Tests.Drivers.{Wire, wire_ntb}

-- The other machine has written a frame of 100 bytes.
abbrev wire_memory : FrameMemory Wire
wire_memory = record {
  read_frame = λ buf h. (record { magic = frame_magic; len = 100; seq = 7; flags = 0 }, h);
  write_frame = λ io f h. h;
  copy_to_user = λ buf n h. (false, h);
  copy_from_user = λ io n h. (false, h);
}

abbrev idle : Wire
idle = record { out = λ _. none; into = λ _. none; refusal = false; up = 1 }

abbrev events : List (AppEvent Wire)
events =
    serves 4
    ∷ writes true 0 50
    ∷ commits false 0 false 30
    ∷ reads true 0 (4 ∷ []) 200
    ∷ rx_waits true 0 (4 ∷ []) false
    ∷ shifts (λ h. record h { up = 0 })
    ∷ serves 4
    ∷ begins_removal
    ∷ overtakes
    ∷ []

app_remove-releases_example :
    let w =
      (app_history wire_ntb wire_memory 4096 events
        (record { app = app_fresh 0; hw = idle; calls = [] })).1 in
    IsSteady w.app w.calls
    × (holding
          (app_remove wire_ntb
            (app_history wire_ntb wire_memory 4096 (overtakes ∷ serves 4 ∷ []))
            w).1.calls
        ≡ some (record { buffer = none; mapping = none }))
app_remove-releases_example =
    app_remove-releases wire_ntb wire_memory 4096 events (overtakes ∷ serves 4 ∷ []) 0 idle

-- A frame of 60 bytes waits in the buffer.
abbrev waiting : Driver AppDev Wire
waiting = record {
  app = record (app_fresh 0) {
    link_up = true;
    rx_avail = true;
    rx_buf = some 77;
    rx_size = 4096;
    rx_len = 60;
  };
  hw = idle;
  calls = [];
}

read_frame_through-loses_example :
    let kick : D AppDev Wire (Unit {0}) = complete_rx wire_memory (some 77) 100 in
    let r = read_frame_through wire_memory kick (counts 60) waiting in
    ((kick (copied wire_memory 77 60 waiting)).1.app.rx_avail ≡ true)
    × (r.0 ≡ counts 60)
    × (can_read r.1.app ≡ false)
    × (app_read wire_memory true (λ w. (0, w)) (λ w. (tt, w)) 200 r.1 ≡ (fails eagain, r.1))
unfolding frame_is_invalid app_fresh
read_frame_through-loses_example =
    read_frame_through-loses wire_memory waiting 77 60 100 200 (λ w. (0, w)) (λ w. (tt, w)) refl
      refl refl refl (omega arith)
