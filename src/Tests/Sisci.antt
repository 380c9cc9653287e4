-- ===== src/Tests/Sisci.antt =====
-- The theorems on the SISCI driver and on the commands, on the small machine.
use qemu_ntb_switch.Prelude.{
  ℕ, ◌+◌, ◌^◌, ◌<◌, ◌≡◌, refl, test_bit, if◌then◌else◌, ◌==◌, false, true, none, some, List, [],
  ◌∷◌, arith,
}
use qemu_ntb_switch.Driver.{Driver, eagain, send_cmd, recv_cmd, hweight, is_some}
use qemu_ntb_switch.Driver.Ledger.{holding}
use qemu_ntb_switch.Driver.Mailbox.{send_cmd-refused}
use qemu_ntb_switch.Driver.RoundTrip.{recv_cmd-send_cmd}
use qemu_ntb_switch.Sisci.{
  SisciDev, sisci_fresh, sisci_remove, sisci_mmap, create, available, remove, sisci_cmd_segid,
  sisci_cmd_size, sisci_cmd_xlat, sisci_cmd_avail, sisci_service_work, sisci_commands,
  sisci_command, act_on, sisci_set_link, mark_peer_unready_locked, unmap_peer, setup_peer_mw_locked,
  use_mapping, publish_available_locked,
}
use qemu_ntb_switch.Sisci.Sane.{IsSane}
use qemu_ntb_switch.Sisci.Histories.{
  SisciEvent, works, requests, moves, begins_removal, overtakes, sisci_history, sisci_event, probed,
  sisci_history-IsSane,
}
use qemu_ntb_switch.Sisci.Release.{Within, sisci_remove-releases, sisci_mmap-Within}
use qemu_ntb_switch.Sisci.Announcement.{
  Cooperates, IsReady, takes_commands, announcement, takes_commands-IsReady,
}
use qemu_ntb_switch.Tests.Drivers.{Wire, wire_ntb, wire_out, wire_sends, wire_receives}

abbrev idle : Wire
idle = record { out = λ _. none; into = λ _. none; refusal = false; up = 1 }

abbrev sender : Driver SisciDev Wire
sender = record { app = sisci_fresh 0; hw = idle; calls = [] }

abbrev receiver : Driver SisciDev Wire
receiver = record {
  app = sisci_fresh 0;
  hw = record idle { into = (send_cmd wire_ntb 0 sisci_cmd_segid 6000000000 sender).1.hw.out };
  calls = [];
}

recv_cmd-send_cmd_example :
    ((send_cmd wire_ntb 0 sisci_cmd_segid 6000000000 sender).0 ≡ 0)
    × ((recv_cmd wire_ntb receiver).0 ≡ some (sisci_cmd_segid, 6000000000))
    × ((r : ℕ) → (recv_cmd wire_ntb receiver).1.hw.into r ≡ none)
unfolding test_bit
recv_cmd-send_cmd_example =
    recv_cmd-send_cmd wire_ntb wire_out wire_sends wire_ntb (λ h. h.into) wire_receives 0
      sisci_cmd_segid 6000000000 sender receiver (omega arith) (omega arith) refl refl refl refl
      refl

abbrev blocked : Driver SisciDev Wire
blocked = record sender { hw = record idle { out = λ _. some 5 } }

send_cmd-refused_example :
    ((send_cmd wire_ntb 0 sisci_cmd_segid 9 blocked).0 ≡ eagain)
    × ((send_cmd wire_ntb 0 sisci_cmd_segid 9 blocked).1.hw.out ≡ blocked.hw.out)
unfolding test_bit
send_cmd-refused_example =
    send_cmd-refused wire_ntb wire_out wire_sends 0 sisci_cmd_segid 9 5 blocked refl refl

-- A segment is made and announced, commands are served, the link goes, and the segment is removed.
abbrev events : List (SisciEvent Wire)
events =
    works 8
    ∷ requests false 0 false false (create 3 10000)
    ∷ requests false 0 false false (available 3)
    ∷ works 8
    ∷ moves (λ h. record h { up = 0 })
    ∷ works 8
    ∷ requests false 0 false false (remove 3)
    ∷ requests false 0 false false (create 4 5000)
    ∷ begins_removal
    ∷ overtakes (record { ready = true; announced = true; available = true; published = true })
    ∷ []

sisci_history-IsSane_example :
    let w = (sisci_history wire_ntb 4096 events (probed wire_ntb 4096 0 idle)).1 in
    IsSane w.app w.calls
sisci_history-IsSane_example = sisci_history-IsSane wire_ntb 4096 events 0 idle

sisci_remove-releases_example :
    let w = (sisci_history wire_ntb 4096 events (probed wire_ntb 4096 0 idle)).1 in
    let r = (sisci_remove wire_ntb (sisci_history wire_ntb 4096 (works 8 ∷ [])) w).1 in
    holding r.calls ≡ some (record { buffer = none; mapping = none })
sisci_remove-releases_example = sisci_remove-releases wire_ntb 4096 events (works 8 ∷ []) 0 idle

-- The other machine's command stands in the registers.
abbrev command : ℕ → ℕ → Wire → Wire
command cmd value h = record h {
  into = λ r. if r == 0 then some cmd else if r == 1 then some value else some 0;
}

abbrev announced : List (SisciEvent Wire)
announced =
    moves (command sisci_cmd_segid 3)
    ∷ works 1
    ∷ moves (command sisci_cmd_size 10000)
    ∷ works 1
    ∷ moves (command sisci_cmd_xlat 8192)
    ∷ works 1
    ∷ moves (command sisci_cmd_avail 3)
    ∷ works 1
    ∷ []

announced_window :
    (sisci_history wire_ntb 4096 announced (probed wire_ntb 4096 0 idle)).1.app.peer_map_size
    ≡ 65536
unfolding sisci_history sisci_event sisci_fresh sisci_service_work sisci_commands sisci_command
    act_on sisci_set_link mark_peer_unready_locked unmap_peer setup_peer_mw_locked use_mapping
    is_some publish_available_locked recv_cmd hweight test_bit
announced_window = refl

small_window :
    (sisci_history wire_ntb 4096 announced (probed wire_ntb 4096 0 idle)).1.app.peer_map_size + 4096
    < 2 ^ 64
small_window = rw announced_window (omega arith)

sisci_mmap-Within_example :
    let app = (sisci_history wire_ntb 4096 announced (probed wire_ntb 4096 0 idle)).1.app in
    Within app 4096 (sisci_mmap 1 4096 app)
sisci_mmap-Within_example = sisci_mmap-Within wire_ntb 4096 announced 0 idle 1 4096 small_window

wire-Cooperates : Cooperates wire_ntb 1048576 65536 88
wire-Cooperates = record {
  address = λ h. refl;
  translation = λ x n h. refl;
  mapping = λ p n h. refl;
}

takes_commands-IsReady_example :
    IsReady 3 10000 8192 1048576 65536 88
      (takes_commands wire_ntb (announcement 3 10000 8192) sender).1.app
takes_commands-IsReady_example =
    takes_commands-IsReady wire_ntb 1048576 65536 88 wire-Cooperates 3 10000 8192 (omega arith)
      (omega arith) (omega arith) sender
