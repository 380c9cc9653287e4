-- ===== src/Tests/Windows.antt =====
-- Instances of the theorems about the memory windows.
use qemu_ntb_switch.Prelude.{◌≡◌, refl, arith, true, ◌≤◌, ◌<◌, ◌+◌}
use qemu_ntb_switch.Shm.{first}
use qemu_ntb_switch.Registers.{idt_bar_aperture_size}
use qemu_ntb_switch.Device.{Ensures, World}
use qemu_ntb_switch.Window.{
  idt_bar_update_peer_ram_alias, peer_offset, window_size, is_window, fits_peer_ram,
}
use qemu_ntb_switch.Window.Placement.{idt_bar_update_peer_ram_alias-Placed}
use qemu_ntb_switch.Window.Shown.{Placed, shows, ram_size, file_is_there, attachment, shows-bounds}
use qemu_ntb_switch.Prelude.{inl, ◌+◌}
use qemu_ntb_switch.Device.{ok, fault, out_of_bounds, ◌>>=◌}
use qemu_ntb_switch.Window.{PeerMemory, idt_bar_read, idt_bar_write}
use qemu_ntb_switch.Window.Transfer.{idt_bar_write-unchecked, idt_bar_read-idt_bar_write}
use qemu_ntb_switch.Tests.Worlds.{window_world, window_config, host}

idt_bar_update_peer_ram_alias-Placed_example :
    Ensures (idt_bar_update_peer_ram_alias host 2 window_world) (λ _ w'.
      Placed
        (shows host window_world.dev window_config 0x2000_0000)
        2
        (peer_offset window_config)
        (window_size window_config 0x2000_0000)
        2
        window_world
        w')
unfolding attachment
idt_bar_update_peer_ram_alias-Placed_example =
    idt_bar_update_peer_ram_alias-Placed host 2 2 window_world first refl (omega arith)
      (omega arith) refl

window_shows : shows host window_world.dev window_config 0x2000_0000 ≡ true
unfolding shows is_window window_size peer_offset fits_peer_ram ram_size file_is_there
window_shows = refl

shows-bounds_example :
    (peer_offset window_config + window_size window_config 0x2000_0000
      ≤ ram_size host window_world.dev)
    × (0 < window_size window_config 0x2000_0000)
    × (window_size window_config 0x2000_0000 ≤ idt_bar_aperture_size)
    × (0x2000_0000 + window_size window_config 0x2000_0000 ≤ window_config.limit)
shows-bounds_example = shows-bounds host window_world.dev window_config 0x2000_0000 window_shows

-- The other machine's memory is mapped already, and its file ends at 0x4c00000.
abbrev mapped : World
mapped = record window_world { dev = record window_world.dev { peer_mem = true } }

abbrev file : PeerMemory
file = record { size = 0x4c0_0000; bytes = λ _. 0 }

idt_bar_read-idt_bar_write_example :
    (idt_bar_write host file 16 258 4 2 >>= λ mem. idt_bar_read host mem 16 4 2) mapped
    ≡ ok 258 mapped
unfolding peer_offset
idt_bar_read-idt_bar_write_example =
    idt_bar_read-idt_bar_write host file first 2 16 4 258 mapped refl (omega arith)
      (omega arith, omega arith) refl (inl refl) (omega arith)

idt_bar_write-unchecked_example :
    idt_bar_write host file 0x10_0000 1 4 2 mapped ≡ fault out_of_bounds
unfolding peer_offset
idt_bar_write-unchecked_example =
    idt_bar_write-unchecked host file first 2 0x10_0000 4 mapped refl (omega arith) 1
      (omega arith, omega arith) refl (inl refl) (omega arith)
