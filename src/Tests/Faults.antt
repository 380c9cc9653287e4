-- ===== src/Tests/Faults.antt =====
-- Instances of the theorems about refused messages, the doorbell and the chosen BAR.
use qemu_ntb_switch.Prelude.{◌≡◌, refl, arith, u32}
use qemu_ntb_switch.Shm.{first, second}
use qemu_ntb_switch.Registers.{oof_hlimit}
use qemu_ntb_switch.Device.{World, fault, out_of_bounds, Ensures}
use qemu_ntb_switch.Message.Mailbox.{regs_of}
use qemu_ntb_switch.Io.{write_register, ring_outbound_doorbell}
use qemu_ntb_switch.Io.Faults.{
  write_register-out_of_bounds, ring_outbound_doorbell-replaces, uses_inbound_bar,
}
use qemu_ntb_switch.Notify.Safety.{PeersFit}
use qemu_ntb_switch.Tests.Worlds.{first_world, host}

-- The first machine's guest has chosen the BAR 6 for its inbound window.
abbrev misplaced_world : World
misplaced_world = record first_world {
  dev = record first_world.dev { lregs = record first_world.dev.lregs { inbound_mw_bar = 6 } };
}

write_register-out_of_bounds_example :
    write_register host oof_hlimit 3 misplaced_world ≡ fault out_of_bounds
unfolding uses_inbound_bar
write_register-out_of_bounds_example =
    write_register-out_of_bounds host oof_hlimit 3 first misplaced_world refl refl (omega arith)

-- The second machine's register 1 holds a message, and its doorbell has bit 3.
abbrev full_world : World
full_world = record first_world {
  shm = record first_world.shm {
    vm2 = record first_world.shm.vm2 {
      regs = record first_world.shm.vm2.regs { msgsts = 131072; db = 8 };
    };
  };
}

full_world-fits : PeersFit full_world.dev
full_world-fits i = ground arith

ring_outbound_doorbell-replaces_example :
    Ensures (ring_outbound_doorbell 1 full_world) (λ _ w'. (regs_of second w').db ≡ u32 1)
ring_outbound_doorbell-replaces_example =
    ring_outbound_doorbell-replaces first 1 full_world full_world-fits refl
