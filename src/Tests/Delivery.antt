-- ===== src/Tests/Delivery.antt =====
-- A message that the first machine sends to the second, with another write in between.
use qemu_ntb_switch.Prelude.{
  update, complement, test_bit, pos, bit_or, ℕ, zero, suc, ◌≡◌, refl, arith, true, false, some,
  none, [], ◌∷◌, List,
}
use qemu_ntb_switch.Shm.{first, second, half}
use qemu_ntb_switch.Registers.{outmsg, inmsg, inmsgsrc, msgsts, address}
use qemu_ntb_switch.Device.{World, ok, event_notifier_set}
use qemu_ntb_switch.Message.Mailbox.{mailbox}
use qemu_ntb_switch.Io.{write_register, ivshmem_io_write, ivshmem_io_read}
use qemu_ntb_switch.System.{System, world_of, with_world, IsConnected}
use qemu_ntb_switch.System.Delivery.{Run, here, next, takes, message_delivered, Run-keeps-message}
use qemu_ntb_switch.Tests.Worlds.{device, quiet_shm, host}

abbrev both : System
both = record { shm = quiet_shm; dev1 = device 0 first; dev2 = device 1 second }

both-IsConnected : IsConnected both
both-IsConnected = record {
  slot1 = refl;
  slot2 = refl;
  fit1 = λ i. ground arith;
  fit2 = λ i. ground arith;
}

-- The first machine has sent 77 to the register 2, and has notified the second.
abbrev sent_world : World
sent_world = record (world_of first both) {
  dev = record (device 0 first) { other_vm_id = pos 1 };
  shm = record quiet_shm {
    vm2 = record quiet_shm.vm2 {
      regs = record quiet_shm.vm2.regs {
        msg = update quiet_shm.vm2.regs.msg 2 77;
        msgsts = 262144;
        inb_msg_src = update quiet_shm.vm2.regs.inb_msg_src 2 5;
        intsts = 1;
      };
    };
  };
  calls = event_notifier_set 1 1 ∷ [];
}

sent : ivshmem_io_write host (address (outmsg 2)) 77 (world_of first both) ≡ ok tt sent_world
unfolding ivshmem_io_write qemu_ntb_switch.Registers.decode
    qemu_ntb_switch.Message.write_outbound_msg qemu_ntb_switch.Prelude.complement
    qemu_ntb_switch.Notify.passes_mask qemu_ntb_switch.Notify.idt_raise_peer_interrupt
sent = refl

-- The second machine's guest clears the status of another register.
abbrev cleared_world : World
cleared_world = world_of second (with_world first sent_world both)

cleared :
    write_register host msgsts 131072 (world_of second (with_world first sent_world both))
    ≡ ok tt cleared_world
unfolding write_register complement
cleared = refl

abbrev later : System
later = with_world second cleared_world (with_world first sent_world both)

not_taken : takes second msgsts 131072 second 2 ≡ false
unfolding takes test_bit
not_taken = refl

run : Run host second 2 (with_world first sent_world both) later
run = next here second msgsts 131072 cleared_world not_taken tt cleared

message_delivered_example :
    (ivshmem_io_read host (address (inmsg 2)) (world_of second later)
      ≡ ok 77 (world_of second later))
    × (ivshmem_io_read host (address (inmsgsrc 2)) (world_of second later)
        ≡ ok 5 (world_of second later))
unfolding mailbox test_bit
message_delivered_example =
    message_delivered host first 2 77 sent_world (omega arith) both-IsConnected refl sent run

-- The second machine's register 2 holds the message from the start.
abbrev filled : System
filled = with_world first sent_world both

filled-IsConnected : IsConnected filled
filled-IsConnected = record {
  slot1 = refl;
  slot2 = refl;
  fit1 = λ i. ground arith;
  fit2 = λ i. ground arith;
}

Run-keeps-message_example : mailbox (half second later.shm).regs 2 ≡ some (77, 5)
unfolding mailbox test_bit
Run-keeps-message_example =
    Run-keeps-message host second 2 (omega arith) (77, 5) filled-IsConnected run refl
