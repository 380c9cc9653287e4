-- ===== src/Tests/Messages.antt =====
-- Instances of the theorems about notifications, messages and registers.
use qemu_ntb_switch.Prelude.{complement, [], ◌≡◌, refl, arith, ◌∷◌, pos}
use qemu_ntb_switch.Shm.{first, second}
use qemu_ntb_switch.Registers.{outmsg}
use qemu_ntb_switch.Device.{Ensures, World, ok, event_notifier_set}
use qemu_ntb_switch.Notify.{idt_kick_peer_interrupt, eventfd_interrupt_host}
use qemu_ntb_switch.Notify.Safety.{
  PeersFit, Notifies, Kept, idt_kick_peer_interrupt-Notifies, idt_kick_peer_interrupt-delivers,
}
use qemu_ntb_switch.Message.{write_outbound_msg}
use qemu_ntb_switch.Message.Mailbox.{mailbox, regs_of}
use qemu_ntb_switch.Message.Posting.{write_outbound_msg-Posts, Posts}
use qemu_ntb_switch.Io.{write_register}
use qemu_ntb_switch.Io.Mail.{mail_after, write_register-Mails}
use qemu_ntb_switch.Tests.Worlds.{first_world, host}

first_world-fits : PeersFit first_world.dev
first_world-fits i = ground arith

idt_kick_peer_interrupt-Notifies_example :
    Ensures
      (idt_kick_peer_interrupt first_world)
      (λ _ w'. Notifies eventfd_interrupt_host first_world w')
idt_kick_peer_interrupt-Notifies_example =
    idt_kick_peer_interrupt-Notifies first_world first_world-fits

-- The first machine knows the second, which has a message interrupt pending.
abbrev pending_world : World
pending_world = record first_world {
  dev = record first_world.dev { other_vm_id = pos 1 };
  shm = record first_world.shm {
    vm2 = record first_world.shm.vm2 { regs = record first_world.shm.vm2.regs { intsts = 1 } };
  };
}

idt_kick_peer_interrupt-delivers_example :
    idt_kick_peer_interrupt pending_world
    ≡ ok tt (record pending_world { calls = event_notifier_set 1 1 ∷ [] })
unfolding complement
idt_kick_peer_interrupt-delivers_example =
    idt_kick_peer_interrupt-delivers pending_world first 1 first_world-fits refl refl (omega arith)
      (omega arith) refl

write_outbound_msg-Posts_example :
    Ensures (write_outbound_msg 1 77 first_world) (λ _ w'. Posts first 1 77 1 first_world w')
write_outbound_msg-Posts_example =
    write_outbound_msg-Posts first 1 77 1 first_world (omega arith) first_world-fits refl

write_register-Mails_example : Ensures (write_register host (outmsg 3) 9 first_world) (λ _ w'.
    (mailbox (regs_of second w') 3 ≡ mail_after first (outmsg 3) 9 second 3 first_world)
    × Kept first_world w')
write_register-Mails_example =
    write_register-Mails host (outmsg 3) 9 first second 3 first_world first_world-fits refl
      (omega arith) (omega arith)
