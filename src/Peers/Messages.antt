-- ===== src/Peers/Messages.antt =====
-- process_msg and the functions for each kind of message, and ivshmem_recv_setup.
use qemu_ntb_switch.Prelude.{
  ℕ, zero, suc, ◌+◌, Bool, true, false, not, ◌&&◌, ◌||◌, Option, none, some, ltb, leb, ◌==◌,
  if◌then◌else◌, update, ℤ, pos, negsuc,
}
use qemu_ntb_switch.Device.{
  M, pure, when, call, close, event_notifier_init_fd, get_dev, put_dev, check_eventfds, ◌>>=◌, ◌>>◌,
}
use qemu_ntb_switch.Notify.{eventfd_interrupt_host, idt_kick_peer_interrupt}
use qemu_ntb_switch.Peers.Table.{Kvm, close_peer_eventfds, resize_peers, setup_interrupt}

abbrev pub ivshmem_max_peers : ℕ
ivshmem_max_peers = 0xFFFF

-- What the host answers about a descriptor of shared memory: its size and whether QEMU maps it.
pub record ShmFile : Type 0 where
  pub file_size : Option ℕ
  pub inits_ram : Bool

-- Each of these returns whether an error is set.
unfoldable pub process_msg_shmem : ShmFile → ℕ → M Bool
process_msg_shmem f fd = do
  s ← get_dev
  if s.ivshmem_bar2 then (do call (close fd); pure true) else (elim f.file_size [
    | none ↦ do call (close fd); pure true
    | some size ↦
        if f.inits_ram
        then (do put_dev (record s { ivshmem_bar2 = true }); pure false)
        else pure true
  ])

unfoldable pub process_msg_disconnect : ℕ → M Bool
process_msg_disconnect posn = do
  s ← get_dev
  if leb s.nb_peers posn || posn == s.vm_id
      then pure true
      else (do close_peer_eventfds posn; pure false)

-- The setup of an interrupt, and the kick when the other machine's second notifier arrives.
unfoldable pub after_connect : Kvm → ℕ → ℕ → M (Unit {0})
after_connect k posn vector = do
  s ← get_dev
  when (not (posn == s.vm_id) && vector == eventfd_interrupt_host) idt_kick_peer_interrupt

unfoldable pub process_msg_connect : Kvm → ℕ → ℕ → M Bool
unfolding after_connect check_eventfds
process_msg_connect k posn fd = do
  s ← get_dev
  let peer = s.peers posn
  if leb s.vectors peer.nb_eventfds then (do call (close fd); pure true) else (do
    put_dev (record s {
      peers = update s.peers posn (record peer { nb_eventfds = peer.nb_eventfds + 1 });
    })
    check_eventfds peer.eventfds peer.nb_eventfds
    call (event_notifier_init_fd posn peer.nb_eventfds fd)
    err ← (if posn == s.vm_id then setup_interrupt k peer.nb_eventfds else pure false)
    after_connect k posn peer.nb_eventfds
    pure err)

-- A message of the server: its number and the descriptor that came with it, if one did.
pub record Message : Type 0 where
  pub number : ℤ
  pub fd : Option ℕ

unfoldable pub grow_for : ℕ → M (Unit {0})
grow_for n = do s ← get_dev; when (leb s.nb_peers n) (resize_peers (n + 1))

unfoldable pub process_peer_msg : Kvm → ℕ → Option ℕ → M Bool
unfolding grow_for process_msg_connect process_msg_disconnect
process_peer_msg k n none = do grow_for n; process_msg_disconnect n
process_peer_msg k n (some fd) = do grow_for n; process_msg_connect k n fd

unfoldable pub close_fd : Option ℕ → M (Unit {0})
close_fd none = pure tt
close_fd (some fd) = call (close fd)

unfoldable pub process_msg : Kvm → ShmFile → Message → M Bool
unfolding close_fd process_peer_msg process_msg_shmem
process_msg k f m = elim m.number [
  | negsuc (zero) ↦ elim m.fd [ none ↦ pure true | some fd ↦ process_msg_shmem f fd ]
  | negsuc (suc _) ↦ do close_fd m.fd; pure true
  | pos n ↦
      if ltb ivshmem_max_peers n then (do close_fd m.fd; pure true) else process_peer_msg k n m.fd
]
