-- ===== src/Peers.antt =====
-- qemu_src/hw/misc/idt_ntb_ivshmem.c: the table of the server's clients and the messages of the
-- server, close_peer_eventfds to ivshmem_recv_setup.
mod Table
mod Messages
mod Receive
pub mod Reconnect
pub mod Framing
pub mod Connect
pub mod Members
pub mod Handshake
unfoldable pub use Table.*
unfoldable pub use Receive.*
unfoldable pub use Messages.*
