-- ===== src/Lib.antt =====
-- A model of the NTB switch device of QEMU, qemu_src/hw/misc/idt_ntb_ivshmem.c, which connects two
-- virtual machines: each machine's guest sees an IDT switch with message registers, doorbells and
-- memory windows, and the two devices share a file that holds both machines' registers.
--
-- The parts and their files:
--   Registers    the addresses of the registers (idt_config_registers, idt_global_config_registers),
--                with the two switches of the handlers as `decode` and `decode_global`;
--   Shm          the shared file (idt_ivshmem_shm_storage): two halves, one for each machine;
--   Device       the device's state (IVShmemState), and handlers as functions of a world (the
--                device, the shared file and the calls of QEMU so far) that end or fault;
--   Notify       idt_peer_eventfd_ready, idt_kick_peer_interrupt and what they notify;
--   Message      write_outbound_msg;
--   Gas          the indirect accesses: get_gasadata, write_gasadata, get_nt_mtb_data, set_nt_mtb_data;
--   Window       the aliases of the other machine's memory (idt_bar_update_peer_ram_alias) and the
--                accesses that no alias serves (idt_bar_read, idt_bar_write);
--   Io           ivshmem_io_write and ivshmem_io_read, every register;
--   Peers        the table of peers, the messages of the ivshmem server, from their bytes to
--                process_msg, and ivshmem_recv_setup;
--   Irqfd        ivshmem_vector_notify, masking, polling and the KVM routes;
--   Lifecycle    ivshmem_common_realize, ivshmem_exit and the functions for migration;
--   System       both machines on one shared file;
--   Ring         the ring of user_src/ntb_utils.c with run_tx and run_rx of user_src/ntb_profiling.c;
--   Driver       what the kernel drivers share: the calls of the kernel's NTB interface, and the
--                functions for the mailbox (ntb_idt_sisci_send_cmd, ntb_idt_sisci_recv_cmd), error
--                numbers, alignment and mappings;
--   Sisci        kernel_src/ntb-idt-sisci-app/ntb-idt-sisci-app.c;
--   Frames       kernel_src/ntb-idt-app/ntb-idt-app.c;
--   Tools        the rest of user_src: the options (ntb_utils.c, ntb_profiling.c), the SISCI library
--                (ntb_sisci.c), the two backends (ntb_profiling.c, ntb_generic.c), main, and the
--                library over the SISCI driver;
--   Tests        concrete machines, and the theorems applied to them.
--
-- The drivers use the message registers and windows that the device offers to its guest, and the
-- programs use the windows that the SISCI driver maps.
--
-- A handler `f` of the source is the definition `f`. A fault of the model is where the C code aborts,
-- leaves an array, uses freed memory or follows a null pointer. The seven pointers into the shared
-- file are one field, `slot`, since they are set together. Registers are natural numbers; where a
-- field is narrower than the value that is stored, the definition says so by `u32`. A `~` of C is the
-- complement in its type's width.
--
-- The device's loops run over a count or over the list of what the host delivers, without fuel. What
-- the host and QEMU answer (whether a file opens, its size, whether KVM adds a route) are the records
-- Host, ShmFile, Kvm, KvmAnswers and Qemu, which the definitions take.
--
-- The ring's two programs run interleaved: a turn of one is one load or store of the shared header or
-- of a slot's sequence number, with the private work that follows, and a run is any sequence of turns.
-- The sender's search for a ring is the exception: its loads are one turn, of fields that nobody changes
-- before a sender has found the ring. The clock, the allocator and the barrier give arbitrary answers.
--
-- A driver's handler takes the driver's state, the hardware behind the kernel's interface (the record
-- Ntb, whose answers are arbitrary) and the list of buffers and mappings taken and given back so far.
-- A handler under the driver's mutex is one step. The removal sets its flag without the mutex: it does
-- so between two steps, and a step of its own, `overtakes`, writes what a handler that was running then
-- writes to the flags after it. `send_cmd` makes the 100 tries of the source. The source's service work
-- runs until no command is waiting; the model's takes at most a given number of commands, and the
-- theorems hold for every such number. Theorems on the mailbox suppose that the registers behave as the
-- kernel documents them. FrameMemory is the memory that the frame driver shares with the other machine
-- and with its callers.
--
-- A user program is a function of its process: what it holds of descriptors, mappings and memory, and
-- the rest of the machine, which the calls of the system (the record Os) change and whose answers are
-- arbitrary. A pointer that a function sets is taken and returned. The loops that repeat an interrupted
-- call, and those on the ring, have a bound, and the theorems hold for every one. The loops of run_rx
-- and run_tx take the turns of Ring on the ring that a record Session finds in the window, where the
-- other program may have changed it, and call the backend's barrier where the source does.
--
-- Not modelled: the registration of memory regions and PCI BARs, the host memory backend that no
-- property sets, debug output and messages, races of the two QEMU processes on one register, the
-- starting of programs, a handler that meets some of the flags of a removal in its later tests only,
-- the example device under examples, and the scripts.
pub mod Prelude
pub mod Registers
pub mod Shm
pub mod Device
pub mod Notify
pub mod Message
pub mod Gas
pub mod Window
pub mod Io
pub mod Peers
pub mod Irqfd
pub mod Lifecycle
pub mod System
pub mod Ring
pub mod Driver
pub mod Sisci
pub mod Frames
pub mod Tools
pub mod Tests
