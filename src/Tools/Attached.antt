-- ===== src/Tools/Attached.antt =====
-- The SISCI library over the SISCI driver: what user_src/ntb_sisci.c gets from
-- kernel_src/ntb-idt-sisci-app/ntb-idt-sisci-app.c.
mod Answers
pub mod Connected
use qemu_ntb_switch.Prelude.{
  ℕ, ◌+◌, ◌-◌, ◌*◌, ◌/◌, ◌%◌, ◌^◌, ◌<◌, ◌≤◌, ◌≡◌, refl, ap, min, Bool, Bool-cases, inl, inr, true,
  false, Option, some, none, List, ◌∷◌, ◌&&◌, ◌||◌, not, nonzero, ltb, ◌==◌, u64, if◌then◌else◌,
  arith,
}
use qemu_ntb_switch.Driver.{
  Ntb, Driver, D, Mapping, maps_nothing, maps_buffer, maps_physical, page_size, page_align, is_some,
}
use qemu_ntb_switch.Sisci.{
  SisciDev, SisciRequest, Reply, sisci_ioctl, sisci_mmap, sisci_request, connect_segment,
  finish_connect, copied_out, reads_argument,
}
use qemu_ntb_switch.Sisci
use qemu_ntb_switch.Sisci.Announcement.{IsReady}
use qemu_ntb_switch.Tools.Process.{
  Os, Process, P, Answer, fails, gives, SciRequest, create, prepare, make_available,
  make_unavailable, remove, connect, barrier, ask, calloc, map_file, page_size_of,
}
use qemu_ntb_switch.Tools.Sci.{
  SciDesc, RemoteSegment, SciMap, sci_connect_segment, sci_connect_answered, sci_connected,
  sci_map_remote_segment, sci_map_segment, sci_map_answered, sci_mapped, whole_size, sci_errno,
}

-- The driver reads only these fields of the structures.
abbrev driver_request : SciRequest → SisciRequest
driver_request (create id size) = Sisci.create id size
driver_request (prepare id adapter size) = Sisci.prepare id
driver_request (make_available id adapter size) = Sisci.available id
driver_request (make_unavailable id adapter size) = Sisci.unavailable id
driver_request (remove id size) = Sisci.remove id
driver_request (connect node id adapter timeout) = Sisci.connect id
driver_request (barrier flags) = Sisci.store_barrier

abbrev answer_of : Reply → Answer
answer_of (Sisci.code ret) = if nonzero ret then fails ret else gives 0
answer_of (Sisci.info i) = gives 0
answer_of (Sisci.size_of n) = gives n

-- What the driver refuses is not mapped; the rest is placed by the kernel.
abbrev place : {K : Type 0} → Mapping → (K → Answer × K) → K → Answer × K
place (maps_nothing e) put k = (fails e, k)
place (maps_buffer b n) put k = put k
place (maps_physical p n) put k = put k

-- `os` with its SISCI device behind the driver, which gets the length of a mapping from the kernel in
-- whole pages (`vm_end - vm_start`). `wait` is the wait of a connection.
unfoldable pub attached :
    {K H : Type 0} → Os K → Ntb H → ℕ → D SisciDev H ℕ → Os (K × Driver SisciDev H)
attached os ntb buffer_size wait = record {
  open_device = λ path m. let r = os.open_device path m.0 in (r.0, (r.1, m.1));
  close_fd = λ fd m. let r = os.close_fd fd m.0 in (r.0, (r.1, m.1));
  calloc = λ m. let r = os.calloc m.0 in (r.0, (r.1, m.1));
  sci_ioctl = λ fd request m.
      let r = sisci_ioctl ntb buffer_size false wait false false (driver_request request) m.1 in
      (answer_of r.0, (m.0, r.1));
  get_info = λ fd m. let r = os.get_info fd m.0 in (r.0, (r.1, m.1));
  mmap = λ fd offset size m.
      let r =
        place (sisci_mmap (offset / page_size) (page_align size) m.1.app) (os.mmap fd offset size)
          m.0 in
      (r.0, (r.1, m.1));
  munmap = λ base size m. let r = os.munmap base size m.0 in (r.0, (r.1, m.1));
  poll = λ fd events ms m. let r = os.poll fd events ms m.0 in (r.0, (r.1, m.1));
  modprobe = λ name m. (os.modprobe name m.0, m.1);
  page_bytes = page_size;
}
