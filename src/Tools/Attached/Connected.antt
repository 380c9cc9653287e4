-- ===== src/Tools/Attached/Connected.antt =====
-- A program that connects to a segment which the driver has ready gets the whole window.
use qemu_ntb_switch.Prelude.{
  ℕ, ◌+◌, ◌*◌, ◌%◌, ◌^◌, ◌<◌, ◌≤◌, ◌≡◌, refl, sym, ap, ◌∙◌, min, false, some, none, arith,
}
use mathlib.Core.Path.{subst}
use qemu_ntb_switch.Driver.{Ntb, Driver, D, maps_physical, page_size, page_align}
use qemu_ntb_switch.Sisci.{SisciDev, sisci_mmap}
use qemu_ntb_switch.Sisci.Announcement.{IsReady}
use qemu_ntb_switch.Tools.Process.{Os, Process, gives, connect, page_size_of}
use qemu_ntb_switch.Tools.Sci.{SciDesc, SciMap, sci_connect_segment, sci_map_remote_segment}
use qemu_ntb_switch.Tools.Attached.{attached, answer_of}
use qemu_ntb_switch.Tools.Attached.Answers.{
  driver_connects, driver_maps, map_answered, connection_asked, remote_whole,
}

-- Memory and room for mappings never run out.
abbrev pub Roomy : {K : Type 0} → Os K → Type 0
Roomy {K} os =
    ((k : K) → (a : ℕ) × ((os.calloc k).0 ≡ gives a))
    × ((fd offset size : ℕ) (k : K) → (base : ℕ) × ((os.mmap fd offset size k).0 ≡ gives base))

page_align_grows : (n : ℕ) → n + page_size < 2 ^ 64 → n ≤ page_align n
unfolding page_align
page_align_grows n h = omega arith

-- `os` is the rest of the machine.
module _ {K H : Type 0} (os : Os K) (ntb : Ntb H) (buffer_size : ℕ) (wait : D SisciDev H ℕ)
    (roomy : Roomy os) where
  allocates :
      (m : K × Driver SisciDev H)
      → (a : ℕ) × (((attached os ntb buffer_size wait).calloc m).0 ≡ gives a)
  unfolding attached
  allocates m = roomy.0 m.0

  driver_answers :
      {id bytes dma phys window io : ℕ} (m : K × Driver SisciDev H) (fd node adapter timeout : ℕ)
      → IsReady id bytes dma phys window io m.1.app
      → m.1.app.removed ≡ false
      → wait m.1 ≡ (0, m.1)
      → (attached os ntb buffer_size wait).sci_ioctl fd (connect node id adapter timeout) m
        ≡ (gives (min bytes window), m)
  unfolding attached
  driver_answers m fd node adapter timeout ready there at_once =
      ap (λ r. (answer_of r.0, (m.0, r.1)))
        (driver_connects ntb buffer_size wait m.1 ready there at_once)

  driver_placed :
      {id bytes dma phys window io : ℕ} (m : K × Driver SisciDev H) (fd : ℕ)
      → IsReady id bytes dma phys window io m.1.app
      → m.1.app.removed ≡ false
      → phys % page_size ≡ 0
      → min bytes window + page_size < 2 ^ 64
      → let a = attached os ntb buffer_size wait in
        (base : ℕ) × ((a.mmap fd (1 * page_size_of a) (0 + min bytes window) m).0 ≡ gives base)
  unfolding attached page_size_of
  driver_placed {bytes = bytes} {window = window} m fd ready there aligned fits =
      let n = min bytes window in
      let z : 0 + n ≡ n = omega arith in
      let (base, g) = roomy.1 fd (1 * page_size) n m.0 in
      (base, rw z (rw (driver_maps ntb buffer_size wait m.1 ready there aligned fits) g))

  -- A program connects through the SISCI library to a segment that the driver behind it has
  -- ready and then maps it whole. The driver is not removed, its wait ends at once, allocations
  -- and the placing of mappings succeed, the window starts at a page, and the lesser of the
  -- segment's size and the window's is positive and not within a page of 2^64. Then the
  -- connection and the mapping succeed, the mapping has that lesser size, and what the driver
  -- maps, asked for that size in whole pages as the kernel asks it, is the window from its
  -- physical start for just these pages, which are no less than the size.
  pub connects-maps :
      {id bytes dma phys window io : ℕ} (w : Process (K × Driver SisciDev H)) (d : SciDesc)
      (node adapter timeout : ℕ)
      → IsReady id bytes dma phys window io w.machine.1.app
      → w.machine.1.app.removed ≡ false
      → wait w.machine.1 ≡ (0, w.machine.1)
      → phys % page_size ≡ 0
      → min bytes window + page_size < 2 ^ 64
      → 0 < min bytes window
      → let attached_os = attached os ntb buffer_size wait in
        let r = sci_connect_segment attached_os (some d) none node id adapter timeout w in
        let t = sci_map_remote_segment attached_os r.0.1 none 0 0 r.1 in
        (r.0.0 ≡ 0)
        × ((m : SciMap) × (t.0 ≡ (0, some m))
            × (m.size ≡ min bytes window)
            × (m.map_size ≡ min bytes window))
        × (let size = page_align (min bytes window) in
            (min bytes window ≤ size)
            × (sisci_mmap 1 size r.1.machine.1.app ≡ maps_physical phys size))
  connects-maps {id = id} {bytes = bytes} {dma = dma} {phys = phys} {window = window} {io = io} w d
        node adapter timeout ready there at_once aligned fits pos =
      let attached_os = attached os ntb buffer_size wait in
      let n = min bytes window in
      let r = sci_connect_segment attached_os (some d) none node id adapter timeout w in
      let (s, e, sd, size, after) =
        connection_asked attached_os d node id adapter timeout n w w.machine
          (driver_answers w.machine d.fd node adapter timeout ready there at_once) allocates in
      let same : r.1.machine.1 ≡ w.machine.1 = unfold attached in (ap (λ m. m.1) after) in
      let ready' = subst (λ x. IsReady id bytes dma phys window io x.app) (sym same) ready in
      let there' = ap (λ x. x.app.removed) same ∙ there in
      let (base, g) = driver_placed r.1.machine d.fd ready' there' aligned fits in
      let t = map_answered attached_os d n base _ r.1 refl g allocates pos in
      let whole =
        remote_whole attached_os d n r.0.1 s r.1 (ap (λ x. x.1) e) sd size (omega arith) in
      (
        ap (λ x. x.0) e,
        (t.0, ap (λ x. x.0) whole ∙ t.1, t.2, t.3),
        (
          page_align_grows n fits,
          driver_maps ntb buffer_size wait r.1.machine.1 ready' there' aligned fits,
        ),
      )
