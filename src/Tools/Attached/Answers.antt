-- ===== src/Tools/Attached/Answers.antt =====
-- A connection to a segment that the SISCI driver has ready, and the library over a device that
-- answers.
use qemu_ntb_switch.Prelude.{
  ℕ, ◌+◌, ◌-◌, ◌*◌, ◌%◌, ◌^◌, ◌<◌, ◌≡◌, refl, ap, ◌∙◌, min, true, false, Option, some, none, ◌∷◌,
  ◌||◌, ltb, ◌==◌, arith,
}
use qemu_ntb_switch.Driver.{Ntb, Driver, D, maps_physical, page_size, page_align, is_some}
use qemu_ntb_switch.Sisci.{
  SisciDev, SisciRequest, Reply, sisci_ioctl, sisci_mmap, sisci_request, connect_segment,
  finish_connect, copied_out, reads_argument,
}
use qemu_ntb_switch.Sisci
use qemu_ntb_switch.Sisci.Announcement.{IsReady}
use qemu_ntb_switch.Tools.Process.{
  Os, Process, Answer, gives, mapped, connect, calloc, map_file, page_size_of,
}
use qemu_ntb_switch.Tools.Sci.{
  SciDesc, RemoteSegment, SciMap, sci_connect_segment, sci_connect_answered, sci_connected,
  sci_map_remote_segment, sci_map_segment, sci_map_answered, sci_mapped, whole_size,
}

module _ {H : Type 0} (ntb : Ntb H) (buffer_size : ℕ) (wait : D SisciDev H ℕ)
    {id bytes dma phys window io : ℕ} (w : Driver SisciDev H)
    (ready : IsReady id bytes dma phys window io w.app) (there : w.app.removed ≡ false) where
  -- The wait of a condition that holds ends at once.
  pub driver_connects :
      wait w ≡ (0, w)
      → sisci_ioctl ntb buffer_size false wait false false (Sisci.connect id) w
        ≡ (Sisci.size_of (min bytes window), w)
  unfolding sisci_ioctl sisci_request connect_segment finish_connect copied_out reads_argument
  driver_connects at_once =
      let r = ready.ready in
      let s : (w.app.remote_segment_id == id) ≡ true = let e = ready.segment in ground arith in
      rw at_once (simp (there, r, s) (ap (λ n. (Sisci.size_of n, w)) ready.usable))

  -- The window is mapped from its start.
  pub driver_maps :
      phys % page_size ≡ 0
      → min bytes window + page_size < 2 ^ 64
      → let size = page_align (min bytes window) in
        sisci_mmap 1 size w.app ≡ maps_physical phys size
  unfolding sisci_mmap page_align is_some
  driver_maps aligned fits =
      let r = ready.ready in
      let p = ready.physical in
      let u = ready.usable in
      let m : is_some w.app.peer_io ≡ true = rw (ready.mapped) refl in
      let a : (w.app.peer_phys % page_size == 0) ≡ true = rw p (rw aligned refl) in
      let size = page_align (min bytes window) in
      let fitting : ltb (page_align w.app.peer_usable_size) size ≡ false = rw u (ground arith) in
      simp (there, r, m, a, fitting) (ap (λ x. maps_physical x size) p)

-- The library over any device that answers.
module _ {M : Type 0} (os : Os M) (d : SciDesc) where
  pub connection_answered :
      (node id n a : ℕ) (w : Process M)
      → (os.calloc w.machine).0 ≡ gives a
      → let r = sci_connect_answered os d node id (gives n) w in
        let s : RemoteSegment = record {
          segment_at = a;
          sd = some d;
          remote_node_id = node;
          segment_id = id;
          size = n;
        } in
        (r.0 ≡ (0, some s)) × (r.1.machine ≡ (os.calloc w.machine).1)
  unfolding sci_connect_answered sci_connected calloc
  connection_answered node id n a w e = rw e (refl, refl)

  pub mapping_answered :
      (n base a : ℕ) (w : Process M)
      → (os.calloc w.machine).0 ≡ gives a
      → let r = sci_map_answered os d 1 0 n (gives base) w in
        (m : SciMap) × (r.0 ≡ (0, some m)) × (m.size ≡ n) × (m.map_size ≡ n) × (m.addr ≡ base)
  unfolding sci_map_answered sci_mapped calloc
  mapping_answered n base a w e = rw e (
    record {
      map_at = a;
      sd = some d;
      base = base;
      addr = base + 0;
      map_size = 0 + n;
      size = n;
      region = 1;
    },
    refl,
    refl,
    omega arith,
    omega arith,
  )

  pub map_answered :
      (n base : ℕ) (r : Answer × M) (w : Process M)
      → os.mmap d.fd (1 * page_size_of os) (0 + n) w.machine ≡ r
      → r.0 ≡ gives base
      → ((k : M) → (a : ℕ) × ((os.calloc k).0 ≡ gives a))
      → 0 < n
      → let t = sci_map_segment os (some d) 1 none 0 n n w in
        (m : SciMap) × (t.0 ≡ (0, some m)) × (m.size ≡ n) × (m.map_size ≡ n) × (m.addr ≡ base)
  unfolding sci_map_segment map_file
  map_answered n base r w e g room pos =
      let refused : (n == 0 || (ltb n 0 || ltb (n - 0) n)) ≡ false = ground arith in
      let p = os.mmap d.fd (1 * page_size_of os) (0 + n) w.machine in
      let q : p.0 ≡ gives base = ap (λ x. x.0) e ∙ g in
      let (a, c) = room p.1 in
      let v = record w { machine = p.1; live = mapped base (0 + n) ∷ w.live } in
      rw refused (rw q (mapping_answered n base a v c))

  pub connection_asked :
      (node id adapter timeout n : ℕ) (w : Process M) (m : M)
      → os.sci_ioctl d.fd (connect node id adapter timeout) w.machine ≡ (gives n, m)
      → ((k : M) → (a : ℕ) × ((os.calloc k).0 ≡ gives a))
      → let r = sci_connect_segment os (some d) none node id adapter timeout w in
        (s : RemoteSegment) × (r.0 ≡ (0, some s))
        × (s.sd ≡ some d)
        × (s.size ≡ n)
        × (r.1.machine ≡ (os.calloc m).1)
  unfolding sci_connect_segment
  connection_asked node id adapter timeout n w m e room =
      let (a, c) = room m in
      let k = connection_answered node id n a (record w { machine = m }) c in
      (
        record { segment_at = a; sd = some d; remote_node_id = node; segment_id = id; size = n },
        rw e (k.0),
        refl,
        refl,
        rw e (k.1),
      )

pub whole_size-rest : (n : ℕ) → n < 2 ^ 64 → whole_size n 0 0 ≡ n
unfolding whole_size
whole_size-rest n h = omega arith

pub remote_whole :
    {M : Type 0} (os : Os M) (d : SciDesc) (n : ℕ) (s : Option RemoteSegment) (r : RemoteSegment)
    (w : Process M)
    → s ≡ some r
    → r.sd ≡ some d
    → r.size ≡ n
    → n < 2 ^ 64
    → sci_map_remote_segment os s none 0 0 w ≡ sci_map_segment os (some d) 1 none 0 n n w
unfolding sci_map_remote_segment
remote_whole os d n s r w e sd size small = rw (e, sd, size, whole_size-rest n small) refl
