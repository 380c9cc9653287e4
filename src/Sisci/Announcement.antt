-- ===== src/Sisci/Announcement.antt =====
-- ntb-idt-sisci-app.c: the four commands of an announced segment make the other side ready for it.
use qemu_ntb_switch.Prelude.{
  ℕ, min, ◌<◌, ◌^◌, ◌≡◌, ◌≢◌, refl, List, [], ◌∷◌, true, false, some, none, Option, arith, not,
  ◌||◌, ◌==◌, u32,
}
use native.Mathlib.Nat.{mod-eq_of_lt}
use qemu_ntb_switch.Driver.{Ntb, Driver, D, pure, ask, note_map, ◌>>◌, is_some}
use qemu_ntb_switch.Sisci.State.{
  SisciDev, unmap_peer, mark_peer_unready_locked, sisci_cmd_segid, sisci_cmd_size, sisci_cmd_xlat,
  sisci_cmd_avail,
}
use qemu_ntb_switch.Sisci.Service.{sisci_command, setup_peer_mw_locked, use_mapping}

-- The window can be set up: its address and size are known, and it can be mapped at `io`.
pub record Cooperates {H : Type 0} (ntb : Ntb H) (phys size io : ℕ) : Type 0 where
  pub address : (h : H) → (ntb.ntb_peer_mw_get_addr h).0 ≡ (0, phys, size)
  pub translation : (x n : ℕ) (h : H) → (ntb.ntb_peer_mw_set_trans x n h).0 ≡ 0
  pub mapping : (p n : ℕ) (h : H) → (ntb.ioremap_wc p n h).0 ≡ some io

-- Commands that are taken one after the other.
unfoldable pub takes_commands : {H : Type 0} → Ntb H → List (ℕ × ℕ) → D SisciDev H (Unit {0})
takes_commands ntb [] = pure tt
takes_commands ntb ((cmd, value) ∷ cs) = do sisci_command ntb cmd value; takes_commands ntb cs

-- What publish_available_locked sends for a segment.
abbrev pub announcement : ℕ → ℕ → ℕ → List (ℕ × ℕ)
announcement id size dma =
    (sisci_cmd_segid, id)
    ∷ (sisci_cmd_size, size)
    ∷ (sisci_cmd_xlat, dma)
    ∷ (sisci_cmd_avail, id)
    ∷ []

-- The driver has the segment mapped.
pub record IsReady (id bytes dma phys window io : ℕ) (app : SisciDev) : Type 0 where
  pub ready : app.peer_ready ≡ true
  pub announced : app.remote_announced ≡ true
  pub segment : app.remote_segment_id ≡ id
  pub xlat : app.remote_xlat ≡ dma
  pub remote : app.remote_size ≡ bytes
  pub usable : app.peer_usable_size ≡ min bytes window
  pub map_size : app.peer_map_size ≡ window
  pub physical : app.peer_phys ≡ phys
  pub mapped : app.peer_io ≡ some io

module _ {H : Type 0} (ntb : Ntb H) (phys window io : ℕ) (c : Cooperates ntb phys window io)
    (id n dma : ℕ) (small : id < 2 ^ 32) (some_bytes : n ≢ 0) (address : dma ≢ 0) where
  mapped_window :
      (r : Option ℕ) (w : Driver SisciDev H)
      → r ≡ some io
      → w.app.remote_announced ≡ true
      → w.app.remote_xlat ≡ dma
      → w.app.remote_size ≡ n
      → w.app.remote_segment_id ≡ id
      → IsReady id n dma phys window io (use_mapping ntb phys window r (note_map r w).1).1.app
  unfolding use_mapping
  mapped_window none w m a x z s = absurd (cc)
  mapped_window (some p) w m a x z s = ground arith

  due :
      (a : SisciDev)
      → a.peer_io ≡ none
      → a.remote_announced ≡ true
      → a.remote_xlat ≡ dma
      → a.remote_size ≡ n
      → (is_some a.peer_io
          || (not a.remote_announced || (a.remote_xlat == 0 || a.remote_size == 0)))
        ≡ false
  unfolding is_some
  due a e r x z = simp e (ground arith)

  sets_up :
      (w : Driver SisciDev H)
      → w.app.peer_io ≡ none
      → w.app.remote_announced ≡ true
      → w.app.remote_xlat ≡ dma
      → w.app.remote_size ≡ n
      → w.app.remote_segment_id ≡ id
      → IsReady id n dma phys window io (setup_peer_mw_locked ntb w).1.app
  unfolding setup_peer_mw_locked
  sets_up w e a x z s =
      let g = ask ntb.ntb_peer_mw_get_addr w in
      let t = ask (ntb.ntb_peer_mw_set_trans w.app.remote_xlat w.app.remote_size) g.1 in
      let go = due w.app e a x z in
      let ret = c.address w.hw in
      let ok = c.translation w.app.remote_xlat w.app.remote_size g.1.hw in
      rw (go, ret, ok)
        (let m = ask (ntb.ioremap_wc phys window) t.1 in
          mapped_window m.0 m.1 (c.mapping phys window t.1.hw) a x z s)

  unmapped :
      (p : Option ℕ) (w : Driver SisciDev H)
      → w.app.peer_io ≡ p
      → (unmap_peer ntb p w).1.app.peer_io ≡ none
  unfolding unmap_peer
  unmapped none w e = e
  unmapped (some q) w e = refl

  -- The commands after the first, on a driver that has no mapping.
  rest_taken :
      (w : Driver SisciDev H)
      → w.app.peer_io ≡ none
      → w.app.remote_segment_id ≡ u32 id
      → IsReady id n dma phys window io
          (takes_commands ntb
            ((sisci_cmd_size, n) ∷ (sisci_cmd_xlat, dma) ∷ (sisci_cmd_avail, id) ∷ [])
            w).1.app
  unfolding takes_commands sisci_command
  rest_taken w e s = sets_up _ e refl refl refl (mod-eq_of_lt small)

  -- When the kernel's functions for the window succeed, the four commands that announce a
  -- segment with a non-zero size and address, taken in order, leave the driver of the other
  -- side ready, from any state: with this segment's number, address and size, the window
  -- mapped, and as usable size the lesser of the segment's and the window's.
  pub takes_commands-IsReady :
      (w : Driver SisciDev H)
      → IsReady id n dma phys window io (takes_commands ntb (announcement id n dma) w).1.app
  unfolding takes_commands sisci_command mark_peer_unready_locked
  takes_commands-IsReady w =
      rest_taken (sisci_command ntb sisci_cmd_segid id w).1 (unmapped w.app.peer_io w refl) refl
