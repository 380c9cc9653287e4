-- ===== src/Sisci/Release.antt =====
-- ntb-idt-sisci-app.c: the removal gives back what was taken, and a mapping stays in the window.
use qemu_ntb_switch.Prelude.{
  ℕ, ◌+◌, ◌%◌, ◌^◌, ◌<◌, ◌≤◌, ◌≡◌, refl, List, Bool-cases, true, false, inl, inr, some, none,
  Option, arith, not, ◌||◌, ◌==◌, ltb,
}
use qemu_ntb_switch.Driver.{
  Ntb, ResourceCall, Driver, is_some, Mapping, maps_nothing, maps_buffer, maps_physical, page_align,
  page_size,
}
use qemu_ntb_switch.Driver.Ledger.{holding}
use qemu_ntb_switch.Sisci.State.{
  SisciDev, unmap_peer, free_buffer, mark_peer_unready_locked, free_local_segment_locked,
  sisci_set_removed,
}
use qemu_ntb_switch.Sisci.Requests.{sisci_mmap, map_local}
use qemu_ntb_switch.Sisci.Probe.{sisci_remove}
use qemu_ntb_switch.Sisci.Sane.{
  IsSane, held_buffer, sisci_set_removed-IsSane, mark_peer_unready_locked-IsSane,
  free_local_segment_locked-IsSane,
}
use qemu_ntb_switch.Sisci.Histories.{
  SisciEvent, sisci_history, probed, continued-IsSane, sisci_history-IsSane,
}

module _ {H : Type 0} (ntb : Ntb H) where
  unmapped :
      (io : Option ℕ) (w : Driver SisciDev H)
      → w.app.peer_io ≡ io
      → (unmap_peer ntb io w).1.app.peer_io ≡ none
  unfolding unmap_peer
  unmapped none w e = e
  unmapped (some p) w e = refl

  emptied :
      (b : Option ℕ) (n : ℕ) (w : Driver SisciDev H)
      → w.app.local_buf ≡ b
      → w.app.peer_io ≡ none
      → ((free_buffer ntb n b w).1.app.local_buf ≡ none)
        × ((free_buffer ntb n b w).1.app.peer_io ≡ none)
  unfolding free_buffer
  emptied none n w e f = (e, f)
  emptied (some x) n w e f = (refl, f)

  released :
      (w : Driver SisciDev H)
      → let u = (free_local_segment_locked ntb (mark_peer_unready_locked ntb w).1).1 in
        (u.app.local_buf ≡ none) × (u.app.peer_io ≡ none)
  unfolding free_local_segment_locked mark_peer_unready_locked
  released w =
      let u = (mark_peer_unready_locked ntb w).1 in
      emptied u.app.local_buf u.app.local_size u refl (unmapped w.app.peer_io w refl)

  nothing_held :
      (a : SisciDev) (c : List ResourceCall)
      → IsSane a c
      → a.local_buf ≡ none
      → a.peer_io ≡ none
      → holding c ≡ some (record { buffer = none; mapping = none })
  nothing_held a c g e f =
      let l = g.ledger in
      let h : held_buffer a.local_buf a.local_size ≡ none = rw e refl in ground arith

  -- After any history of a freshly probed SISCI driver, its removal, with any work and requests
  -- that still run while it is under way and any flags that a running handler writes after
  -- those of the removal, leaves no buffer allocated and no window mapped, and nothing was
  -- freed or unmapped twice.
  pub sisci_remove-releases :
      (buffer_size : ℕ) (es late : List (SisciEvent H)) (peer : ℕ) (h : H)
      → let w = (sisci_history ntb buffer_size es (probed ntb buffer_size peer h)).1 in
        let r = (sisci_remove ntb (sisci_history ntb buffer_size late) w).1 in
        holding r.calls ≡ some (record { buffer = none; mapping = none })
  unfolding sisci_remove
  sisci_remove-releases buffer_size es late peer h =
      let w = (sisci_history ntb buffer_size es (probed ntb buffer_size peer h)).1 in
      let g0 = sisci_history-IsSane ntb buffer_size es peer h in
      let g1 = sisci_set_removed-IsSane w g0 in
      let g2 = continued-IsSane ntb buffer_size late (sisci_set_removed w).1 g1 in
      let l = (sisci_history ntb buffer_size late (sisci_set_removed w).1).1 in
      let g3 = mark_peer_unready_locked-IsSane ntb l g2 in
      let m = (mark_peer_unready_locked ntb l).1 in
      let g4 = free_local_segment_locked-IsSane ntb m g3 in
      let r = released l in nothing_held _ _ g4 r.0 r.1

-- A mapping of the other machine's segment is within the pages of the window, one of the driver's
-- own segment within the pages of its buffer.
abbrev pub Within : SisciDev → ℕ → Mapping → Type 0
Within app asked (maps_nothing e) = Unit {0}
Within app asked (maps_buffer b n) =
    (app.local_buf ≡ some b) × (n ≡ app.local_size) × (asked ≤ page_align app.local_size)
Within app asked (maps_physical p n) =
    (p ≡ app.peer_phys)
    × (n ≡ asked)
    × (n ≤ page_align app.peer_map_size)
    × (app.remote_announced ≡ true)
    × (app.link_up ≡ true)

page_align_le : (a b : ℕ) → a ≤ b → b + 4096 < 2 ^ 64 → page_align a ≤ page_align b
unfolding page_align
page_align_le a b le lt = omega arith

local-Within :
    (size : ℕ) (app : SisciDev) (b : Option ℕ)
    → app.local_buf ≡ b
    → Within app size (map_local size app b)
local-Within size app none e = tt
local-Within size app (some b) e = elim (Bool-cases (ltb (page_align app.local_size) size)) [
  | inl f ↦ rw f tt
  | inr f ↦ rw f (e, refl, ground arith)
]

window_asked :
    (size : ℕ) (app : SisciDev) (calls : List ResourceCall)
    → IsSane app calls
    → app.peer_map_size + 4096 < 2 ^ 64
    → app.removed ≡ false
    → app.peer_ready ≡ true
    → size ≤ page_align app.peer_usable_size
    → Within app size (maps_physical app.peer_phys size)
window_asked size app calls g lt stays ready le =
    let s = g.ready_size ready in
    let p = page_align_le app.peer_usable_size app.peer_map_size s lt in
    (refl, refl, omega arith, g.ready_announced stays ready, g.ready_link ready)

sane-Within :
    (region size : ℕ) (app : SisciDev) (calls : List ResourceCall)
    → IsSane app calls
    → app.peer_map_size + 4096 < 2 ^ 64
    → Within app size (sisci_mmap region size app)
unfolding sisci_mmap
sane-Within region size app calls g lt = elim (Bool-cases app.removed) [
  | inl e ↦ simp e tt
  | inr e ↦ simp e (elim (Bool-cases (region == 0)) [
    | inl f ↦ rw f (local-Within size app app.local_buf refl)
    | inr f ↦ rw f (elim (Bool-cases (region == 1)) [
      | inr h ↦ rw h tt
      | inl h ↦
          rw h
            (elim (Bool-cases (
              not app.peer_ready
              || (not (is_some app.peer_io)
                  || (not (app.peer_phys % page_size == 0)
                      || ltb (page_align app.peer_usable_size) size)))) [
                        | inl i ↦ rw i tt
                        | inr i ↦
                            rw i (window_asked size app calls g lt e (ground arith) (ground arith))
                      ])
    ])
  ])
]

-- After any history of a freshly probed SISCI driver whose mapped window does not reach the end
-- of the 64-bit range, a call of mmap maps nothing, or the driver's own buffer for at most the
-- buffer's pages, or, with the segment announced and the link up, the window from its start for
-- at most the window's pages.
pub sisci_mmap-Within :
    {H : Type 0} (ntb : Ntb H) (buffer_size : ℕ) (es : List (SisciEvent H)) (peer : ℕ) (h : H)
    (region size : ℕ)
    → (sisci_history ntb buffer_size es (probed ntb buffer_size peer h)).1.app.peer_map_size + 4096
      < 2 ^ 64
    → let app = (sisci_history ntb buffer_size es (probed ntb buffer_size peer h)).1.app in
      Within app size (sisci_mmap region size app)
sisci_mmap-Within ntb buffer_size es peer h region size lt =
    sane-Within region size _ _ (sisci_history-IsSane ntb buffer_size es peer h) lt
