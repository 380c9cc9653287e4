-- ===== src/Window/Placement.antt =====
-- Where an alias lies after an update, and that QEMU is asked to map and unmap it in turn.
use qemu_ntb_switch.Prelude.{
  ℕ, ◌≤◌, ◌≡◌, arith, some, Bool, true, false, ◌&&◌, ◌||◌, ◌==◌, ltb, if◌then◌else◌, Bool-cases,
  inl, inr,
}
use qemu_ntb_switch.Shm.{Slot, BarConfig}
use qemu_ntb_switch.Device.{World, Ensures, Ensures->>=, Ensures-weaken, ◌>>=◌}
use qemu_ntb_switch.Window.{
  Host, idt_bar_update_peer_ram_alias, update_window_alias, set_peer_ram_alias,
  idt_init_peer_ram_region, idt_bar_remove_peer_ram_alias, peer_offset, place_alias, window_size,
  is_window, fits_peer_ram,
}
use qemu_ntb_switch.Window.Shown.{
  alias_of, attach, detach, attachment, Agrees, ram_is_there, ram_size, shows, Placed, config_of,
}

-- What asking for the other machine's memory leaves alone, and what it finds out.
record Region (h : Host) (w : World) (there : Bool) (w' : World) : Type 0 where
  found : there ≡ ram_is_there h w.dev
  size : (if there then w'.dev.peer_ram_size else 0) ≡ (if there then ram_size h w.dev else 0)
  mapped : w'.dev.peer_ram_alias_mapped ≡ w.dev.peer_ram_alias_mapped
  attachment_kept : (j : ℕ) → attachment j w'.calls ≡ attachment j w.calls
  alias_kept : (j : ℕ) → alias_of j w'.calls ≡ alias_of j w.calls

idt_init_peer_ram_region-Region :
    (h : Host) (w : World) → Ensures (idt_init_peer_ram_region h w) (Region h w)
unfolding idt_init_peer_ram_region ram_is_there ram_size attachment alias_of
idt_init_peer_ram_region-Region h w = ground arith

remove-Placed :
    (idx offset window j : ℕ) (w : World)
    → Agrees idx w
    → Ensures (idt_bar_remove_peer_ram_alias idx w) (λ _ w'. Placed false idx offset window j w w')
unfolding idt_bar_remove_peer_ram_alias attachment alias_of detach
remove-Placed idx offset window j w a = ground arith

set-Placed :
    (idx offset window j : ℕ) (w : World)
    → Agrees idx w
    → Ensures
        (set_peer_ram_alias idx offset window w)
        (λ _ w'. Placed true idx offset window j w w')
unfolding set_peer_ram_alias attachment alias_of attach detach
set-Placed idx offset window j w a = elim (Bool-cases (w.dev.peer_ram_alias_initialized idx)) [
  | inl old ↦ elim (Bool-cases (w.dev.peer_ram_alias_mapped idx)) [
    | inl there ↦ rw (old, there) (ground arith)
    | inr away ↦ rw (old, away) (ground arith)
  ]
  | inr new ↦ elim (Bool-cases (w.dev.peer_ram_alias_mapped idx)) [
    | inl there ↦ rw (new, there) (ground arith)
    | inr away ↦ rw (new, away) (ground arith)
  ]
]

place-Placed :
    (idx offset window j : ℕ) (there : Bool) (w : World)
    → Agrees idx w
    → Ensures (place_alias idx offset window there w) (λ _ w'.
      Placed (there && fits_peer_ram offset window w.dev.peer_ram_size) idx offset window j w w')
unfolding place_alias
place-Placed idx offset window j there w a =
    elim (Bool-cases (there && fits_peer_ram offset window w.dev.peer_ram_size)) [
      | inl fit ↦ rw fit (set-Placed idx offset window j w a)
      | inr out ↦ rw out (remove-Placed idx offset window j w a)
    ]

window_range : (idx : ℕ) → 2 ≤ idx → idx ≤ 4 → (ltb idx 2 || ltb 4 idx) ≡ false
window_range idx lo hi = ground arith

bar_range : (idx : ℕ) → idx ≤ 4 → ltb idx 6 ≡ true
bar_range idx hi = ground arith

window_nonzero :
    (c : BarConfig) (bar_base : ℕ)
    → is_window c bar_base ≡ true
    → (window_size c bar_base == 0) ≡ false
unfolding is_window window_size
window_nonzero c bar_base e = ground arith

update_closed :
    (h : Host) (idx : ℕ) (w : World) (p : Slot)
    → w.dev.slot ≡ some p
    → 2 ≤ idx
    → idx ≤ 4
    → is_window (config_of p idx w) (w.dev.bars_addr idx) ≡ false
    → idt_bar_update_peer_ram_alias h idx w ≡ idt_bar_remove_peer_ram_alias idx w
unfolding idt_bar_update_peer_ram_alias update_window_alias
update_closed h idx w p e lo hi c = rw (window_range idx lo hi, e, bar_range idx hi, c)

update_open :
    (h : Host) (idx : ℕ) (w : World) (p : Slot)
    → w.dev.slot ≡ some p
    → 2 ≤ idx
    → idx ≤ 4
    → is_window (config_of p idx w) (w.dev.bars_addr idx) ≡ true
    → idt_bar_update_peer_ram_alias h idx w
      ≡ (idt_init_peer_ram_region h
            >>= place_alias idx
                (peer_offset (config_of p idx w))
                (window_size (config_of p idx w) (w.dev.bars_addr idx)))
          w
unfolding idt_bar_update_peer_ram_alias update_window_alias
update_open h idx w p e lo hi c =
    rw (window_range idx lo hi, e, bar_range idx hi, c, window_nonzero _ _ c)

-- What is placed after the region was asked for is placed with respect to the world before.
Placed-Region :
    (h : Host) (idx offset window j : ℕ) (w w1 w' : World) (there : Bool)
    → Region h w there w1
    → Placed (there && fits_peer_ram offset window w1.dev.peer_ram_size) idx offset window j w1 w'
    → Placed
        (ram_is_there h w.dev && fits_peer_ram offset window (ram_size h w.dev))
        idx
        offset
        window
        j
        w
        w'
Placed-Region h idx offset window j w w1 w' false r q =
    rw (← r.found) (rw (r.attachment_kept j, r.alias_kept j, r.mapped) at q)
Placed-Region h idx offset window j w w1 w' true r q =
    let e : w1.dev.peer_ram_size ≡ ram_size h w.dev = r.size in
    rw (← r.found) (rw (r.attachment_kept j, r.alias_kept j, r.mapped, e) at q)

-- For a BAR 2 to 4 of a connected device whose mapped flag agrees with what QEMU was told, the
-- update ends without a fault: the BAR's alias is mapped exactly where its registers, its guest
-- address and the other machine's memory allow it, at that offset and size, it is mapped and
-- unmapped in turn, and no other BAR's alias changes.
pub idt_bar_update_peer_ram_alias-Placed :
    (h : Host) (idx j : ℕ) (w : World) (p : Slot)
    → w.dev.slot ≡ some p
    → 2 ≤ idx
    → idx ≤ 4
    → Agrees idx w
    → Ensures (idt_bar_update_peer_ram_alias h idx w) (λ _ w'.
      Placed
        (shows h w.dev (config_of p idx w) (w.dev.bars_addr idx))
        idx
        (peer_offset (config_of p idx w))
        (window_size (config_of p idx w) (w.dev.bars_addr idx))
        j
        w
        w')
unfolding shows
idt_bar_update_peer_ram_alias-Placed h idx j w p e lo hi a =
    let c = config_of p idx w in
    let base = w.dev.bars_addr idx in
    elim (Bool-cases (is_window c base)) [
      | inl window ↦
          rw (update_open h idx w p e lo hi window, window)
            (Ensures->>= (idt_init_peer_ram_region h)
              (place_alias idx (peer_offset c) (window_size c base)) w (Region h w) _
              (idt_init_peer_ram_region-Region h w)
              (λ there w1 r.
                Ensures-weaken (place_alias idx (peer_offset c) (window_size c base) there w1)
                  (λ _ w'.
                    Placed
                      (there
                        && fits_peer_ram (peer_offset c) (window_size c base) w1.dev.peer_ram_size)
                      idx (peer_offset c) (window_size c base) j w1 w')
                  _
                  (place-Placed idx (peer_offset c) (window_size c base) j there w1
                    (rw (r.attachment_kept idx, r.mapped) a))
                  (λ _ w'.
                    Placed-Region h idx (peer_offset c) (window_size c base) j w w1 w' there r)))
      | inr no_window ↦
          rw (update_closed h idx w p e lo hi no_window, no_window)
            (remove-Placed idx (peer_offset c) (window_size c base) j w a)
    ]
