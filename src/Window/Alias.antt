-- ===== src/Window/Alias.antt =====
-- idt_init_peer_ram_region to idt_bar_refresh_peer_ram_aliases.
use qemu_ntb_switch.Prelude.{
  ℕ, ◌+◌, ◌-◌, ◌*◌, ◌^◌, Bool, true, false, not, ◌&&◌, ◌||◌, none, some, ltb, leb, ◌==◌, nonzero,
  if◌then◌else◌, min, bit_and, update,
}
use qemu_ntb_switch.Shm.{BarConfig}
use qemu_ntb_switch.Registers.{
  idt_bar_aperture_size, idt_fld_barsetup_enable, idt_fld_barsetup_mode,
}
use qemu_ntb_switch.Device.{
  M, pure, when, call, error_report, close, init_alias, set_alias, add_subregion, del_subregion,
  get_dev, put_dev, get_bar_config, ◌>>=◌, ◌>>◌,
}
use qemu_ntb_switch.Window.Environment.{Host}

-- The descriptor that a failure gives back is the one that was opened.
unfoldable pub fail_peer_ram : M Bool
fail_peer_ram = do call error_report; call (close 0); pure false

-- `true` where the region is there, from an earlier call or from this one.
unfoldable pub idt_init_peer_ram_region : Host → M Bool
unfolding fail_peer_ram
idt_init_peer_ram_region h = do
  s ← get_dev
  if s.peer_ram_initialized
      then pure true
      else if not h.opens
      then pure false
      else (elim h.file_size [
        | none ↦ fail_peer_ram
        | some size ↦ if size == 0 || not h.inits_ram then fail_peer_ram else (do
          put_dev (record s { peer_ram_size = size; peer_ram_initialized = true })
          pure true)
      ])

unfoldable pub idt_bar_remove_peer_ram_alias : ℕ → M (Unit {0})
idt_bar_remove_peer_ram_alias idx = do
  s ← get_dev
  when (s.peer_ram_alias_mapped idx) (do
    call (del_subregion idx)
    put_dev (record s { peer_ram_alias_mapped = update s.peer_ram_alias_mapped idx false }))

-- Where the window begins in the other machine's memory: `((uint64_t)utbase << 32) + ltbase`.
unfoldable pub peer_offset : BarConfig → ℕ
peer_offset c = c.utbase * 2 ^ 32 + c.ltbase

unfoldable pub is_window : BarConfig → ℕ → Bool
is_window c bar_base =
    nonzero (bit_and c.setup (2 ^ idt_fld_barsetup_enable))
    && not (nonzero (bit_and c.setup (2 ^ idt_fld_barsetup_mode)))
    && ltb bar_base c.limit

unfoldable pub window_size : BarConfig → ℕ → ℕ
window_size c bar_base = min idt_bar_aperture_size (c.limit - bar_base)

-- `peer_offset >= size || window_size > size - peer_offset`, negated.
unfoldable pub fits_peer_ram : ℕ → ℕ → ℕ → Bool
fits_peer_ram offset window size = ltb offset size && leb window (size - offset)

-- The alias is created or moved, taken out of the BAR if it is in it, and put in.
unfoldable pub set_peer_ram_alias : ℕ → ℕ → ℕ → M (Unit {0})
set_peer_ram_alias idx offset window = do
  s ← get_dev
  if s.peer_ram_alias_initialized idx then call (set_alias idx offset window) else (do
    call (init_alias idx offset window)
    put_dev
        (record s { peer_ram_alias_initialized = update s.peer_ram_alias_initialized idx true }))
  when (s.peer_ram_alias_mapped idx) (call (del_subregion idx))
  call (add_subregion idx)
  s' ← get_dev
  put_dev (record s' { peer_ram_alias_mapped = update s'.peer_ram_alias_mapped idx true })

-- The rest of the update, when it is known whether the other machine's memory is there.
unfoldable pub place_alias : ℕ → ℕ → ℕ → Bool → M (Unit {0})
unfolding fits_peer_ram set_peer_ram_alias idt_bar_remove_peer_ram_alias
place_alias idx offset window there = do
  s ← get_dev
  if there && fits_peer_ram offset window s.peer_ram_size
      then set_peer_ram_alias idx offset window
      else idt_bar_remove_peer_ram_alias idx

unfoldable pub update_window_alias : Host → ℕ → M (Unit {0})
update_window_alias h idx = do
  s ← get_dev
  c ← get_bar_config idx
  if not (is_window c (s.bars_addr idx)) || window_size c (s.bars_addr idx) == 0
      then idt_bar_remove_peer_ram_alias idx
      else (do
        there ← idt_init_peer_ram_region h
        place_alias idx (peer_offset c) (window_size c (s.bars_addr idx)) there)

-- Only the BARs 2 to 4 are windows.
unfoldable pub idt_bar_update_peer_ram_alias : Host → ℕ → M (Unit {0})
idt_bar_update_peer_ram_alias h idx =
    if ltb idx 2 || ltb 4 idx then pure tt else update_window_alias h idx

unfoldable pub idt_bar_refresh_peer_ram_aliases : Host → M (Unit {0})
unfolding idt_bar_update_peer_ram_alias
idt_bar_refresh_peer_ram_aliases h = do
  idt_bar_update_peer_ram_alias h 2
  idt_bar_update_peer_ram_alias h 3
  idt_bar_update_peer_ram_alias h 4
