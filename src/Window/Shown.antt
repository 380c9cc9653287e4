-- ===== src/Window/Shown.antt =====
-- Where an alias is to lie, in terms of what QEMU is told.
use qemu_ntb_switch.Prelude.{
  ℕ, ◌+◌, ◌≤◌, ◌<◌, ◌≡◌, arith, some, Option, none, Bool, true, false, not, ◌&&◌, ◌||◌, List, [],
  ◌∷◌, ◌==◌, if◌then◌else◌,
}
use qemu_ntb_switch.Shm.{Slot, half, BarConfig}
use qemu_ntb_switch.Registers.{idt_bar_aperture_size}
use qemu_ntb_switch.Device.{
  World, IvshmemState, Call, init_alias, set_alias, add_subregion, del_subregion,
}
use qemu_ntb_switch.Window.{Host, peer_offset, window_size, is_window, fits_peer_ram}

-- The alias's place and size in the other machine's memory, as QEMU was told last.
unfoldable pub alias_of : ℕ → List Call → Option (ℕ × ℕ)
alias_of idx [] = none
alias_of idx (init_alias i offset size ∷ cs) =
    if i == idx then some (offset, size) else alias_of idx cs
alias_of idx (set_alias i offset size ∷ cs) =
    if i == idx then some (offset, size) else alias_of idx cs
alias_of idx (_ ∷ cs) = alias_of idx cs

-- Whether the alias is in the BAR. QEMU aborts where a region is added twice, or removed while
-- it is not there.
pub data Attachment : Type 0 where
  detached attached broken : Attachment

unfoldable pub attach : Attachment → Attachment
attach detached = attached
attach _ = broken

unfoldable pub detach : Attachment → Attachment
detach attached = detached
detach _ = broken

unfoldable pub attachment : ℕ → List Call → Attachment
attachment idx [] = detached
attachment idx (add_subregion i ∷ cs) =
    if i == idx then attach (attachment idx cs) else attachment idx cs
attachment idx (del_subregion i ∷ cs) =
    if i == idx then detach (attachment idx cs) else attachment idx cs
attachment idx (_ ∷ cs) = attachment idx cs

-- The device's flag agrees with what QEMU was told.
abbrev pub Agrees : ℕ → World → Type 0
Agrees idx w =
    attachment idx w.calls ≡ (if w.dev.peer_ram_alias_mapped idx then attached else detached)

-- Whether the other machine's memory is there when the alias is updated, and its size.
unfoldable pub file_is_there : Host → Bool
file_is_there h =
    h.opens && (elim h.file_size [ none ↦ false | some n ↦ not (n == 0) && h.inits_ram ])

unfoldable pub ram_is_there : Host → IvshmemState → Bool
unfolding file_is_there
ram_is_there h s = s.peer_ram_initialized || file_is_there h

unfoldable pub ram_size : Host → IvshmemState → ℕ
ram_size h s =
    if s.peer_ram_initialized
    then s.peer_ram_size
    else (elim h.file_size [ none ↦ s.peer_ram_size | some n ↦ n ])

-- Whether a BAR with this configuration shows the other machine's memory.
unfoldable pub shows : Host → IvshmemState → BarConfig → ℕ → Bool
unfolding ram_is_there ram_size
shows h s c bar_base =
    is_window c bar_base
    && (ram_is_there h s && fits_peer_ram (peer_offset c) (window_size c bar_base) (ram_size h s))

-- After the update of the BAR `idx` its alias is where its configuration puts it, or not in the
-- BAR, and the alias of any other BAR `j` is as it was.
abbrev pub Placed : Bool → ℕ → ℕ → ℕ → ℕ → World → World → Type 0
Placed shown idx offset window j w w' =
    (w'.dev.peer_ram_alias_mapped j ≡ (if j == idx then shown else w.dev.peer_ram_alias_mapped j))
    × (attachment j w'.calls
        ≡ (if j == idx then (if shown then attached else detached) else attachment j w.calls))
    × (alias_of j w'.calls
        ≡ (if j == idx && shown then some (offset, window) else alias_of j w.calls))

abbrev pub config_of : Slot → ℕ → World → BarConfig
config_of p idx w = (half p w.shm).bar_config idx

-- A window that an alias shows lies inside the other machine's memory, is not empty, is no
-- longer than the BAR and ends at the BAR's limit at the latest.
pub shows-bounds :
    (h : Host) (s : IvshmemState) (c : BarConfig) (bar_base : ℕ)
    → shows h s c bar_base ≡ true
    → (peer_offset c + window_size c bar_base ≤ ram_size h s)
      × (0 < window_size c bar_base)
      × (window_size c bar_base ≤ idt_bar_aperture_size)
      × (bar_base + window_size c bar_base ≤ c.limit)
unfolding shows ram_is_there fits_peer_ram is_window window_size
shows-bounds h s c bar_base e = ground arith
