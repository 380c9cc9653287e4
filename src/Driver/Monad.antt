-- ===== src/Driver/Monad.antt =====
-- Kernel functions as functions of the driver's state. None of them can fault.
use qemu_ntb_switch.Prelude.{ℕ, Bool, Option, some, none, ◌∷◌, if◌then◌else◌}
use qemu_ntb_switch.Driver.Kernel.{Ntb, ResourceCall, allocates, frees, maps, unmaps, Driver}

abbrev pub D : Type 0 → Type 0 → Type 0 → Type 0
D S H A = Driver S H → A × Driver S H

abbrev pub pure : {S H A : Type 0} → A → D S H A
pure a w = (a, w)

infixl 5 ◌>>=◌ ◌>>◌
abbrev pub ◌>>=◌ : {S H A B : Type 0} → D S H A → (A → D S H B) → D S H B
◌>>=◌ m f w = f (m w).0 (m w).1

abbrev pub ◌>>◌ : {S H B : Type 0} → D S H (Unit {0}) → D S H B → D S H B
◌>>◌ m k w = k (m w).1

abbrev pub when : {S H : Type 0} → Bool → D S H (Unit {0}) → D S H (Unit {0})
when b m = if b then m else pure tt

abbrev pub get_app : {S H : Type 0} → D S H S
get_app w = (w.app, w)

abbrev pub put_app : {S H : Type 0} → S → D S H (Unit {0})
put_app s w = (tt, record w { app = s })

-- A call that reads or changes the hardware.
abbrev pub ask : {S H A : Type 0} → (H → A × H) → D S H A
ask f w = ((f w.hw).0, record w { hw = (f w.hw).1 })

abbrev pub tell : {S H : Type 0} → (H → H) → D S H (Unit {0})
tell f w = (tt, record w { hw = f w.hw })

abbrev pub note : {S H : Type 0} → ResourceCall → D S H (Unit {0})
note c w = (tt, record w { calls = c ∷ w.calls })

-- Successful allocations and mappings are noted.
abbrev pub note_alloc : {S H : Type 0} → ℕ → Option (ℕ × ℕ) → D S H (Unit {0})
note_alloc size none = pure tt
note_alloc size (some (buf, dma)) = note (allocates buf size)

abbrev pub note_map : {S H : Type 0} → Option ℕ → D S H (Unit {0})
note_map none = pure tt
note_map (some p) = note (maps p)

abbrev pub alloc : {S H : Type 0} → Ntb H → ℕ → D S H (Option (ℕ × ℕ))
alloc ntb size = do r ← ask (ntb.dma_alloc_coherent size); note_alloc size r; pure r

abbrev pub free : {S H : Type 0} → Ntb H → ℕ → ℕ → D S H (Unit {0})
free ntb size buf = do tell (ntb.dma_free_coherent size buf); note (frees buf size)

abbrev pub map_io : {S H : Type 0} → Ntb H → ℕ → ℕ → D S H (Option ℕ)
map_io ntb phys size = do r ← ask (ntb.ioremap_wc phys size); note_map r; pure r

abbrev pub unmap_io : {S H : Type 0} → Ntb H → ℕ → D S H (Unit {0})
unmap_io ntb p = do tell (ntb.iounmap p); note (unmaps p)
