-- ===== src/Driver/Ledger.antt =====
-- What the calls of a driver leave it with: one buffer at most and one mapping at most.
use qemu_ntb_switch.Prelude.{ℕ, List, [], ◌∷◌, Option, some, none, ◌==◌, ◌&&◌, if◌then◌else◌}
use qemu_ntb_switch.Driver.Kernel.{ResourceCall, allocates, frees, maps, unmaps}

-- The buffer with its size, and the mapping.
pub record Held : Type 0 where
  pub buffer : Option (ℕ × ℕ)
  pub mapping : Option ℕ

-- A buffer that is taken while another is held is lost; giving back what is not held, or another
-- size of it, is an error. Both come to `none`.
abbrev give_buffer : Option (ℕ × ℕ) → ℕ → ℕ → Held → Option Held
give_buffer none b n h = none
give_buffer (some (b', n')) b n h =
    if b == b' && n == n' then some (record h { buffer = none }) else none

abbrev take_buffer : Option (ℕ × ℕ) → ℕ → ℕ → Held → Option Held
take_buffer none b n h = some (record h { buffer = some (b, n) })
take_buffer (some x) b n h = none

abbrev give_mapping : Option ℕ → ℕ → Held → Option Held
give_mapping none p h = none
give_mapping (some q) p h = if p == q then some (record h { mapping = none }) else none

abbrev take_mapping : Option ℕ → ℕ → Held → Option Held
take_mapping none p h = some (record h { mapping = some p })
take_mapping (some x) p h = none

abbrev pub settle : ResourceCall → Held → Option Held
settle (allocates b n) h = take_buffer h.buffer b n h
settle (frees b n) h = give_buffer h.buffer b n h
settle (maps p) h = take_mapping h.mapping p h
settle (unmaps p) h = give_mapping h.mapping p h

abbrev settle_next : ResourceCall → Option Held → Option Held
settle_next c none = none
settle_next c (some h) = settle c h

-- The calls, the latest first.
abbrev pub holding : List ResourceCall → Option Held
holding [] = some (record { buffer = none; mapping = none })
holding (c ∷ cs) = settle_next c (holding cs)
