-- ===== src/Tools/Backend.antt =====
-- user_src/ntb_profiling.h: the interface between the profiling tool and its backends.
use qemu_ntb_switch.Prelude.{ℕ, Bool, true, false, Option, none, List, ◌≡◌}
use qemu_ntb_switch.Tools.Options.{Options}
use qemu_ntb_switch.Tools.Process.{Process, P, Resource}

-- `ntb_profile_endpoint` with a context of the type `C`; a null address is 0.
pub record Endpoint (C : Type 0) : Type 0 where
  pub ctx : Option C
  pub addr : ℕ
  pub size : ℕ

-- The endpoint that `memset` leaves.
abbrev pub no_endpoint : {C : Type 0} → Endpoint C
no_endpoint = record { ctx = none; addr = 0; size = 0 }

-- `ntb_profile_backend` without its names. An operation says whether it succeeded.
pub record Backend (H C : Type 0) : Type 0 where
  pub open_local : Options → P H (Bool × Endpoint C)
  pub publish_local : Endpoint C → P H (Bool × Endpoint C)
  pub open_remote : Options → P H (Bool × Endpoint C)
  pub store_barrier : Endpoint C → P H Bool
  pub close : Endpoint C → P H (Endpoint C)

-- What a process holds, and whether it has given back what it did not hold.
pub record Holds {H : Type 0} (l : List Resource) (bad : Bool) (w : Process H) : Type 0 where
  pub live : w.live ≡ l
  pub misused : w.misused ≡ bad

-- What an opening has left: all that the endpoint holds, or nothing more than before.
abbrev pub Opened :
    {H C : Type 0}
    → (Endpoint C → List Resource → List Resource)
    → List Resource
    → Bool
    → (Bool × Endpoint C) × Process H
    → Type 0
Opened held l bad ((true, e), w) = Holds (held e l) bad w
Opened held l bad ((false, e), w) = Holds l bad w

-- The laws on which the tool relies: `held e l` is what is held where the endpoint `e` is open and
-- `l` was held before.
pub record IsClean {H C : Type 0} (b : Backend H C) : Type 0 where
  pub held : Endpoint C → List Resource → List Resource
  pub local :
      (o : Options) (l : List Resource) (bad : Bool) (w : Process H)
      → Holds l bad w
      → Opened held l bad (b.open_local o w)
  pub remote :
      (o : Options) (l : List Resource) (bad : Bool) (w : Process H)
      → Holds l bad w
      → Opened held l bad (b.open_remote o w)
  -- The endpoint may change its mind on being published.
  pub publish :
      (e : Endpoint C) (l : List Resource) (bad : Bool) (w : Process H)
      → Holds (held e l) bad w
      → Holds (held (b.publish_local e w).0.1 l) bad (b.publish_local e w).1
  pub barrier :
      (e : Endpoint C) (l : List Resource) (bad : Bool) (w : Process H)
      → Holds l bad w
      → Holds l bad (b.store_barrier e w).1
  pub close :
      (e : Endpoint C) (l : List Resource) (bad : Bool) (w : Process H)
      → Holds (held e l) bad w
      → Holds l bad (b.close e w).1
