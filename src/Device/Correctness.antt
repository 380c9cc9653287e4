-- ===== src/Device/Correctness.antt =====
-- Total correctness of an operation: it ends without a fault, and its result and world satisfy
-- a postcondition.
use qemu_ntb_switch.Prelude.{◌≡◌, refl}
use qemu_ntb_switch.Device.State.{World}
use qemu_ntb_switch.Device.Monad.{Fault, M, Result, ok, fault, ◌>>=◌}

abbrev pub Ensures : {A : Type 0} → Result A → (A → World → Type 0) → Type 0
Ensures (ok a w) P = P a w
Ensures (fault e) P = ⊥

pub Ensures->>= :
    {A B : Type 0} (m : M A) (f : A → M B) (w : World) (P : A → World → Type 0)
    (Q : B → World → Type 0)
    → Ensures (m w) P
    → ((a : A) (w' : World) → P a w' → Ensures (f a w') Q)
    → Ensures ((m >>= f) w) Q
Ensures->>= m f w P Q h k = go (m w) h
  where
    go : (r : Result _) → Ensures r P → Ensures (elim r [ ok a w' ↦ f a w' | fault e ↦ fault e ]) Q
    go (ok a w') h' = k a w' h'
    go (fault e) h' = absurd h'

pub Ensures-weaken :
    {A : Type 0} (r : Result A) (P Q : A → World → Type 0)
    → Ensures r P
    → ((a : A) (w : World) → P a w → Q a w)
    → Ensures r Q
Ensures-weaken (ok a w) P Q h k = k a w h
Ensures-weaken (fault e) P Q h k = h

-- A sequence whose first part ends well goes on from there.
pub >>=-ok :
    {A B : Type 0} (m : M A) (f : A → M B) (w w' : World) (a : A)
    → m w ≡ ok a w'
    → (m >>= f) w ≡ f a w'
>>=-ok m f w w' a e = rw (e, ◌>>=◌)

-- A sequence whose first part faults ends there.
pub >>=-fault :
    {A B : Type 0} (m : M A) (f : A → M B) (w : World) (e : Fault)
    → m w ≡ fault e
    → (m >>= f) w ≡ fault e
>>=-fault m f w e h = rw (h, ◌>>=◌) refl
