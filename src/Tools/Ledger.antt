-- ===== src/Tools/Ledger.antt =====
-- How taking and giving back changes what a process holds.
use qemu_ntb_switch.Prelude.{ℕ, ◌≡◌, refl, ap, Bool, true, false, List, ◌∷◌, arith}
use qemu_ntb_switch.Tools.Process.{
  Os, Process, Answer, fails, gives, Resource, descriptor, mapped, memory, same, without, give,
  take_given, calloc, map_file, open_file, ask,
}
use qemu_ntb_switch.Tools.Numbers.{Text}
use qemu_ntb_switch.Tools.Backend.{Holds}

same_self : (r : Resource) → same r r ≡ true
same_self (descriptor a) = ground arith
same_self (mapped a n) = ground arith
same_self (memory a) = ground arith

-- What is held once a call has answered.
abbrev pub with_given : (ℕ → Resource) → Answer → List Resource → List Resource
with_given r (fails e) l = l
with_given r (gives n) l = r n ∷ l

module _ {H : Type 0} (l : List Resource) (bad : Bool) where
  pub give_last : (r : Resource) (w : Process H) → Holds (r ∷ l) bad w → Holds l bad (give r w).1
  unfolding give without
  give_last r w h = rw (h.live) (rw (same_self r) (record { live = refl; misused = h.misused }))

  -- The one before the last.
  pub give_before :
      (r s : Resource) (w : Process H)
      → same r s ≡ false
      → Holds (s ∷ r ∷ l) bad w
      → Holds (s ∷ l) bad (give r w).1
  unfolding give without
  give_before r s w e h =
      rw (h.live) (rw e (rw (same_self r) (record { live = refl; misused = h.misused })))

  take_given-Holds :
      (r : ℕ → Resource) (a : Answer) (w : Process H)
      → Holds l bad w
      → Holds (with_given r a l) bad (take_given r a w).1
  take_given-Holds r (fails e) w h = h
  take_given-Holds r (gives n) w h = record { live = ap (λ x. r n ∷ x) h.live; misused = h.misused }

  pub calloc-Holds :
      (os : Os H) (w : Process H)
      → Holds l bad w
      → Holds (with_given memory (calloc os w).0 l) bad (calloc os w).1
  unfolding calloc
  calloc-Holds os w h = let a = ask os.calloc w in take_given-Holds memory a.0 a.1 (ground arith)

  pub open_file-Holds :
      (os : Os H) (path : Text) (w : Process H)
      → Holds l bad w
      → Holds (with_given descriptor (open_file os path w).0 l) bad (open_file os path w).1
  unfolding open_file
  open_file-Holds os path w h =
      let a = ask (os.open_device path) w in take_given-Holds descriptor a.0 a.1 (ground arith)

  pub map_file-Holds :
      (os : Os H) (fd offset size : ℕ) (w : Process H)
      → Holds l bad w
      → let r = map_file os fd offset size w in
        Holds (with_given (λ base. mapped base size) r.0 l) bad r.1
  unfolding map_file
  map_file-Holds os fd offset size w h =
      let a = ask (os.mmap fd offset size) w in
      take_given-Holds (λ base. mapped base size) a.0 a.1 (ground arith)
