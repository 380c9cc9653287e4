-- ===== src/Tools/Generic/Clean.antt =====
-- user_src/ntb_generic.c: an endpoint of the generic backend gives back what its opening has taken,
-- and an opening that fails leaves nothing behind.
use qemu_ntb_switch.Prelude.{
  ℕ, ◌*◌, ◌<◌, ◌≡◌, refl, Bool, Bool-cases, true, false, inl, inr, Option, some, none, List, ◌∷◌,
  ◌||◌, leb, ◌==◌, arith,
}
use qemu_ntb_switch.Frames.{AppInfo}
use qemu_ntb_switch.Tools.Options.{Options}
use qemu_ntb_switch.Tools.Process.{
  Os, Process, Answer, fails, gives, Resource, descriptor, mapped, memory, ask, calloc, close,
  map_file, page_size_of,
}
use qemu_ntb_switch.Tools.Backend.{Endpoint, no_endpoint, Holds, Opened, IsClean}
use qemu_ntb_switch.Tools.Ledger.{give_last, calloc-Holds, map_file-Holds, with_given}
use qemu_ntb_switch.Tools.Generic.{
  GenericEndpoint, open_generic_device, get_driver_info, wait_fd, pollout, region_mapped,
  region_allocated, map_generic_region, keep_or_close, local_informed, local_with_fd,
  generic_open_local, remote_informed, remote_with_fd, generic_open_remote, generic_close,
  generic_backend,
}
use qemu_ntb_switch.Tools.Generic.Steps.{
  generic_held, RegionOpened, open_generic_device-Holds, get_driver_info-Holds, wait_fd-Holds,
  close_generic-Holds,
}

-- Linux maps nothing at address 0.
abbrev pub NeverMapsNull : {H : Type 0} → Os H → Type 0
NeverMapsNull {H} os =
    (fd offset size base : ℕ) (h : H) → (os.mmap fd offset size h).0 ≡ gives base → 0 < base

module _ {H : Type 0} (os : Os H) (nonnull : NeverMapsNull os) (l : List Resource)
    (bad : Bool) where
  region_mapped-Opened :
      (a fd map_size payload : ℕ) (i : AppInfo) (r : Answer) (w : Process H)
      → ((base : ℕ) → r ≡ gives base → 0 < base)
      → Holds (with_given (λ base. mapped base map_size) r (memory a ∷ descriptor fd ∷ l)) bad w
      → RegionOpened fd l bad (region_mapped a fd map_size i payload r w)
  unfolding region_mapped
  region_mapped-Opened a fd map_size payload i (fails e) w k h =
      give_last (descriptor fd ∷ l) bad (memory a) w h
  region_mapped-Opened a fd map_size payload i (gives base) w k h =
      let p = k base refl in let e : (base == 0) ≡ false = ground arith in rw e h

  region_allocated-Opened :
      (fd region map_size payload : ℕ) (i : AppInfo) (a : Answer) (w : Process H)
      → Holds (with_given memory a (descriptor fd ∷ l)) bad w
      → RegionOpened fd l bad (region_allocated os fd region map_size i payload a w)
  unfolding region_allocated
  region_allocated-Opened fd region map_size payload i (fails e) w h = h
  region_allocated-Opened fd region map_size payload i (gives a) w h =
      let offset = region * page_size_of os in
      let r = map_file os fd offset map_size w in
      region_mapped-Opened a fd map_size payload i r.0 r.1
        (unfold map_file in (λ base e. nonnull fd offset map_size base w.machine e))
        (map_file-Holds (memory a ∷ descriptor fd ∷ l) bad os fd offset map_size w h)

  map_generic_region-Opened :
      (fd region map_size payload : ℕ) (i : AppInfo) (w : Process H)
      → Holds (descriptor fd ∷ l) bad w
      → RegionOpened fd l bad (map_generic_region os fd region map_size payload i w)
  unfolding map_generic_region
  map_generic_region-Opened fd region map_size payload i w h =
      let a = calloc os w in
      elim (Bool-cases (map_size == 0 || (payload == 0 || leb map_size i.header_size))) [
        | inl e ↦ rw e h
        | inr e ↦ rw e (
            region_allocated-Opened fd region map_size payload i a.0 a.1
              (calloc-Holds (descriptor fd ∷ l) bad os w h))
      ]

  kept_or_closed :
      (fd : ℕ) (r : (Bool × Endpoint GenericEndpoint) × Process H)
      → RegionOpened fd l bad r
      → Opened generic_held l bad (keep_or_close os fd r.0 r.1)
  unfolding keep_or_close close
  kept_or_closed fd ((true, e), w) h = h
  kept_or_closed fd ((false, e), w) h =
      give_last l bad (descriptor fd) (ask (os.close_fd fd) w).1 (ground arith)

  local_informed-Opened :
      (fd : ℕ) (i : Option AppInfo) (w : Process H)
      → Holds (descriptor fd ∷ l) bad w
      → RegionOpened fd l bad (local_informed os fd i w)
  unfolding local_informed
  local_informed-Opened fd none w h = h
  local_informed-Opened fd (some i) w h =
      map_generic_region-Opened fd 0 i.rx_map_size i.rx_payload i w h

  remote_informed-Opened :
      (fd : ℕ) (i : Option AppInfo) (w : Process H)
      → Holds (descriptor fd ∷ l) bad w
      → RegionOpened fd l bad (remote_informed os fd i w)
  unfolding remote_informed
  remote_informed-Opened fd none w h = h
  remote_informed-Opened fd (some i) w h =
      map_generic_region-Opened fd 1 i.tx_map_size i.tx_payload i w h

  local_with_fd-Opened :
      (n : ℕ) (f : Answer) (w : Process H)
      → Holds (with_given descriptor f l) bad w
      → Opened generic_held l bad (local_with_fd os n f w)
  unfolding local_with_fd
  local_with_fd-Opened n (fails e) w h = h
  local_with_fd-Opened n (gives fd) w h =
      let i = get_driver_info os n fd w in
      kept_or_closed fd (local_informed os fd i.0 i.1) (
        local_informed-Opened fd i.0 i.1
          (get_driver_info-Holds os (descriptor fd ∷ l) bad n fd w h))

  remote_with_fd-Opened :
      (n : ℕ) (opt : Options) (f : Answer) (w : Process H)
      → Holds (with_given descriptor f l) bad w
      → Opened generic_held l bad (remote_with_fd os n opt f w)
  unfolding remote_with_fd
  remote_with_fd-Opened n opt (fails e) w h = h
  remote_with_fd-Opened n opt (gives fd) w h =
      let t = wait_fd os n fd pollout opt.timeout_sec w in
      let k = wait_fd-Holds os (descriptor fd ∷ l) bad n fd pollout opt.timeout_sec w h in
      let i = get_driver_info os n fd t.1 in
      elim (Bool-cases t.0) [
        | inr e ↦ rw e (kept_or_closed fd ((false, no_endpoint), t.1) k)
        | inl e ↦ rw e (
            kept_or_closed fd (remote_informed os fd i.0 i.1) (
              remote_informed-Opened fd i.0 i.1
                (get_driver_info-Holds os (descriptor fd ∷ l) bad n fd t.1 k)))
      ]

  open_local-Opened :
      (n : ℕ) (opt : Options) (w : Process H)
      → Holds l bad w
      → Opened generic_held l bad (generic_open_local os n opt w)
  unfolding generic_open_local
  open_local-Opened n opt w h =
      let f = open_generic_device os opt w in
      local_with_fd-Opened n f.0 f.1 (open_generic_device-Holds os l bad opt w h)

  open_remote-Opened :
      (n : ℕ) (opt : Options) (w : Process H)
      → Holds l bad w
      → Opened generic_held l bad (generic_open_remote os n opt w)
  unfolding generic_open_remote
  open_remote-Opened n opt w h =
      let f = open_generic_device os opt w in
      remote_with_fd-Opened n opt f.0 f.1 (open_generic_device-Holds os l bad opt w h)

pub generic_backend-IsClean :
    {H : Type 0} (os : Os H) (interrupts : ℕ)
    → NeverMapsNull os
    → IsClean (generic_backend os interrupts)
unfolding generic_backend generic_close
generic_backend-IsClean os interrupts nonnull = record {
  held = generic_held;
  local = λ o l bad w h. open_local-Opened os nonnull l bad interrupts o w h;
  remote = λ o l bad w h. open_remote-Opened os nonnull l bad interrupts o w h;
  publish = λ e l bad w h. h;
  barrier = λ e l bad w h. h;
  close = λ e l bad w h. close_generic-Holds os l bad e.ctx w h;
}
