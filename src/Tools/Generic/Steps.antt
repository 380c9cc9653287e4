-- ===== src/Tools/Generic/Steps.antt =====
-- user_src/ntb_generic.c: what an open endpoint holds, and what each call of the backend takes and
-- gives back.
use qemu_ntb_switch.Prelude.{
  ℕ, zero, suc, ◌*◌, refl, Bool, Bool-cases, true, false, inl, inr, Option, some, none, List, ◌∷◌,
  ◌==◌, if◌then◌else◌, arith,
}
use qemu_ntb_switch.Frames.{AppInfo}
use qemu_ntb_switch.Tools.Options.{Options}
use qemu_ntb_switch.Tools.Process.{
  Os, Process, P, Answer, fails, gives, InfoAnswer, info_fails, info_gives, PollAnswer, poll_fails,
  poll_times_out, poll_gives, Resource, descriptor, mapped, memory, ask, give, close, unmap,
  open_file,
}
use qemu_ntb_switch.Tools.Backend.{Endpoint, Holds}
use qemu_ntb_switch.Tools.Ledger.{give_last, give_before, open_file-Holds, with_given}
use qemu_ntb_switch.Tools.Generic.{
  GenericEndpoint, eintr, open_retry, open_generic_device, info_answered, get_driver_info,
  poll_answered, wait_fd, close_generic,
}

-- What an open endpoint holds, and that its mapping is not at address 0.
abbrev pub with_region : GenericEndpoint → List Resource → List Resource
with_region c l = mapped c.base c.map_size ∷ memory c.ctx_at ∷ l

abbrev pub with_generic : Option GenericEndpoint → List Resource → List Resource
with_generic none l = l
with_generic (some c) l =
    (if c.base == 0
      then memory c.ctx_at ∷ descriptor c.fd ∷ l
      else with_region c (descriptor c.fd ∷ l))

abbrev pub generic_held : Endpoint GenericEndpoint → List Resource → List Resource
generic_held e l = with_generic e.ctx l

-- What the mapping of a region has left, with the descriptor `fd` open.
abbrev pub RegionOpened :
    {H : Type 0} → ℕ → List Resource → Bool → (Bool × Endpoint GenericEndpoint) × Process H → Type 0
RegionOpened fd l bad ((true, e), w) = Holds (generic_held e l) bad w
RegionOpened fd l bad ((false, e), w) = Holds (descriptor fd ∷ l) bad w

module _ {H : Type 0} (os : Os H) (l : List Resource) (bad : Bool) where
  pub unmapped :
      (c : GenericEndpoint) (w : Process H)
      → Holds (with_region c (descriptor c.fd ∷ l)) bad w
      → Holds (memory c.ctx_at ∷ descriptor c.fd ∷ l) bad (unmap os c.base c.map_size w).1
  unfolding unmap
  unmapped c w h =
      give_last (memory c.ctx_at ∷ descriptor c.fd ∷ l) bad (mapped c.base c.map_size)
        (ask (os.munmap c.base c.map_size) w).1 (ground arith)

  pub open_retry-Holds :
      (opt : Options) (a : Answer) (w : Process H)
      → Holds (with_given descriptor a l) bad w
      → Holds (with_given descriptor (open_retry os opt a w).0 l) bad (open_retry os opt a w).1
  unfolding open_retry
  open_retry-Holds opt (gives fd) w h = h
  open_retry-Holds opt (fails e) w h = elim (Bool-cases opt.no_modprobe) [
    | inl f ↦ simp f (open_file-Holds l bad os opt.device_path w h)
    | inr f ↦ simp f (open_file-Holds l bad os opt.device_path _ (ground arith))
  ]

  pub open_generic_device-Holds :
      (opt : Options) (w : Process H)
      → Holds l bad w
      → Holds
          (with_given descriptor (open_generic_device os opt w).0 l)
          bad
          (open_generic_device os opt w).1
  unfolding open_generic_device
  open_generic_device-Holds opt w h =
      let r = open_file os opt.device_path w in
      open_retry-Holds opt r.0 r.1 (open_file-Holds l bad os opt.device_path w h)

  pub info_answered-Holds :
      (a : InfoAnswer) (again : P H (Option AppInfo)) (w : Process H)
      → Holds l bad w
      → ((v : Process H) → Holds l bad v → Holds l bad (again v).1)
      → Holds l bad (info_answered a again w).1
  unfolding info_answered
  info_answered-Holds (info_fails e) again w h k = elim (Bool-cases (e == eintr)) [
    | inl f ↦ rw f (k w h)
    | inr f ↦ rw f h
  ]
  info_answered-Holds (info_gives i) again w h k = h

  pub get_driver_info-Holds :
      (n fd : ℕ) (w : Process H) → Holds l bad w → Holds l bad (get_driver_info os n fd w).1
  unfolding get_driver_info
  get_driver_info-Holds zero fd w h = h
  get_driver_info-Holds (suc n) fd w h =
      let r = ask (os.get_info fd) w in
      info_answered-Holds r.0 (get_driver_info os n fd) r.1 (ground arith)
        (get_driver_info-Holds n fd)

  pub poll_answered-Holds :
      (events : ℕ) (a : PollAnswer) (again : P H Bool) (w : Process H)
      → Holds l bad w
      → ((v : Process H) → Holds l bad v → Holds l bad (again v).1)
      → Holds l bad (poll_answered events a again w).1
  unfolding poll_answered
  poll_answered-Holds events (poll_fails e) again w h k = elim (Bool-cases (e == eintr)) [
    | inl f ↦ rw f (k w h)
    | inr f ↦ rw f h
  ]
  poll_answered-Holds events poll_times_out again w h k = h
  poll_answered-Holds events (poll_gives revents) again w h k = h

  pub wait_fd-Holds :
      (n fd events timeout_sec : ℕ) (w : Process H)
      → Holds l bad w
      → Holds l bad (wait_fd os n fd events timeout_sec w).1
  unfolding wait_fd
  wait_fd-Holds zero fd events timeout_sec w h = h
  wait_fd-Holds (suc n) fd events timeout_sec w h =
      let r = ask (os.poll fd events (timeout_sec * 1000)) w in
      poll_answered-Holds events r.0 (wait_fd os n fd events timeout_sec) r.1 (ground arith)
        (wait_fd-Holds n fd events timeout_sec)

  pub closed :
      (a fd : ℕ) (w : Process H)
      → Holds (memory a ∷ descriptor fd ∷ l) bad w
      → Holds l bad (give (memory a) (close os fd w).1).1
  unfolding close
  closed a fd w h =
      give_last l bad (memory a) _ (
        give_before l bad (descriptor fd) (memory a) (ask (os.close_fd fd) w).1 refl (ground arith))

  pub close_generic-Holds :
      (c : Option GenericEndpoint) (w : Process H)
      → Holds (with_generic c l) bad w
      → Holds l bad (close_generic os c w).1
  unfolding close_generic
  close_generic-Holds none w h = h
  close_generic-Holds (some c) w h = elim (Bool-cases (c.base == 0)) [
    | inl e ↦ rw e (closed c.ctx_at c.fd w (rw e at h))
    | inr e ↦ rw e (closed c.ctx_at c.fd _ (unmapped c w (rw e at h)))
  ]
