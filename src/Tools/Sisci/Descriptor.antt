-- ===== src/Tools/Sisci/Descriptor.antt =====
-- user_src/ntb_profiling.c: open_sisci_desc, also after a second attempt, holds what its pointer says.
use qemu_ntb_switch.Prelude.{
  ℕ, ◌≡◌, refl, Bool, Bool-cases, true, false, inl, inr, Option, some, none, List, ◌∷◌, not,
  nonzero, arith,
}
use qemu_ntb_switch.Tools.Numbers.{Text, is_empty}
use qemu_ntb_switch.Tools.Options.{Options}
use qemu_ntb_switch.Tools.Process.{
  Os, Process, Answer, fails, gives, Resource, descriptor, memory, calloc, close, ask, open_file,
}
use qemu_ntb_switch.Tools.Sci.{SciDesc, sci_set_device_path, sci_open, sci_with_file, sci_opened}
use qemu_ntb_switch.Tools.Backend.{Holds}
use qemu_ntb_switch.Tools.Ledger.{give_last, calloc-Holds, open_file-Holds, with_given}
use qemu_ntb_switch.Tools.Sisci.{open_again, open_sisci_desc}
use qemu_ntb_switch.Tools.Sisci.Ending.{with_desc}

-- What an opened device leaves: the error is 0 where there is a descriptor.
abbrev DescOpened : {H : Type 0} → List Resource → Bool → (ℕ × Option SciDesc) × Process H → Type 0
DescOpened l bad ((e, none), w) = Holds l bad w
DescOpened l bad ((e, some d), w) = (e ≡ 0) × Holds (with_desc (some d) l) bad w

module _ {H : Type 0} (os : Os H) (l : List Resource) (bad : Bool) where
  sci_opened-Opened :
      (fd : ℕ) (a : Answer) (w : Process H)
      → Holds (with_given memory a (descriptor fd ∷ l)) bad w
      → DescOpened l bad (sci_opened os fd a w)
  unfolding sci_opened close
  sci_opened-Opened fd (fails e) w h =
      give_last l bad (descriptor fd) (ask (os.close_fd fd) w).1 (ground arith)
  sci_opened-Opened fd (gives a) w h = (refl, h)

  sci_with_file-Opened :
      (f : Answer) (w : Process H)
      → Holds (with_given descriptor f l) bad w
      → DescOpened l bad (sci_with_file os f w)
  unfolding sci_with_file
  sci_with_file-Opened (fails e) w h = h
  sci_with_file-Opened (gives fd) w h =
      let a = calloc os w in
      sci_opened-Opened fd a.0 a.1 (calloc-Holds (descriptor fd ∷ l) bad os w h)

  sci_open-Opened : (w : Process H) → Holds l bad w → DescOpened l bad (sci_open os w)
  unfolding sci_open
  sci_open-Opened w h =
      let f = open_file os w.device_path w in
      sci_with_file-Opened f.0 f.1 (open_file-Holds l bad os w.device_path w h)

  desc_held :
      (r : (ℕ × Option SciDesc) × Process H)
      → DescOpened l bad r
      → Holds (with_desc r.0.1 l) bad r.1
  desc_held ((e, none), w) h = h
  desc_held ((e, some d), w) h = h.1

  open_again-Holds :
      (no_modprobe : Bool) (w : Process H)
      → Holds l bad w
      → Holds (with_desc (open_again os no_modprobe w).0.1 l) bad (open_again os no_modprobe w).1
  unfolding open_again
  open_again-Holds true w h = desc_held _ (sci_open-Opened w h)
  open_again-Holds false w h = desc_held _ (sci_open-Opened _ (ground arith))

  retried :
      (r : (ℕ × Option SciDesc) × Process H) (no_modprobe : Bool)
      → DescOpened l bad r
      → nonzero r.0.0 ≡ true
      → Holds
          (with_desc (open_again os no_modprobe r.1).0.1 l)
          bad
          (open_again os no_modprobe r.1).1
  retried ((e, none), w) no_modprobe h n = open_again-Holds no_modprobe w h
  retried ((e, some d), w) no_modprobe h n = absurd (let z = h.0 in ground arith)

  path_set :
      (path : Text) (w : Process H) → Holds l bad w → Holds l bad (sci_set_device_path path w).1
  unfolding sci_set_device_path
  path_set path w h = elim (Bool-cases (is_empty path)) [
    | inl e ↦ rw e h
    | inr e ↦ rw e (ground arith)
  ]

  pub open_sisci_desc-Holds :
      (opt : Options) (w : Process H)
      → Holds l bad w
      → Holds (with_desc (open_sisci_desc os opt w).0.1 l) bad (open_sisci_desc os opt w).1
  unfolding open_sisci_desc
  open_sisci_desc-Holds opt w h =
      let s = sci_set_device_path opt.device_path w in
      let p = path_set opt.device_path w h in
      let r = sci_open os s.1 in
      let o = sci_open-Opened s.1 p in
      elim (Bool-cases (not s.0)) [
        | inl e ↦ rw e p
        | inr e ↦ rw e (elim (Bool-cases (nonzero r.0.0)) [
          | inl f ↦ rw f (retried r opt.no_modprobe o f)
          | inr f ↦ rw f (desc_held r o)
        ])
      ]
