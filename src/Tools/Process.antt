-- ===== src/Tools/Process.antt =====
-- What the user programs ask of Linux, as parameters, and the resources that a process holds.
use qemu_ntb_switch.Prelude.{
  ℕ, Bool, true, false, Option, some, none, List, [], ◌∷◌, ◌&&◌, ◌==◌, if◌then◌else◌,
}
use qemu_ntb_switch.Frames.{AppInfo}
use qemu_ntb_switch.Tools.Numbers.{Text}

-- A call fails with an errno, or gives a number.
pub data Answer : Type 0 where
  fails gives : ℕ → Answer

-- The requests of the SISCI device, with the fields of their structures.
pub data SciRequest : Type 0 where
  -- The segment and the size.
  create : ℕ → ℕ → SciRequest
  -- The segment, the adapter and the size.
  prepare make_available make_unavailable : ℕ → ℕ → ℕ → SciRequest
  -- The segment and the size.
  remove : ℕ → ℕ → SciRequest
  -- The node, the segment, the adapter and the time to wait in milliseconds.
  connect : ℕ → ℕ → ℕ → ℕ → SciRequest
  -- The flags.
  barrier : ℕ → SciRequest

-- What GET_INFO of the frame driver comes to: an errno, or the structure.
pub data InfoAnswer : Type 0 where
  info_fails : ℕ → InfoAnswer
  info_gives : AppInfo → InfoAnswer

-- What `poll` comes to: an errno, no event in time, or the events.
pub data PollAnswer : Type 0 where
  poll_fails : ℕ → PollAnswer
  poll_times_out : PollAnswer
  poll_gives : ℕ → PollAnswer

-- The rest of the machine is a state of a type `H`, which each call may change.
pub record Os (H : Type 0) : Type 0 where
  pub open_device : Text → H → Answer × H
  -- 0, or an errno. The descriptor is closed in either case.
  pub close_fd : ℕ → H → ℕ × H
  pub calloc : H → Answer × H
  -- What the request returns in its size field.
  pub sci_ioctl : ℕ → SciRequest → H → Answer × H
  pub get_info : ℕ → H → InfoAnswer × H
  -- The descriptor, the offset and the size.
  pub mmap : ℕ → ℕ → ℕ → H → Answer × H
  -- 0, or an errno.
  pub munmap : ℕ → ℕ → H → ℕ × H
  -- The descriptor, the events and the milliseconds.
  pub poll : ℕ → ℕ → ℕ → H → PollAnswer × H
  pub modprobe : Text → H → H
  -- `sysconf(_SC_PAGESIZE)`, 0 where it gives no positive number.
  pub page_bytes : ℕ

-- What a process holds: descriptors, mappings with their sizes, and allocated memory.
pub data Resource : Type 0 where
  descriptor : ℕ → Resource
  mapped : ℕ → ℕ → Resource
  memory : ℕ → Resource

abbrev pub same : Resource → Resource → Bool
same (descriptor a) (descriptor b) = a == b
same (mapped a m) (mapped b n) = a == b && m == n
same (memory a) (memory b) = a == b
same _ _ = false

pub record Process (H : Type 0) : Type 0 where
  pub machine : H
  -- The device path of the library, a static variable.
  pub device_path : Text
  -- What is held, the latest first.
  pub live : List Resource
  -- Something was given back that was not held.
  pub misused : Bool

abbrev pub P : Type 0 → Type 0 → Type 0
P H A = Process H → A × Process H

abbrev pub pure : {H A : Type 0} → A → P H A
pure a w = (a, w)

infixl 5 ◌>>=◌ ◌>>◌
abbrev pub ◌>>=◌ : {H A B : Type 0} → P H A → (A → P H B) → P H B
◌>>=◌ m f w = f (m w).0 (m w).1

abbrev pub ◌>>◌ : {H B : Type 0} → P H (Unit {0}) → P H B → P H B
◌>>◌ m k w = k (m w).1

abbrev pub ask : {H A : Type 0} → (H → A × H) → P H A
ask f w = ((f w.machine).0, record w { machine = (f w.machine).1 })

abbrev pub tell : {H : Type 0} → (H → H) → P H (Unit {0})
tell f w = (tt, record w { machine = f w.machine })

abbrev pub take : {H : Type 0} → Resource → P H (Unit {0})
take r w = (tt, record w { live = r ∷ w.live })

abbrev kept : Resource → Option (List Resource) → Option (List Resource)
kept x none = none
kept x (some l) = some (x ∷ l)

unfoldable pub without : Resource → List Resource → Option (List Resource)
without r [] = none
without r (x ∷ l) = if same r x then some l else kept x (without r l)

abbrev pub settled : {H : Type 0} → Option (List Resource) → Process H → Process H
settled none w = record w { misused = true }
settled (some l) w = record w { live = l }

unfoldable pub give : {H : Type 0} → Resource → P H (Unit {0})
give r w = (tt, settled (without r w.live) w)

-- What a call that succeeds has taken.
abbrev pub take_given : {H : Type 0} → (ℕ → Resource) → Answer → P H (Unit {0})
take_given r (fails e) = pure tt
take_given r (gives n) = take (r n)

unfoldable pub calloc : {H : Type 0} → Os H → P H Answer
calloc os = do r ← ask os.calloc; take_given memory r; pure r

unfoldable pub close : {H : Type 0} → Os H → ℕ → P H ℕ
close os fd = do e ← ask (os.close_fd fd); give (descriptor fd); pure e

unfoldable pub unmap : {H : Type 0} → Os H → ℕ → ℕ → P H ℕ
unmap os base size = do e ← ask (os.munmap base size); give (mapped base size); pure e

unfoldable pub map_file : {H : Type 0} → Os H → ℕ → ℕ → ℕ → P H Answer
map_file os fd offset size = do
  r ← ask (os.mmap fd offset size)
  take_given (λ base. mapped base size) r
  pure r

unfoldable pub open_file : {H : Type 0} → Os H → Text → P H Answer
open_file os path = do r ← ask (os.open_device path); take_given descriptor r; pure r

-- `sci_page_size` and `ntb_page_size`
unfoldable pub page_size_of : {H : Type 0} → Os H → ℕ
page_size_of os = if os.page_bytes == 0 then 4096 else os.page_bytes
