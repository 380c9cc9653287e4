-- ===== src/Driver/Values.antt =====
-- kernel_src: error numbers, alignment and mappings, as both drivers use them.
use qemu_ntb_switch.Prelude.{
  ℕ, ◌+◌, ◌-◌, ◌*◌, ◌/◌, Bool, true, false, Option, some, none, ◌==◌, nonzero, bit_and, u64,
  if◌then◌else◌,
}
use qemu_ntb_switch.Driver.Monad.{D, pure}

abbrev pub enoent : ℕ
enoent = 2

abbrev pub efault : ℕ
efault = 14

abbrev pub enotty : ℕ
enotty = 25

abbrev pub enodata : ℕ
enodata = 61

abbrev pub ebusy : ℕ
ebusy = 16

abbrev pub enodev : ℕ
enodev = 19

abbrev pub einval : ℕ
einval = 22

abbrev pub emsgsize : ℕ
emsgsize = 90

-- Goes on where the code before has returned 0.
abbrev pub or_return : {S H : Type 0} → D S H ℕ → ℕ → D S H ℕ
or_return next ret = if nonzero ret then pure ret else next

unfoldable pub is_some : Option ℕ → Bool
is_some none = false
is_some (some x) = true

-- `IS_ALIGNED`
unfoldable pub is_aligned : ℕ → ℕ → Bool
is_aligned x a = bit_and x (a - 1) == 0

-- PAGE_SIZE of x86
abbrev pub page_size : ℕ
page_size = 4096

-- `PAGE_ALIGN` on 64-bit words
unfoldable pub page_align : ℕ → ℕ
page_align x = u64 (x + (page_size - 1)) / page_size * page_size

-- What mmap does: an error, or the memory that is mapped, by its kernel or physical address.
pub data Mapping : Type 0 where
  maps_nothing : ℕ → Mapping
  maps_buffer : ℕ → ℕ → Mapping
  maps_physical : ℕ → ℕ → Mapping
