-- ===== src/Window/Environment.antt =====
-- What the device asks of the host about the file with the other machine's memory. None of it
-- is code of the repository: a run of the model is given the answers.
use qemu_ntb_switch.Prelude.{ℕ, Bool, Option}

-- `file_size` is `none` where `fstat` fails; `open` and `mmap` and QEMU's
-- `memory_region_init_ram_from_fd` succeed or not.
pub record Host : Type 0 where
  pub opens : Bool
  pub file_size : Option ℕ
  pub inits_ram : Bool
  pub mmaps : Bool
  pub requester_id : ℕ
