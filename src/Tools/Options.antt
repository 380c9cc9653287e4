-- ===== src/Tools/Options.antt =====
-- parse_options and select_backend of user_src/ntb_profiling.c.
use Prim.Native.Char.{code}
use Prim.Native.String.{String}
use qemu_ntb_switch.Prelude.{
  ℕ, ◌-◌, ◌*◌, ◌^◌, Bool, true, false, Option, some, none, List, [], ◌∷◌, ◌&&◌, ◌||◌, not, ltb, leb,
  ◌==◌, if◌then◌else◌, length,
}
use qemu_ntb_switch.Tools.Numbers.{Text, to_lower, parse_size_arg, parse_int_arg, u64_max}

abbrev pub codes : String → Text
codes String.[] = []
codes (String.◌∷◌ c s) = code c ∷ codes s

-- `strcmp` and `strcasecmp` against 0
unfoldable pub str_eq : Text → Text → Bool
str_eq [] [] = true
str_eq [] (d ∷ t) = false
str_eq (c ∷ s) [] = false
str_eq (c ∷ s) (d ∷ t) = c == d && str_eq s t

unfoldable pub str_case_eq : Text → Text → Bool
str_case_eq [] [] = true
str_case_eq [] (d ∷ t) = false
str_case_eq (c ∷ s) [] = false
str_case_eq (c ∷ s) (d ∷ t) = to_lower c == to_lower d && str_case_eq s t

-- `ntb_profile_role`
pub data Role : Type 0 where
  receiver sender : Role

-- `ntb_profile_options`
pub record Options : Type 0 where
  pub role : Role
  pub backend_name : Text
  pub device_path : Text
  pub device_path_set : Bool
  pub segment_id : ℕ
  pub peer_node : ℕ
  pub window_size : ℕ
  pub total_size : ℕ
  pub chunk_size : ℕ
  pub timeout_sec : ℕ
  pub no_modprobe : Bool

abbrev pub backend_name_bytes : ℕ
backend_name_bytes = 32

-- PATH_MAX
abbrev pub path_max : ℕ
path_max = 4096

abbrev pub int_max : ℕ
int_max = 2 ^ 31 - 1

abbrev pub u32_max : ℕ
u32_max = 2 ^ 32 - 1

unfoldable pub default_options : Options
default_options = record {
  role = receiver;
  backend_name = codes "generic";
  device_path = [];
  device_path_set = false;
  segment_id = 1;
  peer_node = 0;
  window_size = 4 * 2 ^ 20;
  total_size = 64 * 2 ^ 20;
  chunk_size = 2 ^ 20;
  timeout_sec = 30;
  no_modprobe = false;
}

-- What parse_options comes to: the options, -1, or the end of the program after the help text.
pub data Parsed : Type 0 where
  accepted : Options → Parsed
  rejected : Parsed
  helped : Parsed

-- The two locals of the loop.
pub record ParseState : Type 0 where
  pub opt : Options
  pub role_set : Bool

-- The arguments that stand alone.
pub data Flag : Type 0 where
  role_flag : Role → Flag
  help_flag no_modprobe_flag : Flag

unfoldable pub flag_of : Text → Option Flag
flag_of arg =
    if str_eq arg (codes "rx") || str_eq arg (codes "receiver")
    then some (role_flag receiver)
    else if str_eq arg (codes "tx") || str_eq arg (codes "sender")
    then some (role_flag sender)
    else if str_eq arg (codes "--help") || str_eq arg (codes "-h")
    then some help_flag
    else if str_eq arg (codes "--no-modprobe")
    then some no_modprobe_flag
    else none

-- The arguments that take the next one.
pub data Key : Type 0 where
  backend_key device_key segment_key peer_node_key timeout_key window_key total_key chunk_key : Key

unfoldable pub key_of : Text → Option Key
key_of arg =
    if str_eq arg (codes "--backend") || str_eq arg (codes "--mode")
    then some backend_key
    else if str_eq arg (codes "--dev") || str_eq arg (codes "--device")
    then some device_key
    else if str_eq arg (codes "--segment")
    then some segment_key
    else if str_eq arg (codes "--peer-node")
    then some peer_node_key
    else if str_eq arg (codes "--timeout")
    then some timeout_key
    else if str_eq arg (codes "--window")
    then some window_key
    else if str_eq arg (codes "--total")
    then some total_key
    else if str_eq arg (codes "--chunk")
    then some chunk_key
    else none

-- A second role is an unknown option.
unfoldable pub use_flag : Flag → ParseState → (ParseState → Parsed) → Parsed
use_flag (role_flag r) s next =
    if s.role_set
    then rejected
    else next (record { opt = record s.opt { role = r }; role_set = true })
use_flag help_flag s next = helped
use_flag no_modprobe_flag s next = next (record s { opt = record s.opt { no_modprobe = true } })

abbrev pub number_then : Option ℕ → (ℕ → Parsed) → Parsed
number_then none next = rejected
number_then (some n) next = next n

-- A text that does not fit its array with the final 0 is refused.
unfoldable pub use_value : Key → Text → Options → (Options → Parsed) → Parsed
use_value backend_key v o next =
    if leb backend_name_bytes (length v) then rejected else next (record o { backend_name = v })
use_value device_key v o next =
    if leb path_max (length v)
    then rejected
    else next (record o { device_path = v; device_path_set = true })
use_value segment_key v o next =
    number_then (parse_int_arg v 0 int_max) (λ n. next (record o { segment_id = n }))
use_value peer_node_key v o next =
    number_then (parse_int_arg v 0 int_max) (λ n. next (record o { peer_node = n }))
use_value timeout_key v o next =
    number_then (parse_int_arg v 1 86400) (λ n. next (record o { timeout_sec = n }))
use_value window_key v o next =
    number_then (parse_size_arg v) (λ n. next (record o { window_size = n }))
use_value total_key v o next =
    number_then (parse_size_arg v) (λ n. next (record o { total_size = n }))
use_value chunk_key v o next =
    number_then (parse_size_arg v) (λ n. next (record o { chunk_size = n }))

-- The tests behind the loop; a size_t has 64 bits.
unfoldable pub check_options : ParseState → Parsed
check_options s =
    if not s.role_set
    then rejected
    else if s.opt.window_size == 0 || (s.opt.total_size == 0 || s.opt.chunk_size == 0)
    then rejected
    else if ltb u64_max s.opt.window_size
        || (ltb u64_max s.opt.chunk_size || ltb u32_max s.opt.chunk_size)
    then rejected
    else accepted s.opt

unfoldable pub use_last : Option Flag → ParseState → Parsed
use_last none s = rejected
use_last (some f) s = use_flag f s check_options

abbrev pub use_key : Option Key → Text → ParseState → (ParseState → Parsed) → Parsed
use_key none v s next = rejected
use_key (some k) v s next = use_value k v s.opt (λ o. next (record s { opt = o }))

-- With what follows when this argument stands alone, and when it takes the next one.
unfoldable pub use_arg :
    Text → Text → ParseState → (ParseState → Parsed) → (ParseState → Parsed) → Parsed
use_arg arg v s next skip = elim (flag_of arg) [
  | some f ↦ use_flag f s next
  | none ↦ use_key (key_of arg) v s skip
]

unfoldable pub parse_args : List Text → ParseState → Parsed
parse_args [] s = check_options s
parse_args (arg ∷ []) s = use_last (flag_of arg) s
parse_args (arg ∷ v ∷ rest) s =
    use_arg arg v s (λ s'. parse_args (v ∷ rest) s') (λ s'. parse_args rest s')

-- The arguments behind the program's name.
unfoldable pub parse_options : List Text → Parsed
parse_options [] = rejected
parse_options (arg ∷ rest) =
    parse_args (arg ∷ rest) (record { opt = default_options; role_set = false })
