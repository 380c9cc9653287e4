-- ===== src/Tests/Tools.antt =====
-- The user tools on a machine that grants what it is asked for, over the small machine's driver.
use qemu_ntb_switch.Prelude.{
  ℕ, zero, suc, ◌++◌, ◌+◌, ◌*◌, ◌≡◌, ◌≤◌, refl, true, false, some, none, List, [], ◌∷◌, arith,
}
use qemu_ntb_switch.Driver.{Driver, maps_physical, page_align}
use qemu_ntb_switch.Ring.{
  rx_header, Answer, Turn, Rx, profile_run, profile_turn, tx_turn, rx_turn, tx_finds, tx_refuses,
  ring_full, fill_slot, store_seq, tx_payload, copy_pattern, slot_is_invalid, ntb_ring_slot,
  rx_done, profile_start,
}
use qemu_ntb_switch.Tools.Loops.Shared.{
  Plan, Shared, shared, after_sender, next_clock, seen, rx_receives-received,
}
use qemu_ntb_switch.Sisci.{SisciDev, sisci_fresh, sisci_mmap}
use qemu_ntb_switch.Sisci.Announcement.{IsReady}
use qemu_ntb_switch.Tools.Numbers.{
  Text, parse_size_arg, u64_max, parse_int_arg, size_of_literal, int_of_literal, read_signed,
  read_magnitude, read_digits, prefix_base, digit_value, skip_spaces, is_space, to_lower, scaled,
  scale_of, multiplier_of, skip_letter, unsigned_value,
}
use qemu_ntb_switch.Tools.Options.{
  codes, accepted, parse_options, Options, sender, parse_args, use_arg, use_last, flag_of, key_of,
  use_flag, use_value, check_options, str_eq, default_options,
}
use qemu_ntb_switch.Tools.Decimal.{decimal, digits_before}
use qemu_ntb_switch.Tools.Sizes.{scales, mega, parse_size_arg-decimal}
use qemu_ntb_switch.Tools.Admissible.{IsAdmissible, parse_options-IsAdmissible}
use qemu_ntb_switch.Tools.Process.{Os, Process, gives, info_fails, poll_times_out, descriptor}
use qemu_ntb_switch.Tools.Sci.{SciDesc, SciMap, sci_connect_segment, sci_map_remote_segment}
use qemu_ntb_switch.Tools.Loops.{Session, tx_start, rx_start, rx_receives, rx_step, rx_verdict}
use qemu_ntb_switch.Tools.Loops.Completes.{rx_receives-completes}
use qemu_ntb_switch.Tools.Attached.{attached}
use qemu_ntb_switch.Tools.Attached.Connected.{Roomy, connects-maps}
use qemu_ntb_switch.Tests.Drivers.{Wire, wire_ntb}
use qemu_ntb_switch.Tests.Ring.{blank, laid_ring, options, calm, laid_ring_lem, fitting}

-- The rest of the machine counts the addresses that it has given.
abbrev granting : Os ℕ
granting = record {
  open_device = λ path k. (gives 3, k);
  close_fd = λ fd k. (0, k);
  calloc = λ k. (gives (k + 100), k + 1);
  sci_ioctl = λ fd request k. (gives 4096, k);
  get_info = λ fd k. (info_fails 19, k);
  mmap = λ fd offset size k. (gives (65536 + 65536 * k), k + 1);
  munmap = λ base size k. (0, k);
  poll = λ fd events ms k. (poll_times_out, k);
  modprobe = λ name k. k;
  page_bytes = 4096;
}

-- The sender has told the end, and a wait is over at once.
abbrev ended_session : Session ℕ
ended_session = record {
  contents = λ addr k. (record blank { header = record (rx_header 5 16) { flags = 1 } }, k);
  store = λ addr ring k. k;
  clock = λ seconds k. ((true, 0), k);
}

-- The standard input is open.
abbrev started : Process ℕ
started = record { machine = 0; device_path = []; live = descriptor 0 ∷ []; misused = false }

abbrev receiver_args : List Text
receiver_args =
    codes "rx" ∷ codes "--backend" ∷ codes "SISCI" ∷ codes "--window" ∷ codes "64KiB" ∷ []

parse_size_arg-decimal_example : parse_size_arg (codes "64MiB") ≡ some 67108864
unfolding decimal digits_before
parse_size_arg-decimal_example = parse_size_arg-decimal 64 (scales true mega true true)

minus_one : parse_size_arg (codes "-1") ≡ some u64_max
unfolding parse_size_arg size_of_literal read_signed read_magnitude read_digits prefix_base
    digit_value skip_spaces is_space to_lower scaled scale_of unsigned_value
minus_one = refl

abbrev sender_args : List Text
sender_args = codes "tx" ∷ codes "--chunk" ∷ codes "4k" ∷ codes "--timeout" ∷ codes "5" ∷ []

abbrev sender_options : Options
sender_options = record {
  role = sender;
  backend_name = codes "generic";
  device_path = [];
  device_path_set = false;
  segment_id = 1;
  peer_node = 0;
  window_size = 4194304;
  total_size = 67108864;
  chunk_size = 4096;
  timeout_sec = 5;
  no_modprobe = false;
}

sender_args_lem : parse_options sender_args ≡ accepted sender_options
unfolding parse_options parse_args use_arg use_last flag_of key_of use_flag use_value check_options
    str_eq default_options parse_size_arg parse_int_arg size_of_literal int_of_literal read_signed
    read_magnitude read_digits prefix_base digit_value skip_spaces is_space to_lower scaled scale_of
    multiplier_of skip_letter unsigned_value
sender_args_lem = refl

parse_options-IsAdmissible_example : IsAdmissible sender_options
parse_options-IsAdmissible_example =
    parse_options-IsAdmissible sender_args sender_options sender_args_lem

abbrev wired : Wire
wired = record { out = λ _. none; into = λ _. none; refusal = false; up = 1 }

-- The driver has the other machine's segment 3 mapped.
abbrev ready_driver : Driver SisciDev Wire
ready_driver = record {
  app = record (sisci_fresh 0) {
    peer_ready = true;
    remote_announced = true;
    remote_segment_id = 3;
    remote_xlat = 8192;
    remote_size = 10000;
    peer_usable_size = 10000;
    peer_map_size = 65536;
    peer_phys = 1048576;
    peer_io = some 88;
  };
  hw = wired;
  calls = [];
}

ready_driver_lem : IsReady 3 10000 8192 1048576 65536 88 ready_driver.app
ready_driver_lem = ground arith

ready_driver-there : ready_driver.app.removed ≡ false
unfolding sisci_fresh
ready_driver-there = refl

granting-Roomy : Roomy granting
granting-Roomy = ((λ k. (k + 100, refl)), (λ fd offset size k. (65536 + 65536 * k, refl)))

abbrev program : Process (ℕ × Driver SisciDev Wire)
program = record { machine = (0, ready_driver); device_path = []; live = []; misused = false }

abbrev desc : SciDesc
desc = record { desc_at = 7; fd = 3 }

connects-maps_example :
    let attached_os = attached granting wire_ntb 4096 (λ w. (0, w)) in
    let r = sci_connect_segment attached_os (some desc) none 0 3 0 1000 program in
    let t = sci_map_remote_segment attached_os r.0.1 none 0 0 r.1 in
    (r.0.0 ≡ 0)
    × ((m : SciMap) × (t.0 ≡ (0, some m)) × (m.size ≡ 10000) × (m.map_size ≡ 10000))
    × (let size = page_align 10000 in
        (10000 ≤ size) × (sisci_mmap 1 size r.1.machine.1.app ≡ maps_physical 1048576 size))
connects-maps_example =
    connects-maps granting wire_ntb 4096 (λ w. (0, w)) granting-Roomy program desc 0 0 1000
      ready_driver_lem ready_driver-there refl refl (omega arith) (omega arith)

abbrev turns : ℕ → List Answer
turns zero = []
turns (suc n) = calm ∷ turns n

abbrev receiver_alone : ℕ → Plan
receiver_alone zero = []
receiver_alone (suc n) = ([], (false, 0)) ∷ receiver_alone n

-- The sender sends all, the receiver takes it, and then the sender ends.
abbrev plan : Plan
plan = (turns 19, (false, 0)) ∷ (receiver_alone 14 ++ (turns 6, (false, 0)) ∷ receiver_alone 3)

abbrev receiving : Process Shared
receiving = record {
  machine = record { ring = laid_ring; tx = tx_start; plan = plan };
  device_path = [];
  live = [];
  misused = false;
}

receives : (rx_receives (shared options) 20 sender_options 0 rx_start receiving).0 ≡ true
unfolding rx_receives rx_step rx_verdict shared after_sender next_clock profile_run profile_turn
    tx_turn rx_turn tx_finds tx_refuses ring_full fill_slot store_seq tx_payload copy_pattern
    slot_is_invalid ntb_ring_slot rx_header
receives = refl

rx_receives-received_example :
    let v = rx_receives (shared options) 20 sender_options 0 rx_start receiving in
    (rx : Rx) × (ts : List Turn) × (seen v.1.machine rx
      ≡ profile_run options ts (profile_start laid_ring))
    × (rx.phase ≡ rx_done 40)
    × (rx.received ≡ 40)
rx_receives-received_example =
    rx_receives-received options (omega arith) (omega arith) 512 16 blank laid_ring (omega arith)
      (omega arith) laid_ring_lem 20 sender_options 0 plan receiving refl receives

rx_receives-completes_example :
    (p : Plan) × (n : ℕ) × (let v = record receiving {
      machine = record { ring = laid_ring; tx = tx_start; plan = p };
    } in
      (rx_receives (shared options) n sender_options 0 rx_start v).0 ≡ true)
rx_receives-completes_example =
    rx_receives-completes options (omega arith) (omega arith) 512 16 blank laid_ring (omega arith)
      (omega arith) laid_ring_lem fitting sender_options 0 receiving
