-- ===== src/Tools/Generic.antt =====
-- user_src/ntb_generic.c: the backend over the device of the frame driver.
mod Steps
pub mod Clean
use qemu_ntb_switch.Prelude.{
  ℕ, zero, suc, ◌+◌, ◌*◌, Bool, true, false, Option, some, none, ◌&&◌, ◌||◌, not, nonzero, leb,
  ◌==◌, bit_and, if◌then◌else◌,
}
use qemu_ntb_switch.Frames.{AppInfo}
use qemu_ntb_switch.Tools.Options.{Options, codes}
use qemu_ntb_switch.Tools.Process.{
  Os, Process, P, Answer, fails, gives, InfoAnswer, info_fails, info_gives, PollAnswer, poll_fails,
  poll_times_out, poll_gives, pure, ◌>>=◌, ◌>>◌, ask, tell, give, memory, calloc, close, unmap,
  map_file, open_file, page_size_of,
}
use qemu_ntb_switch.Tools.Backend.{Endpoint, no_endpoint, Backend}

-- `ntb_generic_endpoint`, with the address that it was allocated at
pub record GenericEndpoint : Type 0 where
  pub ctx_at : ℕ
  pub fd : ℕ
  pub base : ℕ
  pub map_size : ℕ

abbrev pub eintr : ℕ
eintr = 4

unfoldable pub open_retry : {H : Type 0} → Os H → Options → Answer → P H Answer
open_retry os opt (gives fd) = pure (gives fd)
open_retry os opt (fails e) = do
  (if opt.no_modprobe then pure tt else tell (os.modprobe (codes "ntb_idt_app")))
  open_file os opt.device_path

unfoldable pub open_generic_device : {H : Type 0} → Os H → Options → P H Answer
open_generic_device os opt = do r ← open_file os opt.device_path; open_retry os opt r

-- One answer of the ioctl, with what follows a call that a signal interrupts.
unfoldable pub info_answered :
    {H : Type 0} → InfoAnswer → P H (Option AppInfo) → P H (Option AppInfo)
info_answered (info_fails e) again = if e == eintr then again else pure none
info_answered (info_gives i) again = pure (if i.header_size == 0 then none else some i)

-- The loop, with a bound on the interrupted calls.
unfoldable pub get_driver_info : {H : Type 0} → Os H → ℕ → ℕ → P H (Option AppInfo)
get_driver_info os zero fd = pure none
get_driver_info os (suc n) fd = do
  r ← ask (os.get_info fd)
  info_answered r (get_driver_info os n fd)

-- POLLERR, POLLHUP and POLLNVAL
abbrev pub poll_errors : ℕ
poll_errors = 56

abbrev pub pollout : ℕ
pollout = 4

unfoldable pub poll_answered : {H : Type 0} → ℕ → PollAnswer → P H Bool → P H Bool
poll_answered events (poll_fails e) again = if e == eintr then again else pure false
poll_answered events poll_times_out again = pure false
poll_answered events (poll_gives revents) again =
    pure (bit_and revents poll_errors == 0 && nonzero (bit_and revents events))

-- The loop, with a bound on the interrupted calls.
unfoldable pub wait_fd : {H : Type 0} → Os H → ℕ → ℕ → ℕ → ℕ → P H Bool
wait_fd os zero fd events timeout_sec = pure false
wait_fd os (suc n) fd events timeout_sec = do
  r ← ask (os.poll fd events (timeout_sec * 1000))
  poll_answered events r (wait_fd os n fd events timeout_sec)

unfoldable pub region_mapped :
    {H : Type 0} → ℕ → ℕ → ℕ → AppInfo → ℕ → Answer → P H (Bool × Endpoint GenericEndpoint)
region_mapped a fd map_size i payload (fails e) = do give (memory a); pure (false, no_endpoint)
region_mapped a fd map_size i payload (gives base) = pure (
  true,
  record {
    ctx = some (record { ctx_at = a; fd = fd; base = base; map_size = map_size });
    addr = base + i.header_size;
    size = payload;
  },
)

unfoldable pub region_allocated :
    {H : Type 0} → Os H → ℕ → ℕ → ℕ → AppInfo → ℕ → Answer → P H (Bool × Endpoint GenericEndpoint)
region_allocated os fd region map_size i payload (fails e) = pure (false, no_endpoint)
region_allocated os fd region map_size i payload (gives a) = do
  r ← map_file os fd (region * page_size_of os) map_size
  region_mapped a fd map_size i payload r

-- The two sizes fit a size_t of 64 bits.
unfoldable pub map_generic_region :
    {H : Type 0} → Os H → ℕ → ℕ → ℕ → ℕ → AppInfo → P H (Bool × Endpoint GenericEndpoint)
map_generic_region os fd region map_size payload i =
    if map_size == 0 || (payload == 0 || leb map_size i.header_size)
    then pure (false, no_endpoint)
    else (do a ← calloc os; region_allocated os fd region map_size i payload a)

-- An endpoint that is not opened closes the descriptor.
unfoldable pub keep_or_close :
    {H : Type 0}
    → Os H
    → ℕ
    → Bool × Endpoint GenericEndpoint
    → P H (Bool × Endpoint GenericEndpoint)
keep_or_close os fd (true, e) = pure (true, e)
keep_or_close os fd (false, e) = do c ← close os fd; pure (false, e)

unfoldable pub local_informed :
    {H : Type 0} → Os H → ℕ → Option AppInfo → P H (Bool × Endpoint GenericEndpoint)
local_informed os fd none = pure (false, no_endpoint)
local_informed os fd (some i) = map_generic_region os fd 0 i.rx_map_size i.rx_payload i

unfoldable pub local_with_fd :
    {H : Type 0} → Os H → ℕ → Answer → P H (Bool × Endpoint GenericEndpoint)
local_with_fd os interrupts (fails e) = pure (false, no_endpoint)
local_with_fd os interrupts (gives fd) = do
  i ← get_driver_info os interrupts fd
  r ← local_informed os fd i
  keep_or_close os fd r

unfoldable pub generic_open_local :
    {H : Type 0} → Os H → ℕ → Options → P H (Bool × Endpoint GenericEndpoint)
generic_open_local os interrupts opt = do
  f ← open_generic_device os opt
  local_with_fd os interrupts f

unfoldable pub remote_informed :
    {H : Type 0} → Os H → ℕ → Option AppInfo → P H (Bool × Endpoint GenericEndpoint)
remote_informed os fd none = pure (false, no_endpoint)
remote_informed os fd (some i) = map_generic_region os fd 1 i.tx_map_size i.tx_payload i

unfoldable pub remote_with_fd :
    {H : Type 0} → Os H → ℕ → Options → Answer → P H (Bool × Endpoint GenericEndpoint)
remote_with_fd os interrupts opt (fails e) = pure (false, no_endpoint)
remote_with_fd os interrupts opt (gives fd) = do
  there ← wait_fd os interrupts fd pollout opt.timeout_sec
  r ←
      (if there
        then (do i ← get_driver_info os interrupts fd; remote_informed os fd i)
        else pure (false, no_endpoint))
  keep_or_close os fd r

unfoldable pub generic_open_remote :
    {H : Type 0} → Os H → ℕ → Options → P H (Bool × Endpoint GenericEndpoint)
generic_open_remote os interrupts opt = do
  f ← open_generic_device os opt
  remote_with_fd os interrupts opt f

unfoldable pub close_generic : {H : Type 0} → Os H → Option GenericEndpoint → P H (Unit {0})
close_generic os none = pure tt
close_generic os (some c) = do
  (if c.base == 0 then pure tt else (do e ← unmap os c.base c.map_size; pure tt))
  e ← close os c.fd
  give (memory c.ctx_at)

unfoldable pub generic_close :
    {H : Type 0} → Os H → Endpoint GenericEndpoint → P H (Endpoint GenericEndpoint)
generic_close os e = do close_generic os e.ctx; pure no_endpoint

unfoldable pub generic_backend : {H : Type 0} → Os H → ℕ → Backend H GenericEndpoint
generic_backend os interrupts = record {
  open_local = generic_open_local os interrupts;
  publish_local = λ e. pure (true, e);
  open_remote = generic_open_remote os interrupts;
  store_barrier = λ e. pure true;
  close = generic_close os;
}
