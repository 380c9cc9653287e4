-- ===== src/Tools/Main.antt =====
-- user_src/ntb_profiling.c: select_backend, the frame of run_rx and run_tx, and main.
pub mod Released
use qemu_ntb_switch.Prelude.{
  ℕ, zero, suc, Bool, true, false, Option, some, none, List, ◌==◌, not, if◌then◌else◌,
}
use Prim.Native.String.{String}
use qemu_ntb_switch.Ring.{Ring, Tx, rx_setup}
use qemu_ntb_switch.Tools.Options.{
  Options, Role, receiver, sender, Parsed, accepted, rejected, helped, parse_options, str_case_eq,
  codes,
}
use qemu_ntb_switch.Tools.Numbers.{Text}
use qemu_ntb_switch.Tools.Process.{
  Os, Process, P, Answer, fails, gives, pure, ◌>>=◌, ◌>>◌, ask, tell, give, memory, calloc,
}
use qemu_ntb_switch.Tools.Backend.{Endpoint, Backend}
use qemu_ntb_switch.Tools.Loops.{
  Session, rx_start, tx_start, has_found, rx_receives, tx_searches, tx_sends,
}
use qemu_ntb_switch.Tools.Sisci.{sisci_backend}
use qemu_ntb_switch.Tools.Generic.{generic_backend}

module _ {H C : Type 0} (os : Os H) (session : Session H) (most : ℕ) (backend : Backend H C) where
  unfoldable pub rx_published : Options → Bool × Endpoint C → P H (Bool × Endpoint C)
  rx_published opt (false, e) = pure (false, e)
  rx_published opt (true, e) = do r ← rx_receives session most opt e.addr rx_start; pure (r, e)

  unfoldable pub rx_laid_out : Options → Endpoint C → Option Ring → P H (Bool × Endpoint C)
  rx_laid_out opt e none = pure (false, e)
  rx_laid_out opt e (some ring) = do
    tell (session.store e.addr ring)
    p ← backend.publish_local e
    rx_published opt p

  unfoldable pub rx_session : Options → Endpoint C → P H (Bool × Endpoint C)
  rx_session opt e = if e.addr == 0 then pure (false, e) else (do
    r ← ask (session.contents e.addr)
    rx_laid_out opt e (rx_setup e.size opt.chunk_size r))

  -- The label `out_close`.
  unfoldable pub rx_opened : Options → Bool × Endpoint C → P H Bool
  rx_opened opt (false, e) = pure false
  rx_opened opt (true, e) = do r ← rx_session opt e; closed ← backend.close r.1; pure r.0

  unfoldable pub run_rx : Options → P H Bool
  run_rx opt = do r ← backend.open_local opt; rx_opened opt r

  -- The label `out_free_pattern`.
  unfoldable pub tx_with_pattern : Options → Endpoint C → Tx → Answer → P H Bool
  tx_with_pattern opt e t (fails x) = pure false
  tx_with_pattern opt e t (gives pattern) = do
    r ← tx_sends session backend most opt e t
    give (memory pattern)
    pure r

  unfoldable pub tx_found : Options → Endpoint C → Tx → P H Bool
  tx_found opt e t =
      if has_found t.phase then (do a ← calloc os; tx_with_pattern opt e t a) else pure false

  unfoldable pub tx_session : Options → Endpoint C → P H Bool
  tx_session opt e =
      if e.addr == 0
      then pure false
      else (do t ← tx_searches session backend most opt e tx_start; tx_found opt e t)

  unfoldable pub tx_opened : Options → Bool × Endpoint C → P H Bool
  tx_opened opt (false, e) = pure false
  tx_opened opt (true, e) = do r ← tx_session opt e; closed ← backend.close e; pure r

  unfoldable pub run_tx : Options → P H Bool
  run_tx opt = do r ← backend.open_remote opt; tx_opened opt r

  unfoldable pub run_role : Options → Role → P H Bool
  run_role opt receiver = run_rx opt
  run_role opt sender = run_tx opt

pub data BackendName : Type 0 where
  generic_name sisci_name : BackendName

unfoldable pub backend_named : Text → Option BackendName
backend_named name =
    if str_case_eq name (codes "generic")
    then some generic_name
    else if str_case_eq name (codes "sisci")
    then some sisci_name
    else none

-- The path of the backend's device where the options have none.
unfoldable pub with_default_path : String → Options → Options
with_default_path path opt =
    if opt.device_path_set then opt else record opt { device_path = codes path }

-- `interrupts` bounds the interrupted calls, `most` the turns of each loop.
module _ {H : Type 0} (os : Os H) (session : Session H) (interrupts most : ℕ) where
  unfoldable pub run_selected : Options → Option BackendName → P H Bool
  run_selected opt none = pure false
  run_selected opt (some generic_name) =
      run_role os session most (generic_backend os interrupts)
        (with_default_path "/dev/ntb_idt_app" opt) opt.role
  run_selected opt (some sisci_name) =
      run_role os session most (sisci_backend os) (with_default_path "/dev/ntb_idt_sisci" opt)
        opt.role

  unfoldable pub run_parsed : Parsed → P H Bool
  run_parsed (accepted opt) = run_selected opt (backend_named opt.backend_name)
  run_parsed rejected = pure false
  run_parsed helped = pure true

  -- The program, with its arguments; it says whether it ends with EXIT_SUCCESS.
  unfoldable pub main : List Text → P H Bool
  main args = run_parsed (parse_options args)
