-- ===== src/Tools/Loops.antt =====
-- user_src/ntb_profiling.c: the loops of run_rx and run_tx as parts of a process. A turn is a turn of
-- the ring's loops.
pub mod Kept
pub mod Completes
pub mod Shared
use qemu_ntb_switch.Prelude.{
  ℕ, zero, suc, Bool, true, false, Option, some, none, not, if◌then◌else◌,
}
use qemu_ntb_switch.Ring.{
  Ring, Answer as TurnAnswer, TxOptions, Tx, Rx, Profile, TxPhase, RxPhase, tx_find, tx_loop,
  tx_barrier, tx_report_barrier, tx_done, tx_failed, rx_loop, rx_done, rx_invalid, rx_failed,
  tx_turn, rx_turn,
}
use qemu_ntb_switch.Tools.Options.{Options}
use qemu_ntb_switch.Tools.Process.{Process, P, pure, ◌>>=◌, ◌>>◌, ask, tell}
use qemu_ntb_switch.Tools.Backend.{Endpoint, Backend}

-- The ring in the window at an address, which the other program changes too, and the clock.
pub record Session (H : Type 0) : Type 0 where
  pub contents : ℕ → H → Ring × H
  pub store : ℕ → Ring → H → H
  -- Whether a wait of so many seconds is over, and the nanoseconds since the start.
  pub clock : ℕ → H → (Bool × ℕ) × H

-- The allocation of the pattern is a call of its own.
abbrev pub turn_answer : Bool × ℕ → Bool → TurnAnswer
turn_answer c barrier = record {
  timed_out = c.0;
  out_of_memory = false;
  barrier_failed = not barrier;
  elapsed_ns = c.1;
}

-- What a loop comes to at the end of a turn; `none` where it goes on.
unfoldable pub rx_verdict : RxPhase → Option Bool
rx_verdict (rx_done n) = some true
rx_verdict rx_invalid = some false
rx_verdict rx_failed = some false
rx_verdict _ = none

unfoldable pub tx_verdict : TxPhase → Option Bool
tx_verdict tx_done = some true
tx_verdict tx_failed = some false
tx_verdict _ = none

abbrev pub unless_over : {H : Type 0} → Option Bool → P H Bool → P H Bool
unless_over (some b) rest = pure b
unless_over none rest = rest

-- The locals of the two functions before their loops.
abbrev pub rx_start : Rx
rx_start = record { phase = rx_loop; received = 0 }

abbrev pub tx_start : Tx
tx_start = record { phase = tx_find; sent = 0; slot_count = 0 }

unfoldable pub calls_barrier : TxPhase → Bool
calls_barrier (tx_barrier h) = true
calls_barrier tx_report_barrier = true
calls_barrier _ = false

unfoldable pub is_searching : TxPhase → Bool
is_searching tx_find = true
is_searching _ = false

unfoldable pub has_found : TxPhase → Bool
has_found tx_loop = true
has_found _ = false

abbrev pub tx_options : Options → TxOptions
tx_options opt = record { total_size = opt.total_size; chunk_size = opt.chunk_size }

module _ {H : Type 0} (session : Session H) where
  unfoldable pub rx_step : Options → ℕ → Rx → P H Rx
  rx_step opt addr rx = do
    c ← ask (session.clock opt.timeout_sec)
    ring ← ask (session.contents addr)
    let w = rx_turn (turn_answer c true) rx.phase (record { ring = ring; tx = tx_start; rx = rx })
    tell (session.store addr w.ring)
    pure w.rx

  -- The loop of run_rx, with a bound on the turns.
  unfoldable pub rx_receives : ℕ → Options → ℕ → Rx → P H Bool
  rx_receives zero opt addr rx = pure false
  rx_receives (suc n) opt addr rx =
      unless_over (rx_verdict rx.phase) (do s ← rx_step opt addr rx; rx_receives n opt addr s)

module _ {H C : Type 0} (session : Session H) (backend : Backend H C) where
  unfoldable pub tx_step : Options → Endpoint C → Tx → P H Tx
  tx_step opt e t = do
    b ← (if calls_barrier t.phase then backend.store_barrier e else pure true)
    c ← ask (session.clock opt.timeout_sec)
    ring ← ask (session.contents e.addr)
    let w =
        tx_turn (tx_options opt) (turn_answer c b) t.phase
          (record { ring = ring; tx = t; rx = rx_start })
    tell (session.store e.addr w.ring)
    pure w.tx

  -- The search of run_tx for a ring, with a bound on the turns.
  unfoldable pub tx_searches : ℕ → Options → Endpoint C → Tx → P H Tx
  tx_searches zero opt e t = pure t
  tx_searches (suc n) opt e t =
      if is_searching t.phase then (do s ← tx_step opt e t; tx_searches n opt e s) else pure t

  -- The two loops behind it, with a bound on the turns.
  unfoldable pub tx_sends : ℕ → Options → Endpoint C → Tx → P H Bool
  tx_sends zero opt e t = pure false
  tx_sends (suc n) opt e t =
      unless_over (tx_verdict t.phase) (do s ← tx_step opt e t; tx_sends n opt e s)
