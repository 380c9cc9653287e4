-- ===== src/Tools/Loops/Completes.antt =====
-- user_src/ntb_profiling.c: beside a suitable sender the receiver's loop comes to its end.
use qemu_ntb_switch.Prelude.{
  ℕ, suc, ◌^◌, ◌<◌, ◌≤◌, ◌≡◌, refl, sym, ap, ◌∙◌, Bool, true, false, Option, some, none, List, [],
  ◌∷◌, ◌++◌,
}
use mathlib.Core.List.{append-nil}
use qemu_ntb_switch.Ring.{
  Ring, Answer as TurnAnswer, TxOptions, Rx, Profile, Turn, turn_tx, turn_rx, profile_turn,
  profile_run, profile_start, tx_turn, rx_turn, rx_setup, RxPhase, rx_loop, rx_loaded, rx_load_len,
  rx_load_seq, rx_store_tail, rx_load_flags, rx_confirm, rx_done, rx_invalid, rx_failed,
}
use qemu_ntb_switch.Ring.Schedule.{profile_run-append}
use qemu_ntb_switch.Ring.Locals.{tx_turn-rx}
use qemu_ntb_switch.Ring.Progress.{profile_run-completes}
use qemu_ntb_switch.Tools.Options.{Options}
use qemu_ntb_switch.Tools.Process.{Process}
use qemu_ntb_switch.Tools.Loops.{turn_answer, rx_start, tx_start, rx_verdict, rx_step, rx_receives}
use qemu_ntb_switch.Tools.Loops.Shared.{
  Plan, Shared, shared, seen, sender_turns, sender_turns-rx, receiver_turn, after_sender, entry-run,
}

-- The plan that leads to the given turns, after the sender's turns that are gathered so far.
unfoldable pub plan_of : List TurnAnswer → List Turn → Plan
plan_of answers [] = []
plan_of answers (turn_tx a ∷ ts) = plan_of (answers ++ a ∷ []) ts
plan_of answers (turn_rx a ∷ ts) = (answers, (a.timed_out, 0)) ∷ plan_of [] ts

sender_turns-last :
    (answers : List TurnAnswer) (a : TurnAnswer) (ts : List Turn)
    → sender_turns (answers ++ a ∷ []) ++ ts ≡ sender_turns answers ++ turn_tx a ∷ ts
sender_turns-last [] a ts = refl
sender_turns-last (b ∷ answers) a ts = ap (λ l. turn_tx b ∷ l) (sender_turns-last answers a ts)

-- The receiver heeds nothing but the clock.
rx_turn-timed_out :
    (a : TurnAnswer) (ph : RxPhase) (w : Profile)
    → rx_turn (turn_answer (a.timed_out, 0) true) ph w ≡ rx_turn a ph w
unfolding rx_turn
rx_turn-timed_out a rx_loop w = refl
rx_turn-timed_out a (rx_loaded t) w = refl
rx_turn-timed_out a (rx_load_len t) w = refl
rx_turn-timed_out a (rx_load_seq t len) w = refl
rx_turn-timed_out a (rx_store_tail t) w = refl
rx_turn-timed_out a (rx_load_flags t) w = refl
rx_turn-timed_out a (rx_confirm t) w = refl
rx_turn-timed_out a (rx_done n) w = refl
rx_turn-timed_out a rx_invalid w = refl
rx_turn-timed_out a rx_failed w = refl

rx_turn-over :
    (a : TurnAnswer) (ph : RxPhase) (w : Profile) (b : Bool)
    → rx_verdict ph ≡ some b
    → rx_verdict (rx_turn a ph w).rx.phase ≡ some b
unfolding rx_turn rx_verdict
rx_turn-over a rx_loop w b e = absurd (cc)
rx_turn-over a (rx_loaded t) w b e = absurd (cc)
rx_turn-over a (rx_load_len t) w b e = absurd (cc)
rx_turn-over a (rx_load_seq t len) w b e = absurd (cc)
rx_turn-over a (rx_store_tail t) w b e = absurd (cc)
rx_turn-over a (rx_load_flags t) w b e = absurd (cc)
rx_turn-over a (rx_confirm t) w b e = absurd (cc)
rx_turn-over a (rx_done n) w b e = e
rx_turn-over a rx_invalid w b e = e
rx_turn-over a rx_failed w b e = e

module _ (o : TxOptions) where
  -- An end stays.
  run-over :
      (ts : List Turn) (w : Profile) (b : Bool)
      → rx_verdict w.rx.phase ≡ some b
      → rx_verdict (profile_run o ts w).rx.phase ≡ some b
  unfolding profile_run profile_turn
  run-over [] w b e = e
  run-over (turn_tx a ∷ ts) w b e =
      run-over ts (tx_turn o a w.tx.phase w) b
        (ap (λ p. rx_verdict p.rx.phase) (tx_turn-rx o a w.tx.phase w w.rx) ∙ e)
  run-over (turn_rx a ∷ ts) w b e =
      run-over ts (rx_turn a w.rx.phase w) b (rx_turn-over a w.rx.phase w b e)

  rx_step-entry :
      (opt : Options) (addr : ℕ) (rx : Rx) (w : Process Shared) (answers : List TurnAnswer)
      (c : Bool × ℕ) (p : Plan)
      → w.machine.plan ≡ (answers, c) ∷ p
      → let r = rx_step (shared o) opt addr rx w in
        (seen r.1.machine r.0
          ≡ profile_run o
              (sender_turns answers ++ turn_rx (turn_answer c true) ∷ [])
              (seen w.machine rx))
        × (r.1.machine.plan ≡ p)
  unfolding rx_step shared receiver_turn after_sender
  rx_step-entry opt addr rx w answers c p e = rw e (entry-run o answers c p w.machine rx, refl)

  module _ (opt : Options) (addr : ℕ) where
    abbrev Succeeds : Rx → Process Shared → Type 0
    Succeeds rx w = (n : ℕ) × ((rx_receives (shared o) n opt addr rx w).0 ≡ true)

    over-Succeeds : (rx : Rx) (w : Process Shared) → rx_verdict rx.phase ≡ some true → Succeeds rx w
    unfolding rx_receives
    over-Succeeds rx w e = (1, rw e refl)

    next-Succeeds :
        (rx : Rx) (w : Process Shared)
        → rx_verdict rx.phase ≡ none
        → (let s = rx_step (shared o) opt addr rx w in Succeeds s.0 s.1)
        → Succeeds rx w
    unfolding rx_receives
    next-Succeeds rx w e (n, h) = (suc n, rw e h)

    by_verdict :
        (v : Option Bool) (rx : Rx) (w : Process Shared)
        → rx_verdict rx.phase ≡ v
        → (rx_verdict rx.phase ≡ some false → Succeeds rx w)
        → (let s = rx_step (shared o) opt addr rx w in Succeeds s.0 s.1)
        → Succeeds rx w
    by_verdict (some true) rx w e failed next = over-Succeeds rx w e
    by_verdict (some false) rx w e failed next = failed e
    by_verdict none rx w e failed next = next-Succeeds rx w e next

    sender_turns-over :
        (answers : List TurnAnswer) (m : Shared) (rx : Rx)
        → (profile_run o (sender_turns answers ++ []) (seen m rx)).rx ≡ rx
    sender_turns-over answers m rx =
        rw (append-nil (sender_turns answers))
          (ap (λ p. p.rx) (sender_turns-rx o answers (seen m rx) rx))

    -- The turn of the plan is the turn that it was made from.
    entry-run-turn :
        (answers : List TurnAnswer) (a : TurnAnswer) (ts : List Turn) (w : Profile)
        → profile_run o ts (
            profile_run o
              (sender_turns answers ++ turn_rx (turn_answer (a.timed_out, 0) true) ∷ [])
              w)
          ≡ profile_run o (sender_turns answers ++ turn_rx a ∷ ts) w
    unfolding profile_run profile_turn
    entry-run-turn answers a ts w =
        let b = turn_answer (a.timed_out, 0) true in
        let v = profile_run o (sender_turns answers) w in
        ap (profile_run o ts) (
          profile_run-append o (sender_turns answers) (turn_rx b ∷ []) w
          ∙ rx_turn-timed_out a v.rx.phase v)
        ∙ sym (profile_run-append o (sender_turns answers) (turn_rx a ∷ ts) w)

    plan_of-Succeeds :
        (ts : List Turn) (answers : List TurnAnswer) (rx : Rx) (w : Process Shared) (k : ℕ)
        → w.machine.plan ≡ plan_of answers ts
        → (profile_run o (sender_turns answers ++ ts) (seen w.machine rx)).rx.phase ≡ rx_done k
        → Succeeds rx w
    unfolding plan_of rx_verdict
    plan_of-Succeeds [] answers rx w k e d =
        over-Succeeds rx w
          (ap rx_verdict (ap (λ x. x.phase) (sym (sender_turns-over answers w.machine rx)) ∙ d))
    plan_of-Succeeds (turn_tx a ∷ ts) answers rx w k e d =
        plan_of-Succeeds ts (answers ++ a ∷ []) rx w k e (rw (sender_turns-last answers a ts) d)
    plan_of-Succeeds (turn_rx a ∷ ts) answers rx w k e d =
        let s = rx_step (shared o) opt addr rx w in
        let q = rx_step-entry opt addr rx w answers (a.timed_out, 0) (plan_of [] ts) e in
        let same = ap (profile_run o ts) q.0 ∙ entry-run-turn answers a ts (seen w.machine rx) in
        by_verdict (rx_verdict rx.phase) rx w refl
          (λ f.
            let g = run-over (sender_turns answers ++ turn_rx a ∷ ts) (seen w.machine rx) false f in
            let h = sym (ap rx_verdict d) ∙ g in absurd (cc))
          (plan_of-Succeeds ts [] s.0 s.1 k q.1 (ap (λ p. p.rx.phase) same ∙ d))

-- On a ring that run_rx has laid out in a window of less than 2^64 bytes with a chunk below
-- 2^32, for a sender of less than 2^64 bytes whose positive chunk fits the slots: some turns of
-- the sender between the receiver's, some answers of its clock and some bound let the loop in
-- the receiver's process end with success.
pub rx_receives-completes :
    (o : TxOptions) (small : o.total_size < 2 ^ 64) (chunks : 0 < o.chunk_size) (size chunk : ℕ)
    (r r' : Ring) (window : size < 2 ^ 64) (word : chunk < 2 ^ 32)
    (laid : rx_setup size chunk r ≡ some r') (fits : o.chunk_size ≤ r'.header.slot_size)
    (opt : Options) (addr : ℕ) (w : Process Shared)
    → (plan : Plan) × (n : ℕ) × (let v = record w {
      machine = record { ring = r'; tx = tx_start; plan = plan };
    } in
        (rx_receives (shared o) n opt addr rx_start v).0 ≡ true)
unfolding profile_start
rx_receives-completes o small chunks size chunk r r' window word laid fits opt addr w =
    let (ts, sent, done, all) =
      profile_run-completes o small chunks size chunk r r' window word laid fits in
    let plan = plan_of [] ts in
    let v = record w { machine = record { ring = r'; tx = tx_start; plan = plan } } in
    let (n, h) = plan_of-Succeeds o opt addr ts [] rx_start v o.total_size refl done in (plan, n, h)
