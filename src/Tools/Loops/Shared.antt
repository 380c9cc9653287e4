-- ===== src/Tools/Loops/Shared.antt =====
-- user_src/ntb_profiling.c: the receiver's loop beside a sender that works on the same ring.
use qemu_ntb_switch.Prelude.{
  ℕ, zero, suc, ◌^◌, ◌<◌, ◌≡◌, refl, sym, ap, ◌∙◌, Bool, true, false, Option, some, none, List, [],
  ◌∷◌, ◌++◌,
}
use qemu_ntb_switch.Ring.{
  Ring, Answer as TurnAnswer, TxOptions, Tx, Rx, Profile, Turn, turn_tx, turn_rx, profile_turn,
  profile_run, profile_start, tx_turn, rx_turn, rx_setup, RxPhase, rx_loop, rx_loaded, rx_load_len,
  rx_load_seq, rx_store_tail, rx_load_flags, rx_confirm, rx_done, rx_invalid, rx_failed,
}
use qemu_ntb_switch.Ring.Schedule.{profile_run-append}
use qemu_ntb_switch.Ring.Safety.{rx_done-received}
use qemu_ntb_switch.Tools.Options.{Options}
use qemu_ntb_switch.Tools.Process.{Process, P}
use qemu_ntb_switch.Tools.Loops.{
  Session, turn_answer, rx_start, tx_start, rx_verdict, rx_step, rx_receives, unless_over,
}
use qemu_ntb_switch.Ring.Locals.{tx_turn-rx, rx_turn-tx}

-- For each turn of the receiver, the sender's turns before it, by what they are answered, and what
-- the receiver's clock answers.
abbrev pub Plan : Type 0
Plan = List (List TurnAnswer × (Bool × ℕ))

pub record Shared : Type 0 where
  pub ring : Ring
  pub tx : Tx
  pub plan : Plan

abbrev pub seen : Shared → Rx → Profile
seen m rx = record { ring = m.ring; tx = m.tx; rx = rx }

abbrev pub sender_turns : List TurnAnswer → List Turn
sender_turns [] = []
sender_turns (a ∷ answers) = turn_tx a ∷ sender_turns answers

unfoldable pub after_sender : TxOptions → Plan → Shared → Ring × Shared
after_sender o [] m = (m.ring, m)
after_sender o ((answers, c) ∷ plan) m =
    let w = profile_run o (sender_turns answers) (seen m rx_start) in
    (w.ring, record { ring = w.ring; tx = w.tx; plan = plan })

unfoldable pub next_clock : Plan → Bool × ℕ
next_clock [] = (true, 0)
next_clock ((answers, c) ∷ plan) = c

unfoldable pub shared : TxOptions → Session Shared
shared o = record {
  contents = λ addr m. after_sender o m.plan m;
  store = λ addr ring m. record m { ring = ring };
  clock = λ seconds m. (next_clock m.plan, m);
}

module _ (o : TxOptions) where
  pub sender_turns-rx :
      (answers : List TurnAnswer) (w : Profile) (rx : Rx)
      → profile_run o (sender_turns answers) (record w { rx = rx })
        ≡ record (profile_run o (sender_turns answers) w) { rx = rx }
  unfolding profile_run profile_turn
  sender_turns-rx [] w rx = refl
  sender_turns-rx (a ∷ answers) w rx =
      ap (profile_run o (sender_turns answers)) (tx_turn-rx o a w.tx.phase w rx)
      ∙ sender_turns-rx answers (tx_turn o a w.tx.phase w) rx

  -- The turn of the receiver, once the sender has had its own.
  unfoldable pub receiver_turn : Plan → Shared → Rx → Profile
  receiver_turn p m rx =
      rx_turn (turn_answer (next_clock p) true) rx.phase
        (record { ring = (after_sender o p m).0; tx = tx_start; rx = rx })

  pub entry-run :
      (answers : List TurnAnswer) (c : Bool × ℕ) (p : Plan) (m : Shared) (rx : Rx)
      → let turn = receiver_turn ((answers, c) ∷ p) m rx in
        seen (record (after_sender o ((answers, c) ∷ p) m).1 { ring = turn.ring }) turn.rx
        ≡ profile_run o (sender_turns answers ++ turn_rx (turn_answer c true) ∷ []) (seen m rx)
  unfolding receiver_turn after_sender next_clock profile_run profile_turn
  entry-run answers c p m rx =
      let a = turn_answer c true in
      let s = profile_run o (sender_turns answers) (seen m rx_start) in
      let last = turn_rx a ∷ [] in
      sym (
        profile_run-append o (sender_turns answers) last (seen m rx)
        ∙ ap (profile_run o last) (sender_turns-rx answers (seen m rx_start) rx)
        ∙ rx_turn-tx a rx.phase (record { ring = s.ring; tx = tx_start; rx = rx }) s.tx)

  receiver_turn-run :
      (p : Plan) (m : Shared) (rx : Rx)
      → (ts : List Turn) × (seen
            (record (after_sender o p m).1 { ring = (receiver_turn p m rx).ring })
            (receiver_turn p m rx).rx
          ≡ profile_run o ts (seen m rx))
  unfolding receiver_turn after_sender next_clock profile_run profile_turn
  receiver_turn-run [] m rx = (
    turn_rx (turn_answer (true, 0) true) ∷ [],
    sym (
        rx_turn-tx (turn_answer (true, 0) true) rx.phase
          (record { ring = m.ring; tx = tx_start; rx = rx }) m.tx),
  )
  receiver_turn-run ((answers, c) ∷ p) m rx =
      (sender_turns answers ++ turn_rx (turn_answer c true) ∷ [], entry-run answers c p m rx)

  rx_step-run :
      (opt : Options) (addr : ℕ) (rx : Rx) (w : Process Shared)
      → let r = rx_step (shared o) opt addr rx w in
        (ts : List Turn) × (seen r.1.machine r.0 ≡ profile_run o ts (seen w.machine rx))
  unfolding rx_step shared receiver_turn
  rx_step-run opt addr rx w = receiver_turn-run w.machine.plan w.machine rx

  rx_verdict-done : (ph : RxPhase) → rx_verdict ph ≡ some true → (k : ℕ) × (ph ≡ rx_done k)
  unfolding rx_verdict
  rx_verdict-done rx_loop e = absurd (cc)
  rx_verdict-done (rx_loaded t) e = absurd (cc)
  rx_verdict-done (rx_load_len t) e = absurd (cc)
  rx_verdict-done (rx_load_seq t len) e = absurd (cc)
  rx_verdict-done (rx_store_tail t) e = absurd (cc)
  rx_verdict-done (rx_load_flags t) e = absurd (cc)
  rx_verdict-done (rx_confirm t) e = absurd (cc)
  rx_verdict-done (rx_done n) e = (n, refl)
  rx_verdict-done rx_invalid e = absurd (cc)
  rx_verdict-done rx_failed e = absurd (cc)

  -- The receiver has ended with success in a state that both programs' turns come to.
  pub record Arrived (rx : Rx) (m m' : Shared) : Type 0 where
    pub last : Rx
    pub turns : List Turn
    pub reported : ℕ
    pub done : last.phase ≡ rx_done reported
    pub run : seen m' last ≡ profile_run o turns (seen m rx)

  over-Arrived :
      (v : Option Bool) (rx : Rx) (rest : P Shared Bool) (w : Process Shared)
      → rx_verdict rx.phase ≡ v
      → ((rest w).0 ≡ true → Arrived rx w.machine (rest w).1.machine)
      → (unless_over v rest w).0 ≡ true
      → Arrived rx w.machine (unless_over v rest w).1.machine
  unfolding profile_run
  over-Arrived none rx rest w e k h = k h
  over-Arrived (some true) rx rest w e k h =
      let (n, d) = rx_verdict-done rx.phase e in
      record { last = rx; turns = []; reported = n; done = d; run = refl }
  over-Arrived (some false) rx rest w e k h = absurd (cc)

  rx_receives-Arrived :
      (n : ℕ) (opt : Options) (addr : ℕ) (rx : Rx) (w : Process Shared)
      → let r = rx_receives (shared o) n opt addr rx w in
        r.0 ≡ true → Arrived rx w.machine r.1.machine
  unfolding rx_receives
  rx_receives-Arrived zero opt addr rx w h = absurd (cc)
  rx_receives-Arrived (suc n) opt addr rx w h =
      over-Arrived (rx_verdict rx.phase) rx _ w refl
        (λ g.
          let s = rx_step (shared o) opt addr rx w in
          let a = rx_receives-Arrived n opt addr s.0 s.1 g in
          let (ts, e) = rx_step-run opt addr rx w in
          record {
            last = a.last;
            turns = ts ++ a.turns;
            reported = a.reported;
            done = a.done;
            run =
                a.run
                ∙ ap (profile_run o a.turns) e
                ∙ sym (profile_run-append o ts a.turns (seen w.machine rx));
          })
        h

-- On a ring that run_rx has laid out in a window of less than 2^64 bytes with a chunk below
-- 2^32, for a sender of less than 2^64 bytes and a positive chunk whose turns stand in any
-- number between those of the receiver, and for every bound on the receiver's loop: if the loop
-- in the receiver's process ends with success, the ring and the sender are as some run of the
-- two programs leaves them, in which the receiver has ended with success, and it has received
-- exactly the bytes that the sender was asked to send.
pub rx_receives-received :
    (o : TxOptions) (small : o.total_size < 2 ^ 64) (chunks : 0 < o.chunk_size) (size chunk : ℕ)
    (r r' : Ring) (window : size < 2 ^ 64) (word : chunk < 2 ^ 32)
    (laid : rx_setup size chunk r ≡ some r') (n : ℕ) (opt : Options) (addr : ℕ) (plan : Plan)
    (w : Process Shared)
    → w.machine ≡ record { ring = r'; tx = tx_start; plan = plan }
    → let v = rx_receives (shared o) n opt addr rx_start w in
      v.0 ≡ true
      → (rx : Rx) × (ts : List Turn) × (seen v.1.machine rx ≡ profile_run o ts (profile_start r'))
        × (rx.phase ≡ rx_done o.total_size)
        × (rx.received ≡ o.total_size)
unfolding profile_start
rx_receives-received o small chunks size chunk r r' window word laid n opt addr plan w start h =
    let a = rx_receives-Arrived o n opt addr rx_start w h in
    let run = a.run ∙ ap (λ m. profile_run o a.turns (seen m rx_start)) start in
    let same = ap (λ p. p.rx) run in
    let c =
      rx_done-received o small chunks size chunk r r' window word laid a.turns a.reported
        (ap (λ x. x.phase) (sym same) ∙ a.done) in
    (a.last, a.turns, run, a.done ∙ ap rx_done c.1, ap (λ x. x.received) same ∙ c.0)
