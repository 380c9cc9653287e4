-- ===== src/Tools/Loops/Kept.antt =====
-- user_src/ntb_profiling.c: the loops take and give back nothing.
use qemu_ntb_switch.Prelude.{
  ℕ, zero, suc, Bool, true, false, Option, some, none, List, if◌then◌else◌,
}
use qemu_ntb_switch.Ring.{Tx, Rx}
use qemu_ntb_switch.Tools.Options.{Options}
use qemu_ntb_switch.Tools.Process.{Process, P, Resource, pure}
use qemu_ntb_switch.Tools.Backend.{Endpoint, Backend, Holds, IsClean}
use qemu_ntb_switch.Tools.Loops.{
  Session, unless_over, rx_verdict, tx_verdict, rx_step, rx_receives, tx_step, tx_searches,
  tx_sends, calls_barrier, is_searching,
}

-- What a call keeps, whatever it answers.
abbrev pub Keeps : {H A : Type 0} → List Resource → Bool → P H A → Type 0
Keeps {H} l bad m = (w : Process H) → Holds l bad w → Holds l bad (m w).1

module _ {H : Type 0} (l : List Resource) (bad : Bool) where
  unless_over-Keeps :
      (v : Option Bool) (rest : P H Bool) → Keeps l bad rest → Keeps l bad (unless_over v rest)
  unless_over-Keeps none rest k w h = k w h
  unless_over-Keeps (some b) rest k w h = h

  if-Keeps :
      {A : Type 0} (b : Bool) (m n : P H A)
      → Keeps l bad m
      → Keeps l bad n
      → Keeps l bad (if b then m else n)
  if-Keeps true m n k j = k
  if-Keeps false m n k j = j

module _ {H : Type 0} (session : Session H) (l : List Resource) (bad : Bool) where
  rx_step-Keeps : (opt : Options) (addr : ℕ) (rx : Rx) → Keeps l bad (rx_step session opt addr rx)
  unfolding rx_step
  rx_step-Keeps opt addr rx w h = record { live = h.live; misused = h.misused }

  pub rx_receives-Keeps :
      (n : ℕ) (opt : Options) (addr : ℕ) (rx : Rx) → Keeps l bad (rx_receives session n opt addr rx)
  unfolding rx_receives
  rx_receives-Keeps zero opt addr rx w h = h
  rx_receives-Keeps (suc n) opt addr rx w h =
      unless_over-Keeps l bad (rx_verdict rx.phase) _
        (λ v g.
          let s = rx_step session opt addr rx v in
          rx_receives-Keeps n opt addr s.0 s.1 (rx_step-Keeps opt addr rx v g))
        w h

module _ {H C : Type 0} (session : Session H) {backend : Backend H C} (clean : IsClean backend)
    (l : List Resource) (bad : Bool) where
  tx_step-Keeps :
      (opt : Options) (e : Endpoint C) (t : Tx) → Keeps l bad (tx_step session backend opt e t)
  unfolding tx_step
  tx_step-Keeps opt e t w h =
      let g =
        if-Keeps l bad (calls_barrier t.phase) (backend.store_barrier e) (pure true)
          (clean.barrier e l bad) (λ v k. k) w h in
      record { live = g.live; misused = g.misused }

  pub tx_searches-Keeps :
      (n : ℕ) (opt : Options) (e : Endpoint C) (t : Tx)
      → Keeps l bad (tx_searches session backend n opt e t)
  unfolding tx_searches
  tx_searches-Keeps zero opt e t w h = h
  tx_searches-Keeps (suc n) opt e t w h =
      if-Keeps l bad (is_searching t.phase) _ (pure t)
        (λ v g.
          let s = tx_step session backend opt e t v in
          tx_searches-Keeps n opt e s.0 s.1 (tx_step-Keeps opt e t v g))
        (λ v g. g) w h

  pub tx_sends-Keeps :
      (n : ℕ) (opt : Options) (e : Endpoint C) (t : Tx)
      → Keeps l bad (tx_sends session backend n opt e t)
  unfolding tx_sends
  tx_sends-Keeps zero opt e t w h = h
  tx_sends-Keeps (suc n) opt e t w h =
      unless_over-Keeps l bad (tx_verdict t.phase) _
        (λ v g.
          let s = tx_step session backend opt e t v in
          tx_sends-Keeps n opt e s.0 s.1 (tx_step-Keeps opt e t v g))
        w h
