-- ===== src/Sisci/Allocation.antt =====
-- ntb-idt-sisci-app.c: allocating a segment keeps the invariant, its error paths included.
use qemu_ntb_switch.Prelude.{
  ℕ, ◌≡◌, refl, List, ◌∷◌, Bool-cases, true, false, inl, inr, if◌then◌else◌, some, none, Option,
  nonzero, arith, not, ◌&&◌, ◌==◌, ltb, leb,
}
use qemu_ntb_switch.Driver.{
  Ntb, ResourceCall, Driver, allocates, ask, note_alloc, is_some, is_aligned,
}
use qemu_ntb_switch.Driver.Correctness.{Preserves}
use qemu_ntb_switch.Sisci.State.{SisciDev, free_local_segment_locked, free_buffer}
use qemu_ntb_switch.Sisci.Segment.{
  undo_alloc, use_buffer, request_buffer, Request, asks, refuses, request_size, fresh_segment,
  alloc_local_segment_locked,
}
use qemu_ntb_switch.Sisci.Sane.{IsSane, free_local_segment_locked-IsSane}

module _ {H : Type 0} (ntb : Ntb H) where
  undo_alloc-IsSane :
      (c : List ResourceCall) (n b ret : ℕ) (w : Driver SisciDev H)
      → IsSane (record w.app { local_buf = none }) c
      → w.app.local_available ≡ false
      → w.calls ≡ allocates b n ∷ c
      → IsSane (undo_alloc ntb n b ret w).1.app (undo_alloc ntb n b ret w).1.calls
  unfolding undo_alloc
  undo_alloc-IsSane c n b ret w g v e = rw e (ground arith)

  none_empty : (b : Option ℕ) → b ≡ none → is_some b ≡ true → ⊥
  unfolding is_some
  none_empty none e s = cc
  none_empty (some x) e s = cc

  unavailable :
      (app : SisciDev) (c : List ResourceCall)
      → IsSane app c
      → app.local_buf ≡ none
      → app.local_available ≡ false
  unavailable app c g v = elim (Bool-cases app.local_available) [
    | inl e ↦ let s = g.available e in absurd (none_empty app.local_buf v s)
    | inr e ↦ e
  ]

  use_buffer-IsSane :
      (id n al b d : ℕ) (w : Driver SisciDev H) (c : List ResourceCall)
      → IsSane w.app c
      → w.app.local_buf ≡ none
      → w.calls ≡ allocates b n ∷ c
      → IsSane
          (use_buffer ntb id n al (some (b, d)) w).1.app
          (use_buffer ntb id n al (some (b, d)) w).1.calls
  unfolding use_buffer
  use_buffer-IsSane id n al b d w c g v e =
      let r = ask (ntb.ntb_mw_set_trans d n) w in
      elim (Bool-cases (ltb 1 al && not (is_aligned d al))) [
        | inl t ↦ rw t (undo_alloc-IsSane c n b _ _ (ground arith) (unavailable w.app c g v) e)
        | inr t ↦ rw t (elim (Bool-cases (nonzero r.0)) [
          | inl f ↦ rw f (undo_alloc-IsSane c n b _ _ (ground arith) (unavailable w.app c g v) e)
          | inr f ↦ rw (f, e) (ground arith)
        ])
      ]

  buffer_noted :
      (id n al : ℕ) (r : Option (ℕ × ℕ)) (w : Driver SisciDev H)
      → IsSane w.app w.calls
      → w.app.local_buf ≡ none
      → let u = (note_alloc n r w).1 in
        IsSane (use_buffer ntb id n al r u).1.app (use_buffer ntb id n al r u).1.calls
  buffer_noted id n al none w g v = unfold use_buffer in g
  buffer_noted id n al (some (b, d)) w g v =
      use_buffer-IsSane id n al b d (note_alloc n (some (b, d)) w).1 w.calls g v refl

  request_buffer-IsSane :
      (id al : ℕ) (q : Request) (w : Driver SisciDev H)
      → IsSane w.app w.calls
      → w.app.local_buf ≡ none
      → IsSane (request_buffer ntb id al q w).1.app (request_buffer ntb id al q w).1.calls
  unfolding request_buffer
  request_buffer-IsSane id al (refuses e) w g v = g
  request_buffer-IsSane id al (asks n) w g v =
      let r = ask (ntb.dma_alloc_coherent n) w in buffer_noted id n al r.0 r.1 g v

  empty : (b : Option ℕ) → is_some b ≡ false → b ≡ none
  unfolding is_some
  empty none e = refl
  empty (some x) e = absurd (cc)

  emptied :
      (b : Option ℕ) (w : Driver SisciDev H)
      → w.app.local_buf ≡ b
      → (free_buffer ntb w.app.local_size b w).1.app.local_buf ≡ none
  unfolding free_buffer
  emptied none w e = e
  emptied (some x) w e = refl

  freed_buffer :
      (w : Driver SisciDev H) (b : Option ℕ)
      → w.app.local_buf ≡ b
      → (free_local_segment_locked ntb w).1.app.local_buf ≡ none
  unfolding free_local_segment_locked
  freed_buffer w b e = emptied w.app.local_buf w refl

  fresh_segment-IsSane :
      (id size : ℕ) (w : Driver SisciDev H)
      → IsSane w.app w.calls
      → w.app.local_buf ≡ none
      → IsSane (fresh_segment ntb id size w).1.app (fresh_segment ntb id size w).1.calls
  unfolding fresh_segment
  fresh_segment-IsSane id size w g v =
      let r = ask ntb.ntb_mw_get_align w in
      elim (Bool-cases (nonzero r.0.0)) [
        | inl e ↦ rw e g
        | inr e ↦ rw e (request_buffer-IsSane id r.0.1 (request_size size r.0.2 r.0.3) r.1 g v)
      ]

  pub alloc_local_segment_locked-IsSane :
      (buffer_size id asked : ℕ)
      → Preserves IsSane (alloc_local_segment_locked ntb buffer_size id asked)
  unfolding alloc_local_segment_locked
  alloc_local_segment_locked-IsSane buffer_size id asked w g =
      let a = w.app in
      let size : ℕ = if asked == 0 then buffer_size else asked in
      elim (Bool-cases a.removed) [
        | inl e ↦ simp e g
        | inr e ↦ simp e (elim (Bool-cases (is_some a.local_buf)) [
          | inr f ↦ rw f (fresh_segment-IsSane id size w g (empty a.local_buf f))
          | inl f ↦ rw f (elim (Bool-cases (a.local_segment_id == id && leb size a.local_size)) [
            | inl t ↦ rw t g
            | inr t ↦ rw t (elim (Bool-cases a.local_available) [
              | inl b ↦ simp b g
              | inr b ↦ simp b (
                  let u = free_local_segment_locked ntb w in
                  fresh_segment-IsSane id size u.1 (free_local_segment_locked-IsSane ntb w g)
                    (freed_buffer w a.local_buf refl))
            ])
          ])
        ])
      ]
