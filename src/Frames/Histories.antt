-- ===== src/Frames/Histories.antt =====
-- ntb-idt-app.c: what holds after any history of service work, reads, writes and moves of the
-- hardware, and after the removal.
use qemu_ntb_switch.Prelude.{
  ℕ, ◌≡◌, List, [], ◌∷◌, Bool, Bool-cases, true, false, inl, inr, some, none, Option, nonzero,
  arith, not, ◌||◌, ◌==◌, ltb,
}
use qemu_ntb_switch.Driver.{Ntb, D, pure, ◌>>=◌, ◌>>◌, tell, ask, is_some}
use qemu_ntb_switch.Driver.Correctness.{Preserves, send_cmd-Preserves}
use qemu_ntb_switch.Driver.Ledger.{holding}
use qemu_ntb_switch.Frames.State.{
  AppDev, FrameMemory, can_read, can_write, app_set_removed, app_overtaken,
}
use qemu_ntb_switch.Frames.Service.{app_service_work}
use qemu_ntb_switch.Frames.Transfer.{
  Count, fails, counts, u32_max, tx_payload_size, commit_through, tx_commit_locked, after_wait,
  write_through, write_locked, app_write, read_begins, copy_frame, read_ends, read_frame_through,
  app_read,
}
use qemu_ntb_switch.Frames.Requests.{
  Arrival, no_frame, frame, rx_wait_begins, rx_wait_through, app_rx_wait, app_tx_commit,
}
use qemu_ntb_switch.Frames.Probe.{app_fresh, app_remove}
use qemu_ntb_switch.Frames.Steady.{
  IsSteady, app_set_removed-IsSteady, app_overtaken-IsSteady, free_inbound_mw-holding,
}
use qemu_ntb_switch.Frames.Attendance.{app_service_work-IsSteady}

-- What can happen to a driver. While a call waits other things happen, before it in the history; the
-- second argument is what the wait returns. The service work that runs between the copy of a read
-- and its end is part of the read.
pub data AppEvent (H : Type 0) : Type 0 where
  serves : ℕ → AppEvent H
  writes : Bool → ℕ → ℕ → AppEvent H
  commits : Bool → ℕ → Bool → ℕ → AppEvent H
  reads : Bool → ℕ → List ℕ → ℕ → AppEvent H
  rx_waits : Bool → ℕ → List ℕ → Bool → AppEvent H
  shifts : (H → H) → AppEvent H
  -- The removal sets its flag.
  begins_removal : AppEvent H
  -- The service work that was running then has set `peer_ready` after it.
  overtakes : AppEvent H

module _ {H : Type 0} (ntb : Ntb H) (mem : FrameMemory H) (buffer_size : ℕ) where
  unfoldable pub services : List ℕ → D AppDev H (Unit {0})
  services [] = pure tt
  services (most ∷ ms) = do app_service_work ntb mem buffer_size most; services ms

  unfoldable pub app_event : AppEvent H → D AppDev H (Unit {0})
  app_event (serves most) = app_service_work ntb mem buffer_size most
  app_event (writes nonblock waited count) = do
    n ← app_write ntb mem nonblock (pure waited) count
    pure tt
  app_event (commits nonblock waited in_fails len) = do
    ret ← app_tx_commit ntb mem nonblock (pure waited) in_fails len
    pure tt
  app_event (reads nonblock waited others count) = do
    n ← app_read mem nonblock (pure waited) (services others) count
    pure tt
  app_event (rx_waits nonblock waited others out_fails) = do
    n ← app_rx_wait nonblock (pure waited) (services others) out_fails
    pure tt
  app_event (shifts f) = tell f
  app_event begins_removal = app_set_removed
  app_event overtakes = app_overtaken

  unfoldable pub app_history : List (AppEvent H) → D AppDev H (Unit {0})
  app_history [] = pure tt
  app_history (e ∷ es) = do app_event e; app_history es

  services-IsSteady : (ms : List ℕ) → Preserves IsSteady (services ms)
  unfolding services
  services-IsSteady [] w g = g
  services-IsSteady (most ∷ ms) w g =
      services-IsSteady ms (app_service_work ntb mem buffer_size most w).1
        (app_service_work-IsSteady ntb mem buffer_size most w g)

  commit_through-IsSteady :
      (len : ℕ) (io : Option ℕ) → Preserves IsSteady (commit_through ntb mem len io)
  unfolding commit_through
  commit_through-IsSteady len none w g = g
  commit_through-IsSteady len (some io) w g = elim (Bool-cases (not w.app.peer_ready)) [
    | inl e ↦ simp e g
    | inr e ↦ simp e (elim (Bool-cases (ltb u32_max len || ltb (tx_payload_size w.app) len)) [
      | inl f ↦ rw f g
      | inr f ↦ rw f (send_cmd-Preserves IsSteady ntb _ _ _ _ (ground arith))
    ])
  ]

  tx_commit_locked-IsSteady : (len : ℕ) → Preserves IsSteady (tx_commit_locked ntb mem len)
  unfolding tx_commit_locked
  tx_commit_locked-IsSteady len w g = elim (Bool-cases w.app.removed) [
    | inl e ↦ simp e g
    | inr e ↦ simp e (commit_through-IsSteady len w.app.peer_io w g)
  ]

  tx_commit-IsSteady :
      (nonblock : Bool) (waited : ℕ) (in_fails : Bool) (len : ℕ)
      → Preserves IsSteady (app_tx_commit ntb mem nonblock (pure waited) in_fails len)
  unfolding app_tx_commit
  tx_commit-IsSteady nonblock waited true len w g = g
  tx_commit-IsSteady true waited false len w g = elim (Bool-cases (can_write w.app)) [
    | inl e ↦ rw e (tx_commit_locked-IsSteady len w g)
    | inr e ↦ rw e g
  ]
  tx_commit-IsSteady false waited false len w g = elim (Bool-cases (nonzero waited)) [
    | inl e ↦ rw e g
    | inr e ↦ rw e (tx_commit_locked-IsSteady len w g)
  ]

  write_through-IsSteady :
      (count : ℕ) (io : Option ℕ) → Preserves IsSteady (write_through ntb mem count io)
  unfolding write_through
  write_through-IsSteady count none w g = g
  write_through-IsSteady count (some io) w g =
      let c = ask (mem.copy_from_user io count) w in
      elim (Bool-cases (not w.app.peer_ready)) [
        | inl e ↦ simp e g
        | inr e ↦
            simp e (elim (Bool-cases (ltb u32_max count || ltb (tx_payload_size w.app) count)) [
              | inl f ↦ rw f g
              | inr f ↦ rw f (elim (Bool-cases c.0) [
                | inl h ↦ rw h g
                | inr h ↦ rw h (tx_commit_locked-IsSteady count c.1 g)
              ])
            ])
      ]

  write_locked-IsSteady : (count : ℕ) → Preserves IsSteady (write_locked ntb mem count)
  unfolding write_locked
  write_locked-IsSteady count w g = elim (Bool-cases w.app.removed) [
    | inl e ↦ simp e g
    | inr e ↦ simp e (write_through-IsSteady count w.app.peer_io w g)
  ]

  after_wait-IsSteady :
      (nonblock : Bool) (test : AppDev → Bool) (waited : ℕ) (act : D AppDev H Count)
      → Preserves IsSteady act
      → Preserves IsSteady (after_wait nonblock test (pure waited) act)
  unfolding after_wait
  after_wait-IsSteady true test waited act k w g = elim (Bool-cases (test w.app)) [
    | inl e ↦ rw e (k w g)
    | inr e ↦ rw e g
  ]
  after_wait-IsSteady false test waited act k w g = elim (Bool-cases (nonzero waited)) [
    | inl e ↦ rw e g
    | inr e ↦ rw e (k w g)
  ]

  copy_frame-IsSteady :
      (buf : Option ℕ) (len : ℕ) → Preserves IsSteady (copy_frame {H = H} mem buf len)
  unfolding copy_frame
  copy_frame-IsSteady none len w g = g
  copy_frame-IsSteady (some b) len w g = g

  read_through-IsSteady :
      (others : List ℕ) (c : Count)
      → Preserves IsSteady (read_frame_through mem (services others) c)
  unfolding read_frame_through read_ends
  read_through-IsSteady others (fails ret) w g = g
  read_through-IsSteady others (counts len) w g =
      let c = copy_frame mem w.app.rx_buf len w in
      let h = copy_frame-IsSteady w.app.rx_buf len w g in
      elim (Bool-cases c.0) [
        | inl e ↦ rw e h
        | inr e ↦ rw e (let s = services-IsSteady others c.1 h in ground arith)
      ]

  rx_wait_through-IsSteady :
      (others : List ℕ) (out_fails : Bool) (a : Arrival)
      → Preserves IsSteady (rx_wait_through (services others) out_fails a)
  unfolding rx_wait_through read_ends
  rx_wait_through-IsSteady others out_fails (no_frame ret) w g = g
  rx_wait_through-IsSteady others true (frame len seq) w g = g
  rx_wait_through-IsSteady others false (frame len seq) w g =
      let s = services-IsSteady others w g in ground arith

  rx_wait-IsSteady :
      (nonblock : Bool) (waited : ℕ) (others : List ℕ) (out_fails : Bool)
      → Preserves IsSteady (app_rx_wait nonblock (pure waited) (services others) out_fails)
  unfolding app_rx_wait
  rx_wait-IsSteady true waited others out_fails w g = elim (Bool-cases (can_read w.app)) [
    | inl e ↦ rw e (rx_wait_through-IsSteady others out_fails (rx_wait_begins w.app) w g)
    | inr e ↦ rw e g
  ]
  rx_wait-IsSteady false waited others out_fails w g = elim (Bool-cases (nonzero waited)) [
    | inl e ↦ rw e g
    | inr e ↦ rw e (rx_wait_through-IsSteady others out_fails (rx_wait_begins w.app) w g)
  ]

  app_event-IsSteady : (e : AppEvent H) → Preserves IsSteady (app_event e)
  unfolding app_event app_write app_read
  app_event-IsSteady (serves most) w g = app_service_work-IsSteady ntb mem buffer_size most w g
  app_event-IsSteady (writes nonblock waited count) w g = elim (Bool-cases (count == 0)) [
    | inl e ↦ rw e g
    | inr e ↦
        rw e (after_wait-IsSteady nonblock can_write waited _ (write_locked-IsSteady count) w g)
  ]
  app_event-IsSteady (commits nonblock waited in_fails len) w g =
      tx_commit-IsSteady nonblock waited in_fails len w g
  app_event-IsSteady (reads nonblock waited others count) w g = elim (Bool-cases (count == 0)) [
    | inl e ↦ rw e g
    | inr e ↦ rw e (
        after_wait-IsSteady nonblock can_read waited _
          (λ v h. read_through-IsSteady others (read_begins v.app count) v h) w g)
  ]
  app_event-IsSteady (rx_waits nonblock waited others out_fails) w g =
      rx_wait-IsSteady nonblock waited others out_fails w g
  app_event-IsSteady (shifts f) w g = g
  app_event-IsSteady begins_removal w g = app_set_removed-IsSteady w g
  app_event-IsSteady overtakes w g = app_overtaken-IsSteady w g

  pub continued-IsSteady : (es : List (AppEvent H)) → Preserves IsSteady (app_history es)
  unfolding app_history
  continued-IsSteady [] w g = g
  continued-IsSteady (e ∷ es) w g =
      continued-IsSteady es (app_event e w).1 (app_event-IsSteady e w g)

  app_fresh-IsSteady : (peer : ℕ) → IsSteady (app_fresh peer) []
  unfolding app_fresh is_some
  app_fresh-IsSteady peer = ground arith

  app_history-IsSteady :
      (es : List (AppEvent H)) (peer : ℕ) (h : H)
      → let w = (app_history es (record { app = app_fresh peer; hw = h; calls = [] })).1 in
        IsSteady w.app w.calls
  app_history-IsSteady es peer h = continued-IsSteady es _ (app_fresh-IsSteady peer)

  -- After any history of service work, reads, writes, commits, waits for a frame (reads and
  -- waits with service work also between the copy and its end), moves of the hardware, and the
  -- removal's flag, with a readiness that service work may write after it, on a freshly probed
  -- frame driver: it is ready only with the link up, a frame that waits on a driver whose
  -- removal has not begun fits behind the header in a buffer that is there, and the driver
  -- holds exactly the buffer, with its size, and the mapping that its fields name. Its removal,
  -- with any such history while it is under way, leaves no buffer allocated and no window
  -- mapped, and nothing was freed or unmapped twice.
  pub app_remove-releases :
      (es late : List (AppEvent H)) (peer : ℕ) (h : H)
      → let w = (app_history es (record { app = app_fresh peer; hw = h; calls = [] })).1 in
        IsSteady w.app w.calls
        × (holding (app_remove ntb (app_history late) w).1.calls
            ≡ some (record { buffer = none; mapping = none }))
  unfolding app_remove
  app_remove-releases es late peer h =
      let w = (app_history es (record { app = app_fresh peer; hw = h; calls = [] })).1 in
      let g = app_history-IsSteady es peer h in
      let l = (app_history late (app_set_removed w).1).1 in
      let k = continued-IsSteady late (app_set_removed w).1 (app_set_removed-IsSteady w g) in
      (g, free_inbound_mw-holding ntb l k)
