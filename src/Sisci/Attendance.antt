-- ===== src/Sisci/Attendance.antt =====
-- ntb-idt-sisci-app.c: the service work keeps the invariant, whatever commands arrive.
use qemu_ntb_switch.Prelude.{
  ℕ, zero, suc, ◌≡◌, refl, List, Bool-cases, true, false, inl, inr, some, none, Option, nonzero,
  arith, not, ◌||◌, ◌==◌, u32,
}
use qemu_ntb_switch.Driver.{Ntb, ResourceCall, Driver, ask, note_map, recv_cmd, link_is_up, is_some}
use qemu_ntb_switch.Driver.Correctness.{Preserves, recv_cmd-Preserves}
use qemu_ntb_switch.Sisci.State.{
  SisciDev, unmap_peer, mark_peer_unready_locked, sisci_set_link, sisci_cmd_segid, sisci_cmd_size,
  sisci_cmd_xlat, sisci_cmd_avail, sisci_cmd_unavail,
}
use qemu_ntb_switch.Sisci.Segment.{publish_available_locked}
use qemu_ntb_switch.Sisci.Service.{
  use_mapping, setup_peer_mw_locked, sisci_command, sisci_commands, act_on, sisci_service_work,
}
use qemu_ntb_switch.Sisci.Sane.{
  IsSane, mark_peer_unready_locked-IsSane, mark_peer_unready_locked-mends, sisci_set_link-IsSane,
  publish_available_locked-IsSane,
}

-- The driver serves: the link is up and it is not being removed.
pub record IsServing (app : SisciDev) (calls : List ResourceCall) : Type 0 where
  pub sane : IsSane app calls
  pub link : app.link_up ≡ true
  pub stays : app.removed ≡ false

module _ {H : Type 0} (ntb : Ntb H) where
  no_mapping : (io : Option ℕ) → is_some io ≡ false → io ≡ none
  unfolding is_some
  no_mapping none e = refl
  no_mapping (some p) e = absurd (cc)

  mapping_noted :
      (phys size : ℕ) (r : Option ℕ) (w : Driver SisciDev H)
      → IsServing w.app w.calls
      → is_some w.app.peer_io ≡ false
      → w.app.remote_announced ≡ true
      → let u = (note_map r w).1 in
        IsServing (use_mapping ntb phys size r u).1.app (use_mapping ntb phys size r u).1.calls
  unfolding use_mapping is_some
  mapping_noted phys size none w g v a = g
  mapping_noted phys size (some p) w g v a =
      let s = g.sane in
      let l = g.link in
      let r = g.stays in
      let io = no_mapping w.app.peer_io v in record { sane = ground arith; link = l; stays = r }

  setup_peer_mw_locked-IsServing : Preserves IsServing (setup_peer_mw_locked ntb)
  unfolding setup_peer_mw_locked
  setup_peer_mw_locked-IsServing w g =
      let a = w.app in
      let r = ask ntb.ntb_peer_mw_get_addr w in
      let t = ask (ntb.ntb_peer_mw_set_trans a.remote_xlat a.remote_size) r.1 in
      elim (Bool-cases (
        is_some a.peer_io
        || (not a.remote_announced || (a.remote_xlat == 0 || a.remote_size == 0)))) [
          | inl e ↦ rw e g
          | inr e ↦ rw e (elim (Bool-cases (nonzero r.0.0)) [
            | inl f ↦ rw f g
            | inr f ↦ rw f (elim (Bool-cases (nonzero t.0)) [
              | inl h ↦ rw h g
              | inr h ↦ rw h (
                  let m = ask (ntb.ioremap_wc r.0.1 r.0.2) t.1 in
                  mapping_noted r.0.1 r.0.2 m.0 m.1 g (ground arith) (ground arith))
            ])
          ])
        ]

  kept :
      (io : Option ℕ) (w : Driver SisciDev H)
      → w.app.link_up ≡ true
      → w.app.removed ≡ false
      → ((unmap_peer ntb io w).1.app.link_up ≡ true) × ((unmap_peer ntb io w).1.app.removed ≡ false)
  unfolding unmap_peer
  kept none w l r = (l, r)
  kept (some p) w l r = (l, r)

  mark_peer_unready_locked-IsServing : Preserves IsServing (mark_peer_unready_locked ntb)
  unfolding mark_peer_unready_locked
  mark_peer_unready_locked-IsServing w g =
      let k = kept w.app.peer_io w g.link g.stays in
      record { sane = mark_peer_unready_locked-IsSane ntb w g.sane; link = k.0; stays = k.1 }

  segid-IsServing :
      (value : ℕ) (w : Driver SisciDev H)
      → IsServing w.app w.calls
      → let u = (mark_peer_unready_locked ntb w).1 in
        IsServing (record u.app { remote_segment_id = u32 value; remote_announced = false }) u.calls
  unfolding mark_peer_unready_locked
  segid-IsServing value w g =
      let m = mark_peer_unready_locked-IsServing w g in
      let s = m.sane in let l = m.link in let r = m.stays in ground arith

  avail-IsServing :
      (value : ℕ) (w : Driver SisciDev H)
      → IsServing w.app w.calls
      → let v = record w {
        app = record w.app { remote_segment_id = u32 value; remote_announced = true };
      } in
        IsServing (setup_peer_mw_locked ntb v).1.app (setup_peer_mw_locked ntb v).1.calls
  avail-IsServing value w g =
      let s = g.sane in
      let l = g.link in let r = g.stays in setup_peer_mw_locked-IsServing _ (ground arith)

  unavail-IsServing :
      (w : Driver SisciDev H)
      → IsServing w.app w.calls
      → let v = record w { app = record w.app { remote_announced = false } } in
        IsServing (mark_peer_unready_locked ntb v).1.app (mark_peer_unready_locked ntb v).1.calls
  unfolding mark_peer_unready_locked
  unavail-IsServing w g =
      let s = g.sane in
      let v = record w { app = record w.app { remote_announced = false } } in
      let k = kept w.app.peer_io v g.link g.stays in
      record { sane = mark_peer_unready_locked-mends ntb v (ground arith); link = k.0; stays = k.1 }

  sisci_command-IsServing : (cmd value : ℕ) → Preserves IsServing (sisci_command ntb cmd value)
  unfolding sisci_command
  sisci_command-IsServing cmd value w g = elim (Bool-cases (cmd == sisci_cmd_segid)) [
    | inl e ↦ rw e (segid-IsServing value w g)
    | inr e ↦ rw e (elim (Bool-cases (cmd == sisci_cmd_size)) [
      | inl f ↦ rw f (let s = g.sane in let l = g.link in let r = g.stays in ground arith)
      | inr f ↦ rw f (elim (Bool-cases (cmd == sisci_cmd_xlat)) [
        | inl h ↦ rw h (let s = g.sane in let l = g.link in let r = g.stays in ground arith)
        | inr h ↦ rw h (elim (Bool-cases (cmd == sisci_cmd_avail)) [
          | inl i ↦ rw i (avail-IsServing value w g)
          | inr i ↦ rw i (elim (Bool-cases (cmd == sisci_cmd_unavail)) [
            | inl j ↦ rw j (elim (Bool-cases (w.app.remote_segment_id == u32 value)) [
              | inl k ↦ rw k (unavail-IsServing w g)
              | inr k ↦ rw k g
            ])
            | inr j ↦ rw j g
          ])
        ])
      ])
    ])
  ]

  next :
      (n : ℕ) (c : Option (ℕ × ℕ)) (w : Driver SisciDev H)
      → IsServing w.app w.calls
      → Preserves IsServing (sisci_commands ntb n)
      → IsServing
          (act_on ntb c (sisci_commands ntb n) w).1.app
          (act_on ntb c (sisci_commands ntb n) w).1.calls
  unfolding act_on
  next n none w g ih = g
  next n (some (cmd, value)) w g ih =
      let m = sisci_command ntb cmd value w in ih m.1 (sisci_command-IsServing cmd value w g)

  sisci_commands-IsServing : (most : ℕ) → Preserves IsServing (sisci_commands ntb most)
  unfolding sisci_commands
  sisci_commands-IsServing zero w g = g
  sisci_commands-IsServing (suc n) w g =
      let r = recv_cmd ntb w in
      next n r.0 r.1 (recv_cmd-Preserves IsServing ntb w g) (sisci_commands-IsServing n)

  served :
      (most : ℕ) (w : Driver SisciDev H)
      → IsSane w.app w.calls
      → w.app.removed ≡ false
      → let v = (sisci_set_link true w).1 in
        let c = (sisci_commands ntb most v).1 in
        IsSane (publish_available_locked ntb c).1.app (publish_available_locked ntb c).1.calls
  unfolding sisci_set_link
  served most w g r =
      let v = (sisci_set_link true w).1 in
      let s =
        sisci_commands-IsServing most v
          (record { sane = sisci_set_link-IsSane true w g; link = refl; stays = r }) in
      publish_available_locked-IsSane ntb (sisci_commands ntb most v).1 (s.sane)

  pub sisci_service_work-IsSane : (most : ℕ) → Preserves IsSane (sisci_service_work ntb most)
  unfolding sisci_service_work
  sisci_service_work-IsSane most w g =
      let u = link_is_up ntb w.app.peer_idx w in
      let v = sisci_set_link u.0 u.1 in
      let s = sisci_set_link-IsSane u.0 u.1 g in
      elim (Bool-cases w.app.removed) [
        | inl e ↦ simp e g
        | inr e ↦ simp e (elim (Bool-cases u.0) [
          | inr f ↦ rw f (mark_peer_unready_locked-IsSane ntb _ (sisci_set_link-IsSane false u.1 g))
          | inl f ↦ rw f (served most u.1 g e)
        ])
      ]
