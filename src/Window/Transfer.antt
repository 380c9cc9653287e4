-- ===== src/Window/Transfer.antt =====
-- Reads and writes of a window that no alias serves, at the level of the two handlers.
use qemu_ntb_switch.Prelude.{ℕ, ◌+◌, ◌%◌, ◌^◌, ◌≤◌, ◌<◌, ◌≡◌, ◌⊎◌, arith, true, some, ap, ◌∙◌}
use qemu_ntb_switch.Shm.{Slot}
use qemu_ntb_switch.Device.{World, ok, fault, out_of_bounds, ◌>>=◌, >>=-ok}
use qemu_ntb_switch.Window.{
  Host, PeerMemory, load, store, idt_bar_read, idt_bar_write, peer_offset, ensure_peer_mem,
  window_size,
}
use qemu_ntb_switch.Window.Shown.{config_of}
use qemu_ntb_switch.Window.Bytes.{load-store}

-- The world in which the other machine's memory is mapped.
abbrev pub mapped_world : World → World
mapped_world w = record w { dev = record w.dev { peer_mem = true } }

-- The handlers' own test: the window is active and the address is not past its limit.
abbrev pub Inside : Slot → ℕ → ℕ → World → Type 0
Inside p idx addr w =
    (0 < (config_of p idx w).limit) × (w.dev.bars_addr idx + addr ≤ (config_of p idx w).limit)

-- The whole access lies in the file.
abbrev pub InFile : Slot → ℕ → ℕ → ℕ → World → PeerMemory → Type 0
InFile p idx addr size w mem = peer_offset (config_of p idx w) + addr + size ≤ mem.size

ensure_lem : (h : Host) (w : World) → w.dev.peer_mem ≡ true → ensure_peer_mem h w ≡ ok true w
unfolding ensure_peer_mem
ensure_lem h w e = rw e

module _ (h : Host) (mem : PeerMemory) (p : Slot) (idx addr size : ℕ) (w : World) where
  module _ (e : w.dev.slot ≡ some p) (lt : idx < 6) where
    idt_bar_write_lem :
        (value : ℕ)
        → Inside p idx addr w
        → w.dev.peer_mem ≡ true
        → (size ≡ 4) ⊎ (size ≡ 8)
        → InFile p idx addr size w mem
        → idt_bar_write h mem addr value size idx w
          ≡ ok
              (record mem {
                bytes = store mem.bytes (peer_offset (config_of p idx w) + addr) size value;
              })
              w
    unfolding idt_bar_write
    idt_bar_write_lem value inside mapped s file = ground arith

    idt_bar_read_lem :
        Inside p idx addr w
        → w.dev.peer_mem ≡ true
        → (size ≡ 4) ⊎ (size ≡ 8)
        → InFile p idx addr size w mem
        → idt_bar_read h mem addr size idx w
          ≡ ok (load mem.bytes (peer_offset (config_of p idx w) + addr) size) w
    unfolding idt_bar_read
    idt_bar_read_lem inside mapped s file = ground arith

    -- For one of the six BARs of a connected device with the other machine's memory mapped, a
    -- write of 4 or 8 bytes inside an active window, but not wholly inside the file, goes
    -- outside of the mapping: the handlers do not compare with its size.
    pub idt_bar_write-unchecked :
        (value : ℕ)
        → Inside p idx addr w
        → w.dev.peer_mem ≡ true
        → (size ≡ 4) ⊎ (size ≡ 8)
        → mem.size < peer_offset (config_of p idx w) + addr + size
        → idt_bar_write h mem addr value size idx w ≡ fault out_of_bounds
    unfolding idt_bar_write
    idt_bar_write-unchecked value inside mapped s past = ground arith

-- For one of the six BARs of a connected device with the other machine's memory mapped, what is
-- written with 4 or 8 bytes to an address inside an active window and inside the file is read
-- back from it, cut to the access's size, with the device and the registers unchanged.
pub idt_bar_read-idt_bar_write :
    (h : Host) (mem : PeerMemory) (p : Slot) (idx addr size value : ℕ) (w : World)
    → w.dev.slot ≡ some p
    → idx < 6
    → Inside p idx addr w
    → w.dev.peer_mem ≡ true
    → (size ≡ 4) ⊎ (size ≡ 8)
    → InFile p idx addr size w mem
    → (idt_bar_write h mem addr value size idx >>= λ mem'. idt_bar_read h mem' addr size idx) w
      ≡ ok (value % 256 ^ size) w
idt_bar_read-idt_bar_write h mem p idx addr size value w e lt inside mapped s file =
    let at : ℕ = peer_offset (config_of p idx w) + addr in
    let mem' : PeerMemory = record mem { bytes = store mem.bytes at size value } in
    >>=-ok (idt_bar_write h mem addr value size idx) (λ m. idt_bar_read h m addr size idx) w w mem'
      (idt_bar_write_lem h mem p idx addr size w e lt value inside mapped s file)
    ∙ idt_bar_read_lem h mem' p idx addr size w e lt inside mapped s file
    ∙ ap (λ v. ok v w) (load-store mem.bytes at size value)

-- For one of the six BARs of a connected device with the other machine's memory mapped, a write
-- of 4 or 8 bytes inside the file at the limit itself of a window, which is not the window's
-- start, is carried out, although the window that an alias would show ends before that address.
pub idt_bar_write-at_limit :
    (h : Host) (mem : PeerMemory) (p : Slot) (idx addr size value : ℕ) (w : World)
    → w.dev.slot ≡ some p
    → idx < 6
    → 0 < addr
    → w.dev.bars_addr idx + addr ≡ (config_of p idx w).limit
    → w.dev.peer_mem ≡ true
    → (size ≡ 4) ⊎ (size ≡ 8)
    → InFile p idx addr size w mem
    → (window_size (config_of p idx w) (w.dev.bars_addr idx) ≤ addr)
      × (idt_bar_write h mem addr value size idx w
          ≡ ok
              (record mem {
                bytes = store mem.bytes (peer_offset (config_of p idx w) + addr) size value;
              })
              w)
unfolding window_size
idt_bar_write-at_limit h mem p idx addr size value w e lt pos at mapped s file =
    (omega arith, idt_bar_write_lem h mem p idx addr size w e lt value (omega arith) mapped s file)
