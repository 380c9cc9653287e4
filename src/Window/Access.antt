-- ===== src/Window/Access.antt =====
-- map_peer_shm, idt_bar_read and idt_bar_write: an access of a window that no alias serves.
use qemu_ntb_switch.Prelude.{
  ℕ, zero, suc, ◌+◌, ◌*◌, ◌/◌, ◌%◌, Bool, true, false, not, ◌||◌, none, some, ltb, leb, ◌==◌,
  if◌then◌else◌, update,
}
use qemu_ntb_switch.Shm.{BarConfig}
use qemu_ntb_switch.Device.{
  M, pure, fail, out_of_bounds, assert, call, error_report, get_dev, put_dev, get_bar_config, ◌>>=◌,
  ◌>>◌,
}
use qemu_ntb_switch.Window.Environment.{Host}
use qemu_ntb_switch.Window.Alias.{peer_offset}

-- The other machine's memory as it is mapped: the bytes of the file.
pub record PeerMemory : Type 0 where
  pub size : ℕ
  pub bytes : ℕ → ℕ

-- The number whose `n` bytes, lowest first, are at `a`.
unfoldable pub load : (ℕ → ℕ) → ℕ → ℕ → ℕ
load bytes a zero = 0
load bytes a (suc n) = bytes a % 256 + 256 * load bytes (a + 1) n

unfoldable pub store : (ℕ → ℕ) → ℕ → ℕ → ℕ → ℕ → ℕ
store bytes a zero v = bytes
store bytes a (suc n) v = update (store bytes (a + 1) n (v / 256)) a (v % 256)

-- `true` where the pointer is set, from an earlier access or by this one.
unfoldable pub map_peer_shm : Host → M Bool
map_peer_shm h =
    if not h.opens
    then (do call error_report; pure false)
    else (elim h.file_size [ none ↦ pure false | some size ↦ pure h.mmaps ])

unfoldable pub ensure_peer_mem : Host → M Bool
unfolding map_peer_shm
ensure_peer_mem h = do
  s ← get_dev
  if s.peer_mem then pure true else (do
    mapped ← map_peer_shm h
    s' ← get_dev
    put_dev (record s' { peer_mem = mapped })
    pure mapped)

-- The address check of both handlers; `false` is a refused access.
unfoldable pub check_window : BarConfig → ℕ → M Bool
check_window c a =
    if c.limit == 0 || ltb c.limit a then (do call error_report; pure false) else pure true

-- The bytes from the window's place on; beyond the mapped file there is no memory.
unfoldable pub check_peer_mem : PeerMemory → ℕ → ℕ → M (Unit {0})
check_peer_mem mem a size = if leb (a + size) mem.size then pure tt else fail out_of_bounds

unfoldable pub idt_bar_read : Host → PeerMemory → ℕ → ℕ → ℕ → M ℕ
unfolding ensure_peer_mem check_window check_peer_mem load peer_offset
idt_bar_read h mem addr size idx = do
  s ← get_dev
  c ← get_bar_config idx
  inside ← check_window c (s.bars_addr idx + addr)
  if not inside then pure 0 else (do
    mapped ← ensure_peer_mem h
    if not mapped then pure 0 else (do
      assert (size == 4 || size == 8)
      check_peer_mem mem (peer_offset c + addr) size
      pure (load mem.bytes (peer_offset c + addr) size)))

unfoldable pub idt_bar_write : Host → PeerMemory → ℕ → ℕ → ℕ → ℕ → M PeerMemory
unfolding ensure_peer_mem check_window check_peer_mem store peer_offset
idt_bar_write h mem addr value size idx = do
  s ← get_dev
  c ← get_bar_config idx
  inside ← check_window c (s.bars_addr idx + addr)
  if not inside then pure mem else (do
    mapped ← ensure_peer_mem h
    if not mapped then pure mem else (do
      assert (size == 4 || size == 8)
      check_peer_mem mem (peer_offset c + addr) size
      pure (record mem { bytes = store mem.bytes (peer_offset c + addr) size value })))
