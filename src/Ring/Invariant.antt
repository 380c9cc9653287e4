-- ===== src/Ring/Invariant.antt =====
-- user_src/ntb_profiling.c: what holds of the ring and of both programs between any two of their
-- accesses.
use qemu_ntb_switch.Prelude.{ℕ, zero, suc, ◌+◌, ◌*◌, ◌%◌, ◌≤◌, ◌<◌, ◌≡◌, arith}
use qemu_ntb_switch.Ring.Layout.{RingHeader, RingSlot, Ring, ntb_ring_slot}
use qemu_ntb_switch.Ring.Transfer.{
  TxOptions, TxPhase, RxPhase, Profile, tx_payload, tx_find, tx_loop, tx_loaded, tx_fill,
  tx_barrier, tx_store_seq, tx_store_head, tx_drain, tx_drain_loaded, tx_report, tx_report_barrier,
  tx_store_flags, tx_done, tx_failed, rx_loop, rx_loaded, rx_load_len, rx_load_seq, rx_store_tail,
  rx_load_flags, rx_confirm, rx_done, rx_invalid, rx_failed,
}
use qemu_ntb_switch.Ring.Bounds.{HasGeometry, ntb_ring_slot_lem}

-- The bytes that stand before the chunk `k` in the stream.
unfoldable pub chunk_start : TxOptions → ℕ → ℕ
chunk_start o zero = 0
chunk_start o (suc k) = chunk_start o k + tx_payload o (chunk_start o k)

pub chunk_start-suc :
    (o : TxOptions) (k : ℕ)
    → chunk_start o (k + 1) ≡ chunk_start o k + tx_payload o (chunk_start o k)
unfolding chunk_start
chunk_start-suc o k = ground arith

pub chunk_start_le : (o : TxOptions) (k : ℕ) → chunk_start o k ≤ o.total_size
unfolding chunk_start tx_payload
chunk_start_le o zero = omega arith
chunk_start_le o (suc k) = let ih = chunk_start_le o k in ground arith

pub tx_payload_le : (o : TxOptions) (s : ℕ) → tx_payload o s ≤ o.chunk_size
unfolding tx_payload
tx_payload_le o s = ground arith

-- The offset of the slot that the index `j` stands for.
unfoldable pub row : ℕ → ℕ → ℕ → ℕ
row n size j = 64 + j % n * (64 + size)

pub ntb_ring_slot-row :
    (cap n size : ℕ) (h : RingHeader)
    → HasGeometry cap n size h
    → (i : ℕ) → ntb_ring_slot h i ≡ row n size i
unfolding row
ntb_ring_slot-row cap n size h g i = ntb_ring_slot_lem cap n size h g i

-- The slot of the index `j` holds the chunk `j`.
pub record HoldsChunk (o : TxOptions) (j : ℕ) (s : RingSlot) : Type 0 where
  pub seq : s.seq ≡ j + 1
  pub len : s.len ≡ tx_payload o (chunk_start o j)

pub record IsRing (o : TxOptions) (cap n size : ℕ) (r : Ring) : Type 0 where
  pub geometry : HasGeometry cap n size r.header
  pub tail_le : r.header.tail ≤ r.header.head
  pub head_le : r.header.head ≤ r.header.tail + n
  -- Only a sender whose chunks fit a slot moves the head.
  pub chunk : 0 < r.header.head → o.chunk_size ≤ size
  pub progress : r.header.head ≤ chunk_start o r.header.head
  pub chunks :
      (j : ℕ) → r.header.tail ≤ j → j < r.header.head → HoldsChunk o j (r.slots (row n size j))

-- The sender is past its tests.
pub record IsSending (o : TxOptions) (n size : ℕ) (r : Ring) (sent slot_count : ℕ) : Type 0 where
  pub flags : r.header.flags ≡ 0
  pub position : sent ≡ chunk_start o r.header.head
  pub rows : slot_count ≡ n
  pub chunk : o.chunk_size ≤ size

pub record HasFinished (o : TxOptions) (r : Ring) : Type 0 where
  pub drained : r.header.tail ≡ r.header.head
  pub complete : chunk_start o r.header.head ≡ o.total_size
  pub reported : r.header.total_bytes ≡ o.total_size

abbrev pub TxAt : TxOptions → ℕ → ℕ → Ring → ℕ → ℕ → TxPhase → Type 0
TxAt o n size r sent sc tx_find = (r.header.flags ≡ 0) × (r.header.head ≡ 0)
TxAt o n size r sent sc tx_loop = IsSending o n size r sent sc
TxAt o n size r sent sc (tx_loaded h) =
    IsSending o n size r sent sc × (h ≡ r.header.head) × (sent < o.total_size)
TxAt o n size r sent sc (tx_fill h) =
    IsSending o n size r sent sc
    × (h ≡ r.header.head)
    × (sent < o.total_size)
    × (h < r.header.tail + n)
TxAt o n size r sent sc (tx_barrier h) =
    IsSending o n size r sent sc
    × (h ≡ r.header.head)
    × (sent < o.total_size)
    × (h < r.header.tail + n)
    × ((r.slots (row n size h)).len ≡ tx_payload o sent)
TxAt o n size r sent sc (tx_store_seq h) =
    IsSending o n size r sent sc
    × (h ≡ r.header.head)
    × (sent < o.total_size)
    × (h < r.header.tail + n)
    × ((r.slots (row n size h)).len ≡ tx_payload o sent)
TxAt o n size r sent sc (tx_store_head h) =
    IsSending o n size r sent sc
    × (h ≡ r.header.head)
    × (sent < o.total_size)
    × (h < r.header.tail + n)
    × HoldsChunk o h (r.slots (row n size h))
TxAt o n size r sent sc tx_drain = IsSending o n size r sent sc × (sent ≡ o.total_size)
TxAt o n size r sent sc (tx_drain_loaded h) =
    IsSending o n size r sent sc × (sent ≡ o.total_size) × (h ≡ r.header.head)
TxAt o n size r sent sc tx_report =
    IsSending o n size r sent sc × (sent ≡ o.total_size) × (r.header.tail ≡ r.header.head)
TxAt o n size r sent sc tx_report_barrier = (r.header.flags ≡ 0) × HasFinished o r
TxAt o n size r sent sc tx_store_flags = (r.header.flags ≡ 0) × HasFinished o r
TxAt o n size r sent sc tx_done = (r.header.flags ≡ 1) × HasFinished o r
TxAt o n size r sent sc tx_failed = r.header.flags ≡ 0

abbrev pub RxAt : TxOptions → RingHeader → ℕ → RxPhase → Type 0
RxAt o h got rx_loop = got ≡ chunk_start o h.tail
RxAt o h got (rx_loaded t) = (got ≡ chunk_start o h.tail) × (t ≡ h.tail)
RxAt o h got (rx_load_len t) = (got ≡ chunk_start o h.tail) × (t ≡ h.tail) × (t < h.head)
RxAt o h got (rx_load_seq t len) =
    (got ≡ chunk_start o h.tail)
    × (t ≡ h.tail)
    × (t < h.head)
    × (len ≡ tx_payload o (chunk_start o t))
RxAt o h got (rx_store_tail t) = (got ≡ chunk_start o (t + 1)) × (t ≡ h.tail) × (t < h.head)
RxAt o h got (rx_load_flags t) = (got ≡ chunk_start o h.tail) × (t ≡ h.tail)
RxAt o h got (rx_confirm t) = (got ≡ chunk_start o h.tail) × (t ≡ h.tail) × (h.flags ≡ 1)
RxAt o h got (rx_done reported) = (got ≡ o.total_size) × (reported ≡ o.total_size)
RxAt o h got rx_invalid = ⊥
RxAt o h got rx_failed = Unit

pub record IsConsistent (o : TxOptions) (cap n size : ℕ) (w : Profile) : Type 0 where
  pub ring : IsRing o cap n size w.ring
  pub tx : TxAt o n size w.ring w.tx.sent w.tx.slot_count w.tx.phase
  pub rx : RxAt o w.ring.header w.rx.received w.rx.phase
