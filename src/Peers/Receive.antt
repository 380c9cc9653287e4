-- ===== src/Peers/Receive.antt =====
-- ivshmem_can_receive, ivshmem_read, ivshmem_recv_msg and ivshmem_recv_setup: the server's
-- messages as they come in, eight bytes each. `msg_buf` holds the bytes of a message that have
-- come so far, so that its length is `msg_buffered_bytes`.
use qemu_ntb_switch.Prelude.{
  ℕ, ◌+◌, ◌-◌, ◌*◌, Bool, true, false, Option, none, some, List, [], ◌∷◌, ◌++◌, ltb, leb, ◌==◌,
  if◌then◌else◌, ℤ, pos, negsuc, to_signed, length,
}
use qemu_ntb_switch.Device.{
  M, pure, when, assert, call, error_report, get_dev, put_dev, ◌>>=◌, ◌>>◌,
}
use qemu_ntb_switch.Peers.Table.{Kvm}
use qemu_ntb_switch.Peers.Messages.{ShmFile, Message, process_msg, ivshmem_max_peers}

-- `sizeof(s->msg_buf)`
abbrev pub msg_size : ℕ
msg_size = 8

-- `le64_to_cpu`, and the reading of the result as an `int64_t`.
unfoldable pub le64_to_cpu : List ℕ → ℕ
le64_to_cpu [] = 0
le64_to_cpu (b ∷ bs) = b + 256 * le64_to_cpu bs

unfoldable pub message_number : List ℕ → ℤ
unfolding le64_to_cpu
message_number bs = to_signed 64 (le64_to_cpu bs)

unfoldable pub ivshmem_can_receive : M ℕ
ivshmem_can_receive = do
  s ← get_dev
  assert (ltb (length s.msg_buf) msg_size)
  pure (msg_size - length s.msg_buf)

-- `fd` is what `qemu_chr_fe_get_msgfd` answers.
unfoldable pub handle_message : Kvm → ShmFile → List ℕ → Option ℕ → M (Unit {0})
unfolding message_number
handle_message k f bs fd = do
  err ← process_msg k f (record { number = message_number bs; fd = fd })
  when err (call error_report)

unfoldable pub ivshmem_read : Kvm → ShmFile → List ℕ → Option ℕ → M (Unit {0})
unfolding handle_message
ivshmem_read k f buf fd = do
  s ← get_dev
  assert (leb (length s.msg_buf + length buf) msg_size)
  if ltb (length s.msg_buf + length buf) msg_size
      then put_dev (record s { msg_buf = s.msg_buf ++ buf })
      else (do put_dev (record s { msg_buf = [] }); handle_message k f (s.msg_buf ++ buf) fd)

-- What one call of `qemu_chr_fe_read_all` answers.
pub data ReadResult : Type 0 where
  interrupted failed : ReadResult
  bytes : List ℕ → ReadResult

-- How a wait for a message ends. `waiting` is no end: the answers that are given have run out.
pub data Received : Type 0 where
  received : List ℕ → Received
  read_failed waiting : Received

-- The loop of `ivshmem_recv_msg`, with the bytes read so far. A call is never answered by more
-- bytes than it asks for.
unfoldable pub recv_loop : List ReadResult → List ℕ → Received
recv_loop [] so_far = waiting
recv_loop (interrupted ∷ rs) so_far = recv_loop rs so_far
recv_loop (failed ∷ rs) so_far = read_failed
recv_loop (bytes bs ∷ rs) so_far =
    let rest = recv_loop rs (so_far ++ bs) in
    if ltb (length (so_far ++ bs)) msg_size then rest else received (so_far ++ bs)

-- The answers that one message takes, and the descriptor that comes with it.
pub record Transmission : Type 0 where
  pub reads : List ReadResult
  pub fd : Option ℕ

-- `none` while the message is not complete, `some none` where the read fails.
unfoldable pub ivshmem_recv_msg : Transmission → Option (Option Message)
unfolding recv_loop message_number
ivshmem_recv_msg t = elim (recv_loop t.reads []) [
  | received bs ↦ some (some (record { number = message_number bs; fd = t.fd }))
  | read_failed ↦ some none
  | waiting ↦ none
]

-- How the setup ends; `unfinished` is no end.
pub data Setup : Type 0 where
  set_up setup_failed unfinished : Setup

unfoldable pub is_shmem_message : Message → Bool
is_shmem_message m = elim m.number [ pos n ↦ false | negsuc n ↦ n == 0 ]

unfoldable pub after_message : Message → M Setup → Bool → M Setup
after_message m rest true = pure setup_failed
after_message m rest false =
    if is_shmem_message m then (do s ← get_dev; assert s.ivshmem_bar2; pure set_up) else rest

-- The loop `do … while (msg != -1)` and the assertion behind it.
unfoldable pub recv_until_shmem : Kvm → ShmFile → List Transmission → M Setup
unfolding is_shmem_message after_message ivshmem_recv_msg
recv_until_shmem k f [] = pure unfinished
recv_until_shmem k f (t ∷ ts) = elim (ivshmem_recv_msg t) [
  | none ↦ pure unfinished
  | some none ↦ pure setup_failed
  | some (some m) ↦ do err ← process_msg k f m; after_message m (recv_until_shmem k f ts) err
]

-- The number of an identifier message: not negative, at most the limit, with no descriptor.
unfoldable pub id_of_message : Message → Option ℕ
id_of_message m = elim m.fd [
  | some _ ↦ none
  | none ↦ elim m.number [
    | negsuc n ↦ none
    | pos n ↦ if ltb ivshmem_max_peers n then none else some n
  ]
]

-- IVSHMEM_PROTOCOL_VERSION is a constant of QEMU's header: a parameter.
unfoldable pub is_version_message : ℕ → Message → Bool
is_version_message version m = elim m.fd [
  | some _ ↦ false
  | none ↦ elim m.number [ negsuc n ↦ false | pos n ↦ n == version ]
]

unfoldable pub recv_id : Kvm → ShmFile → List Transmission → M Setup
unfolding id_of_message recv_until_shmem
recv_id k f [] = pure unfinished
recv_id k f (t ∷ ts) = elim (ivshmem_recv_msg t) [
  | none ↦ pure unfinished
  | some none ↦ pure setup_failed
  | some (some m) ↦ elim (id_of_message m) [
    | none ↦ pure setup_failed
    | some n ↦ do s ← get_dev; put_dev (record s { vm_id = n }); recv_until_shmem k f ts
  ]
]

unfoldable pub ivshmem_recv_setup : ℕ → Kvm → ShmFile → List Transmission → M Setup
unfolding is_version_message recv_id
ivshmem_recv_setup version k f [] = pure unfinished
ivshmem_recv_setup version k f (t ∷ ts) = elim (ivshmem_recv_msg t) [
  | none ↦ pure unfinished
  | some none ↦ pure setup_failed
  | some (some m) ↦ if is_version_message version m then recv_id k f ts else pure setup_failed
]
