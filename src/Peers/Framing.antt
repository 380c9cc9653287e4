-- ===== src/Peers/Framing.antt =====
-- The server's messages arrive whole, however their bytes are split.
use qemu_ntb_switch.Prelude.{
  ℕ, ◌+◌, ◌≤◌, ◌<◌, ◌≡◌, refl, sym, arith, Bool, true, false, ltb, if◌then◌else◌, ap, ◌∙◌, ◌∷◌,
  List, [], ◌++◌, Option, length, length-append, inl, inr, Bool-cases,
}
use native.Mathlib.Nat.{add_assoc}
use mathlib.Core.List.{append-nil, append_assoc}
use qemu_ntb_switch.Device.{World, ok, ◌>>◌, >>=-ok}
use qemu_ntb_switch.Peers.{
  Kvm, ShmFile, ivshmem_read, handle_message, recv_loop, ReadResult, interrupted, failed, bytes,
  received,
}

-- The bytes that are read before a read fails, in order.
unfoldable pub payload : List ReadResult → List ℕ
payload [] = []
payload (interrupted ∷ rs) = payload rs
payload (failed ∷ rs) = []
payload (bytes bs ∷ rs) = bs ++ payload rs

unfoldable pub has_failure : List ReadResult → Bool
has_failure [] = false
has_failure (interrupted ∷ rs) = has_failure rs
has_failure (failed ∷ rs) = true
has_failure (bytes bs ∷ rs) = has_failure rs

length-zero : (xs : List ℕ) → length xs ≡ 0 → xs ≡ []
length-zero [] e = refl
length-zero (x ∷ xs) e = absurd (omega arith)

-- If no read fails and the reads complete exactly the eight bytes of a message that has begun,
-- the receive loop ends with those bytes in order, whatever the sizes of the pieces and however
-- often a read is interrupted.
pub recv_loop-payload :
    (rs : List ReadResult) (so_far : List ℕ)
    → has_failure rs ≡ false
    → length so_far < 8
    → length so_far + length (payload rs) ≡ 8
    → recv_loop rs so_far ≡ received (so_far ++ payload rs)
unfolding recv_loop payload has_failure
recv_loop-payload [] so_far none_fails few all = absurd (omega arith)
recv_loop-payload (interrupted ∷ rs) so_far none_fails few all =
    recv_loop-payload rs so_far none_fails few all
recv_loop-payload (failed ∷ rs) so_far none_fails few all = cc
recv_loop-payload (bytes bs ∷ rs) so_far none_fails few all =
    elim (Bool-cases (ltb (length (so_far ++ bs)) 8)) [
      | inl more ↦ rw more (
          recv_loop-payload rs (so_far ++ bs) none_fails (ground arith)
            (omega (arith, all, length-append so_far bs, length-append bs (payload rs)))
          ∙ ap received (append_assoc so_far bs (payload rs)))
      | inr done ↦
          let full : 8 ≤ length (so_far ++ bs) = ground arith in
          let rest : payload rs ≡ [] =
            length-zero (payload rs)
              (omega (arith, all, length-append so_far bs, length-append bs (payload rs))) in
          rw (done, rest, append-nil bs)
    ]

abbrev with_buf : List ℕ → World → World
with_buf bs w = record w { dev = record w.dev { msg_buf = bs } }

ivshmem_read_lem :
    (k : Kvm) (f : ShmFile) (xs : List ℕ) (fd : Option ℕ) (w : World)
    → length w.dev.msg_buf + length xs ≤ 8
    → ivshmem_read k f xs fd w ≡ (
        if ltb (length w.dev.msg_buf + length xs) 8
        then ok tt (with_buf (w.dev.msg_buf ++ xs) w)
        else handle_message k f (w.dev.msg_buf ++ xs) fd (with_buf [] w))
unfolding ivshmem_read
ivshmem_read_lem k f xs fd w fits = ground arith

read_part :
    (k : Kvm) (f : ShmFile) (xs : List ℕ) (fd : Option ℕ) (w : World)
    → length w.dev.msg_buf + length xs < 8
    → ivshmem_read k f xs fd w ≡ ok tt (with_buf (w.dev.msg_buf ++ xs) w)
unfolding ivshmem_read
read_part k f xs fd w few = ground arith

-- If a piece does not complete the eight bytes of a message and the two pieces together do not
-- exceed them, then receiving the pieces one after the other does what receiving their bytes at
-- once does.
pub ivshmem_read-append :
    (k : Kvm) (f : ShmFile) (xs ys : List ℕ) (fd fd' : Option ℕ) (w : World)
    → length w.dev.msg_buf + length xs < 8
    → length w.dev.msg_buf + length xs + length ys ≤ 8
    → (ivshmem_read k f xs fd >> ivshmem_read k f ys fd') w ≡ ivshmem_read k f (xs ++ ys) fd' w
ivshmem_read-append k f xs ys fd fd' w few fits =
    let buf : List ℕ = w.dev.msg_buf in
    >>=-ok (ivshmem_read k f xs fd) (λ _. ivshmem_read k f ys fd') w (with_buf (buf ++ xs) w) tt
      (read_part k f xs fd w few)
    ∙ ivshmem_read_lem k f ys fd' (with_buf (buf ++ xs) w) (omega (arith, length-append buf xs))
    ∙ regroup
    ∙ sym (ivshmem_read_lem k f (xs ++ ys) fd' w (omega (arith, length-append xs ys)))
  where
    regroup :
        (if ltb (length (w.dev.msg_buf ++ xs) + length ys) 8
          then ok tt (with_buf ((w.dev.msg_buf ++ xs) ++ ys) w)
          else handle_message k f ((w.dev.msg_buf ++ xs) ++ ys) fd' (with_buf [] w))
        ≡ (if ltb (length w.dev.msg_buf + length (xs ++ ys)) 8
            then ok tt (with_buf (w.dev.msg_buf ++ (xs ++ ys)) w)
            else handle_message k f (w.dev.msg_buf ++ (xs ++ ys)) fd' (with_buf [] w))
    regroup = rw (
      append_assoc w.dev.msg_buf xs ys,
      length-append w.dev.msg_buf xs,
      length-append xs ys,
      add_assoc (length w.dev.msg_buf) (length xs) (length ys),
    )
