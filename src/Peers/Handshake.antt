-- ===== src/Peers/Handshake.antt =====
-- The synchronous setup with a server that sends its messages in the order of ivshmem-server.
use qemu_ntb_switch.Prelude.{
  ℕ, ◌≤◌, ◌≡◌, arith, true, false, some, none, List, ◌∷◌, pos, negsuc, ◌∙◌,
}
use qemu_ntb_switch.Device.{World, ok}
use qemu_ntb_switch.Peers.{
  Kvm, ShmFile, Message, Transmission, set_up, ivshmem_recv_msg, ivshmem_recv_setup, recv_id,
  recv_until_shmem, process_msg,
}

abbrev mapped : World → World
mapped w = record w { dev = record w.dev { ivshmem_bar2 = true } }

-- A transmission is read as the message.
abbrev pub Reads : Transmission → Message → Type 0
Reads t m = ivshmem_recv_msg t ≡ some (some m)

shmem_lem :
    (k : Kvm) (f : ShmFile) (t : Transmission) (rest : List Transmission) (fd size : ℕ) (w : World)
    → Reads t (record { number = negsuc 0; fd = some fd })
    → w.dev.ivshmem_bar2 ≡ false
    → f.file_size ≡ some size
    → f.inits_ram ≡ true
    → recv_until_shmem k f (t ∷ rest) w ≡ ok set_up (mapped w)
unfolding recv_until_shmem process_msg
shmem_lem k f t rest fd size w e unmapped sized inits = ground arith

id_lem :
    (k : Kvm) (f : ShmFile) (t : Transmission) (rest : List Transmission) (n : ℕ) (w : World)
    → Reads t (record { number = pos n; fd = none })
    → n ≤ 0xFFFF
    → recv_id k f (t ∷ rest) w
      ≡ recv_until_shmem k f rest (record w { dev = record w.dev { vm_id = n } })
unfolding recv_id
id_lem k f t rest n w e le = ground arith

version_lem :
    (v : ℕ) (k : Kvm) (f : ShmFile) (t : Transmission) (rest : List Transmission) (w : World)
    → Reads t (record { number = pos v; fd = none })
    → ivshmem_recv_setup v k f (t ∷ rest) w ≡ recv_id k f rest w
unfolding ivshmem_recv_setup
version_lem v k f t rest w e = ground arith

-- If the server sends the expected version, then an identifier of at most 0xFFFF, both without
-- a descriptor, and then -1 with a descriptor whose size is known and which QEMU maps, the
-- setup of a device without shared memory completes at the third message with that identifier
-- and the shared memory mapped, and changes nothing else.
pub ivshmem_recv_setup-completes :
    (v : ℕ) (k : Kvm) (f : ShmFile) (t1 t2 t3 : Transmission) (rest : List Transmission)
    (n fd size : ℕ) (w : World)
    → Reads t1 (record { number = pos v; fd = none })
    → Reads t2 (record { number = pos n; fd = none })
    → n ≤ 0xFFFF
    → Reads t3 (record { number = negsuc 0; fd = some fd })
    → w.dev.ivshmem_bar2 ≡ false
    → f.file_size ≡ some size
    → f.inits_ram ≡ true
    → ivshmem_recv_setup v k f (t1 ∷ t2 ∷ t3 ∷ rest) w
      ≡ ok set_up (record w { dev = record w.dev { vm_id = n; ivshmem_bar2 = true } })
ivshmem_recv_setup-completes v k f t1 t2 t3 rest n fd size w e1 e2 le e3 unmapped sized inits =
    version_lem v k f t1 (t2 ∷ t3 ∷ rest) w e1
    ∙ id_lem k f t2 (t3 ∷ rest) n w e2 le
    ∙ shmem_lem k f t3 rest fd size (record w { dev = record w.dev { vm_id = n } }) e3 unmapped
        sized inits
