-- ===== src/Tests/Drivers.antt =====
-- The drivers on a small machine: registers with a message each, and a kernel that grants what it is
-- asked for.
use qemu_ntb_switch.Prelude.{
  ℕ, ◌+◌, ◌≤◌, ◌≡◌, refl, Bool, true, false, if◌then◌else◌, some, none, Option, arith, bit_and,
  update, nonzero, ◌==◌,
}
use qemu_ntb_switch.Driver.{Ntb, hweight}
use qemu_ntb_switch.Driver.Outgoing.{Outgoing, SendsThrough}
use qemu_ntb_switch.Driver.RoundTrip.{ReceivesThrough}

-- The registers of the other machine and this one's, the status of refused writes and the links.
pub record Wire : Type 0 where
  pub out : ℕ → Option ℕ
  pub into : ℕ → Option ℕ
  pub refusal : Bool
  pub up : ℕ

abbrev pub full_bit : Option ℕ → ℕ → ℕ
full_bit none b = 0
full_bit (some x) b = b

abbrev pub refused_bit : Bool → ℕ
refused_bit true = 1
refused_bit false = 0

-- Bit 0 stands for a refused write, the bits 16 to 18 for the full registers.
abbrev pub wire_status : Wire → ℕ
wire_status h =
    refused_bit h.refusal
    + (full_bit (h.into 0) 65536 + (full_bit (h.into 1) 131072 + full_bit (h.into 2) 262144))

abbrev pub put_message : Option ℕ → ℕ → ℕ → Wire → Wire
put_message none r x h = record h { out = update h.out r (some x) }
put_message (some y) r x h = record h { refusal = true }

abbrev pub message_of : Option ℕ → ℕ
message_of none = 0
message_of (some x) = x

abbrev pub clear_status : ℕ → Wire → Wire
clear_status bits h =
    if bits == 1 then record h { refusal = false } else record h { into = λ _. none }

abbrev pub wire_ntb : Ntb Wire
wire_ntb = record {
  ntb_link_is_up = λ h. (h.up, h);
  ntb_msg_inbits = 458752;
  ntb_msg_outbits = 1;
  ntb_msg_clear_sts = λ bits h. (0, clear_status bits h);
  ntb_msg_read_sts = λ h. (wire_status h, h);
  ntb_peer_msg_write = λ r x h. (0, put_message (h.out r) r x h);
  ntb_msg_read = λ r h. (message_of (h.into r), h);
  ntb_peer_mw_get_addr = λ h. ((0, 1048576, 65536), h);
  ntb_peer_mw_set_trans = λ x n h. (0, h);
  ntb_peer_mw_clear_trans = λ h. h;
  ntb_mw_get_align = λ h. ((0, 4096, 4096, 1048576), h);
  ntb_mw_set_trans = λ x n h. (0, h);
  ntb_mw_clear_trans = λ h. h;
  dma_alloc_coherent = λ n h. (some (77, 8192), h);
  dma_free_coherent = λ n b h. h;
  ioremap_wc = λ p n h. (some 88, h);
  iounmap = λ p h. h;
}

abbrev pub wire_out : Outgoing Wire
wire_out = record { outbox = λ h. h.out; refused = λ h. h.refusal; links = λ h. h.up }

put_free :
    (b : Option ℕ) (r x : ℕ) (h : Wire)
    → b ≡ none
    → ((put_message b r x h).out ≡ update h.out r (some x))
      × ((put_message b r x h).refusal ≡ h.refusal)
put_free none r x h e = (refl, refl)
put_free (some y) r x h e = absurd (cc)

put_full :
    (b : Option ℕ) (r x y : ℕ) (h : Wire)
    → b ≡ some y
    → ((put_message b r x h).out ≡ h.out) × ((put_message b r x h).refusal ≡ true)
put_full none r x y h e = absurd (cc)
put_full (some z) r x y h e = (refl, refl)

put_links : (b : Option ℕ) (r x : ℕ) (h : Wire) → (put_message b r x h).up ≡ h.up
put_links none r x h = refl
put_links (some y) r x h = refl

status_bit :
    (f : Bool) (a b c : Option ℕ)
    → nonzero
        (bit_and (refused_bit f + (full_bit a 65536 + (full_bit b 131072 + full_bit c 262144))) 1)
      ≡ f
status_bit true none none none = refl
status_bit true none none (some z) = refl
status_bit true none (some y) none = refl
status_bit true none (some y) (some z) = refl
status_bit true (some x) none none = refl
status_bit true (some x) none (some z) = refl
status_bit true (some x) (some y) none = refl
status_bit true (some x) (some y) (some z) = refl
status_bit false none none none = refl
status_bit false none none (some z) = refl
status_bit false none (some y) none = refl
status_bit false none (some y) (some z) = refl
status_bit false (some x) none none = refl
status_bit false (some x) none (some z) = refl
status_bit false (some x) (some y) none = refl
status_bit false (some x) (some y) (some z) = refl

pub wire_sends : SendsThrough wire_ntb wire_out
wire_sends = record {
  link_is_up = λ h. refl;
  link_is_up-Same = λ h. record { outbox = refl; refused = refl; links = refl };
  clear = λ h. refl;
  clear_outbox = λ h. refl;
  clear_refused = λ h. refl;
  clear_links = λ h. refl;
  write = λ r x h. refl;
  write_links = λ r x h. put_links (h.out r) r x h;
  write_free = λ r x h e. (put_free (h.out r) r x h e).0;
  write_accepted = λ r x h e. (put_free (h.out r) r x h e).1;
  write_full = λ r x y h e. (put_full (h.out r) r x y h e).0;
  write_refused = λ r x y h e. (put_full (h.out r) r x y h e).1;
  status = λ h. status_bit h.refusal (h.into 0) (h.into 1) (h.into 2);
  status-Same = λ h. record { outbox = refl; refused = refl; links = refl };
}

three_bits :
    (f : Bool) (x y z : Option ℕ) (a b c : ℕ)
    → x ≡ some a
    → y ≡ some b
    → z ≡ some c
    → 3
      ≤ hweight 64 (
          bit_and
            (refused_bit f + (full_bit x 65536 + (full_bit y 131072 + full_bit z 262144)))
            458752)
unfolding hweight
three_bits true x y z a b c e0 e1 e2 = rw (e0, e1, e2) (omega arith)
three_bits false x y z a b c e0 e1 e2 = rw (e0, e1, e2) (omega arith)

read_message : (b : Option ℕ) (x : ℕ) → b ≡ some x → message_of b ≡ x
read_message none x e = absurd (cc)
read_message (some y) x e = cc

pub wire_receives : ReceivesThrough wire_ntb (λ h. h.into)
wire_receives = record {
  arrived =
      λ a b c h e0 e1 e2. three_bits h.refusal (h.into 0) (h.into 1) (h.into 2) a b c e0 e1 e2;
  status = λ h. refl;
  read = λ r x h e. read_message (h.into r) x e;
  read_inbox = λ r h. refl;
  clear = λ r h. refl;
}
