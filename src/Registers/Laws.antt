-- ===== src/Registers/Laws.antt =====
-- Decoding an address and the address of a register are inverse to one another.
use qemu_ntb_switch.Prelude.{
  ℕ, zero, suc, ◌<◌, ◌≡◌, refl, sym, ap, ◌∙◌, inl, inr, some, List, [], ◌∷◌, ◌==◌, arith,
  Bool-cases, ==_iff,
}
use qemu_ntb_switch.Registers.Table.{
  ConfigRegister, address, config_registers, find_case, decode, outmsg, inmsg, inmsgsrc, barsetup,
  barlimit, barltbase, barutbase, indexed,
}

-- The index of a register of an array lies in the array.
abbrev pub HasIndex : ConfigRegister → Type 0
HasIndex (outmsg i) = i < 4
HasIndex (inmsg i) = i < 4
HasIndex (inmsgsrc i) = i < 4
HasIndex (barsetup i) = i < 6
HasIndex (barlimit i) = i < 6
HasIndex (barltbase i) = i < 6
HasIndex (barutbase i) = i < 6
HasIndex _ = Unit

below_four {ℓ} : (P : ℕ → Type ℓ) → P 0 → P 1 → P 2 → P 3 → (i : ℕ) → i < 4 → P i
below_four P p0 p1 p2 p3 zero h = p0
below_four P p0 p1 p2 p3 (suc zero) h = p1
below_four P p0 p1 p2 p3 (suc (suc zero)) h = p2
below_four P p0 p1 p2 p3 (suc (suc (suc zero))) h = p3
below_four P p0 p1 p2 p3 (suc (suc (suc (suc i)))) h = absurd (omega arith)

below_six {ℓ} : (P : ℕ → Type ℓ) → P 0 → P 1 → P 2 → P 3 → P 4 → P 5 → (i : ℕ) → i < 6 → P i
below_six P p0 p1 p2 p3 p4 p5 zero h = p0
below_six P p0 p1 p2 p3 p4 p5 (suc zero) h = p1
below_six P p0 p1 p2 p3 p4 p5 (suc (suc i)) h =
    below_four (λ j. P (suc (suc j))) p2 p3 p4 p5 i (omega arith)

abbrev DecodesTo : ConfigRegister → Type 0
DecodesTo r = decode (address r) ≡ some r

-- Every configuration register whose index is in range is found at its own address: no two
-- cases of the handlers' switches collide.
pub decode-address : (r : ConfigRegister) → HasIndex r → decode (address r) ≡ some r
unfolding decode address indexed
decode-address (outmsg i) h = below_four (λ j. DecodesTo (outmsg j)) refl refl refl refl i h
decode-address (inmsg i) h = below_four (λ j. DecodesTo (inmsg j)) refl refl refl refl i h
decode-address (inmsgsrc i) h = below_four (λ j. DecodesTo (inmsgsrc j)) refl refl refl refl i h
decode-address (barsetup i) h =
    below_six (λ j. DecodesTo (barsetup j)) refl refl refl refl refl refl i h
decode-address (barlimit i) h =
    below_six (λ j. DecodesTo (barlimit j)) refl refl refl refl refl refl i h
decode-address (barltbase i) h =
    below_six (λ j. DecodesTo (barltbase j)) refl refl refl refl refl refl i h
decode-address (barutbase i) h =
    below_six (λ j. DecodesTo (barutbase j)) refl refl refl refl refl refl i h
decode-address _ h = refl

find_case-key {ℓ} :
    {A : Type ℓ} (key : A → ℕ) (a : ℕ) (rs : List A) (r : A)
    → find_case key a rs ≡ some r
    → key r ≡ a
unfolding find_case
find_case-key key a [] r h = cc
find_case-key key a (x ∷ rs) r h = elim (Bool-cases (key x == a)) [
  | inl here ↦
      let e : some x ≡ some r = rw here at h in
      let e' : x ≡ r = cc in sym (ap key e') ∙ (==_iff (key x) a).0 here
  | inr later ↦ find_case-key key a rs r (rw later at h)
]

-- A register that an access is taken for stands at the accessed address.
pub address-decode : (a : ℕ) {r : ConfigRegister} → decode a ≡ some r → address r ≡ a
unfolding decode
address-decode a h = find_case-key address a config_registers _ h
