-- ===== src/Registers/Table.antt =====
-- The configuration space (`idt_config_registers`), the global address space
-- (`idt_global_config_registers`), and the values and field positions of both.
use qemu_ntb_switch.Prelude.{
  ℕ, zero, suc, ◌+◌, ◌*◌, ◌^◌, Option, none, some, List, [], ◌∷◌, ◌++◌, ◌==◌, if◌then◌else◌, bit_or,
}

-- `idt_config_registers`, and IDT_NT_NTINTMSK, which the handlers of BAR 0 know too.
pub data ConfigRegister : Type 0 where
  pcicmdsts pcielcap pcielctlsts : ConfigRegister
  ntctl ntintsts ntintmsk ntgsignal : ConfigRegister
  outdbellset indbellsts indbellmsk : ConfigRegister
  outmsg inmsg inmsgsrc : ℕ → ConfigRegister
  msgsts msgstsmsk : ConfigRegister
  ntmtbladdr ntmtbldata reqidcap gasaaddr gasadata : ConfigRegister
  barsetup barlimit barltbase barutbase : ℕ → ConfigRegister
  oof_tpart oof_lutoff oof_ldata oof_hdata oof_llimit oof_hlimit : ConfigRegister

unfoldable pub address : ConfigRegister → ℕ
address pcicmdsts = 0x4
address pcielcap = 0x4C
address pcielctlsts = 0x50
address ntctl = 0x400
address ntintsts = 0x404
address ntintmsk = 0x408
address ntgsignal = 0x410
address outdbellset = 0x420
address indbellsts = 0x428
address indbellmsk = 0x42C
address (outmsg i) = 0x430 + 4 * i
address (inmsg i) = 0x440 + 4 * i
address (inmsgsrc i) = 0x450 + 4 * i
address msgsts = 0x460
address msgstsmsk = 0x464
address ntmtbladdr = 0x4D0
address ntmtbldata = 0x4D8
address reqidcap = 0x4DC
address gasaaddr = 0xFF8
address gasadata = 0xFFC
address (barsetup i) = 0x470 + 0x10 * i
address (barlimit i) = 0x474 + 0x10 * i
address (barltbase i) = 0x478 + 0x10 * i
address (barutbase i) = 0x47C + 0x10 * i
address oof_tpart = 0x1000
address oof_lutoff = 0x1004
address oof_ldata = 0x1008
address oof_hdata = 0x100C
address oof_llimit = 0x1010
address oof_hlimit = 0x1014

-- The registers of an array at the indices `i`, `i + 1`, … of which there are `n`.
unfoldable pub indexed {ℓ} : {A : Type ℓ} → (ℕ → A) → ℕ → ℕ → List A
indexed r i zero = []
indexed r i (suc n) = r i ∷ indexed r (i + 1) n

unfoldable pub config_registers : List ConfigRegister
unfolding indexed
config_registers =
    pcicmdsts
      ∷ pcielcap
      ∷ pcielctlsts
      ∷ ntctl
      ∷ ntintsts
      ∷ ntintmsk
      ∷ ntgsignal
      ∷ outdbellset
      ∷ indbellsts
      ∷ indbellmsk
      ∷ msgsts
      ∷ msgstsmsk
      ∷ ntmtbladdr
      ∷ ntmtbldata
      ∷ reqidcap
      ∷ gasaaddr
      ∷ gasadata
      ∷ oof_tpart
      ∷ oof_lutoff
      ∷ oof_ldata
      ∷ oof_hdata
      ∷ oof_llimit
      ∷ oof_hlimit
      ∷ indexed outmsg 0 4
    ++ (indexed inmsg 0 4
        ++ (indexed inmsgsrc 0 4
            ++ (indexed barsetup 0 6
                ++ (indexed barlimit 0 6 ++ (indexed barltbase 0 6 ++ indexed barutbase 0 6)))))

-- The first entry with the given address: the `case` that a `switch` takes.
unfoldable pub find_case {ℓ} : {A : Type ℓ} → (A → ℕ) → ℕ → List A → Option A
find_case key a [] = none
find_case key a (r ∷ rs) = if key r == a then some r else find_case key a rs

unfoldable pub decode : ℕ → Option ConfigRegister
unfolding address config_registers find_case
decode a = find_case address a config_registers

-- `idt_global_config_registers`. `ntp_barsetup` has the half's number, 1 for the port 0 and 2 for
-- the port 2, behind `ntp0` and `ntp2`.
pub data GlobalRegister : Type 0 where
  ntp0_pciecmdsts ntp0_ntctl ntp2_pciecmdsts ntp2_ntctl : GlobalRegister
  ntp0_barsetup ntp2_barsetup swp0msgctl : ℕ → GlobalRegister
  swport0sts swport2sts swpart0sts : GlobalRegister
  sests selinkupsts selinkdnsts segsigsts segsigmsk : GlobalRegister

unfoldable pub global_address : GlobalRegister → ℕ
global_address ntp0_pciecmdsts = 0x1004
global_address ntp0_ntctl = 0x1400
global_address (ntp0_barsetup i) = 0x1470 + 0x10 * i
global_address swport0sts = 0x3E204
global_address ntp2_pciecmdsts = 0x5004
global_address ntp2_ntctl = 0x5400
global_address (ntp2_barsetup i) = 0x5470 + 0x10 * i
global_address swport2sts = 0x3E244
global_address swpart0sts = 0x3E104
global_address (swp0msgctl i) = 0x3EE00 + 0x20 * i
global_address sests = 0x3EC00
global_address selinkupsts = 0x3EC0C
global_address selinkdnsts = 0x3EC14
global_address segsigsts = 0x3EC30
global_address segsigmsk = 0x3EC34

unfoldable pub global_registers : List GlobalRegister
unfolding indexed
global_registers =
    ntp0_pciecmdsts
      ∷ ntp0_ntctl
      ∷ ntp2_pciecmdsts
      ∷ ntp2_ntctl
      ∷ swport0sts
      ∷ swport2sts
      ∷ swpart0sts
      ∷ sests
      ∷ selinkupsts
      ∷ selinkdnsts
      ∷ segsigsts
      ∷ segsigmsk
      ∷ indexed ntp0_barsetup 0 6
    ++ (indexed ntp2_barsetup 0 6 ++ indexed swp0msgctl 0 4)

unfoldable pub decode_global : ℕ → Option GlobalRegister
unfolding global_address global_registers find_case
decode_global a = find_case global_address a global_registers

-- `msgsts_fields`: the bit of the outbound and of the inbound message register 0.
abbrev pub idt_fld_outmsgsts0 : ℕ
idt_fld_outmsgsts0 = 0

abbrev pub idt_fld_inmsgsts0 : ℕ
idt_fld_inmsgsts0 = 16

-- `barsetup_fields`, of which the handlers read these two.
abbrev pub idt_fld_barsetup_mode : ℕ
idt_fld_barsetup_mode = 10

abbrev pub idt_fld_barsetup_enable : ℕ
idt_fld_barsetup_enable = 31

-- `idt_register_values` and `idt_config_registers_values`
abbrev pub value_swport0sts : ℕ
value_swport0sts = bit_or (bit_or (1 * 2 ^ 4) (8 * 2 ^ 6)) (0 * 2 ^ 10)

abbrev pub value_swpart0sts : ℕ
value_swpart0sts = 1 * 2 ^ 5

abbrev pub value_ntp0_pciecmdsts : ℕ
value_ntp0_pciecmdsts = 1 * 2 ^ 2

abbrev pub value_nt_pcielcap_vm1 : ℕ
value_nt_pcielcap_vm1 = 0 * 2 ^ 24

abbrev pub value_nt_pcielcap_vm2 : ℕ
value_nt_pcielcap_vm2 = 2 * 2 ^ 24

abbrev pub value_nt_pcielctlsts : ℕ
value_nt_pcielctlsts = bit_or (1 * 2 ^ 16) (0b100 * 2 ^ 20)

abbrev pub value_nt_pcicmdsts : ℕ
value_nt_pcicmdsts = 1 * 2 ^ 2

-- `idt_default_config_register_values`
abbrev pub value_nt_barsetup0 : ℕ
value_nt_barsetup0 =
    bit_or (bit_or (bit_or (0 * 2 ^ 1) (0xC * 2 ^ 4)) (1 * 2 ^ idt_fld_barsetup_mode))
      (1 * 2 ^ idt_fld_barsetup_enable)

-- IDT_BAR_APERTURE_POWER and IDT_BAR_APERTURE_SIZE
abbrev pub idt_bar_aperture_power : ℕ
idt_bar_aperture_power = 22

abbrev pub idt_bar_aperture_size : ℕ
idt_bar_aperture_size = 2 ^ idt_bar_aperture_power

abbrev pub value_nt_barsetup2 : ℕ
value_nt_barsetup2 = bit_or (idt_bar_aperture_power * 2 ^ 4) (1 * 2 ^ idt_fld_barsetup_enable)
