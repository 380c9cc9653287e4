-- ===== src/Window/Frame.antt =====
-- Bringing an alias up to date ends without a fault, and changes nothing but the alias state.
use qemu_ntb_switch.Prelude.{ℕ, ◌≡◌, ap, arith, some}
use qemu_ntb_switch.Shm.{Slot}
use qemu_ntb_switch.Device.{World, Ensures}
use qemu_ntb_switch.Notify.Safety.{Kept}
use qemu_ntb_switch.Window.{
  Host, idt_bar_update_peer_ram_alias, update_window_alias, set_peer_ram_alias, place_alias,
  idt_init_peer_ram_region, idt_bar_remove_peer_ram_alias,
}

-- What an alias update leaves alone.
pub record OnlyAliases (w w' : World) : Type 0 where
  pub shm : w'.shm ≡ w.shm
  pub dev : w'.dev ≡ record w.dev {
    peer_ram_initialized = w'.dev.peer_ram_initialized;
    peer_ram_alias_initialized = w'.dev.peer_ram_alias_initialized;
    peer_ram_alias_mapped = w'.dev.peer_ram_alias_mapped;
    peer_ram_size = w'.dev.peer_ram_size;
  }

set_peer_ram_alias-OnlyAliases :
    (idx offset window : ℕ) (w : World)
    → Ensures (set_peer_ram_alias idx offset window w) (λ _ w'. OnlyAliases w w')
unfolding set_peer_ram_alias
set_peer_ram_alias-OnlyAliases idx offset window w = ground arith

pub idt_bar_update_peer_ram_alias-OnlyAliases :
    (h : Host) (idx : ℕ) (w : World) (p : Slot)
    → w.dev.slot ≡ some p
    → Ensures (idt_bar_update_peer_ram_alias h idx w) (λ _ w'. OnlyAliases w w')
unfolding idt_bar_update_peer_ram_alias update_window_alias idt_init_peer_ram_region
    idt_bar_remove_peer_ram_alias place_alias
idt_bar_update_peer_ram_alias-OnlyAliases h idx w p e = ground arith

pub Kept-OnlyAliases : {w w' : World} → OnlyAliases w w' → Kept w w'
Kept-OnlyAliases n = record {
  slot = ap (λ d. d.slot) n.dev;
  peers = ap (λ d. d.peers) n.dev;
  nb_peers = ap (λ d. d.nb_peers) n.dev;
  vm_id = ap (λ d. d.vm_id) n.dev;
  bars_addr = ap (λ d. d.bars_addr) n.dev;
}
