-- ===== src/System/Defs.antt =====
-- The state of both machines, and a guest's register write as a step of it.
use qemu_ntb_switch.Prelude.{◌≡◌, [], some}
use qemu_ntb_switch.Shm.{ShmStorage, Slot, first, second}
use qemu_ntb_switch.Device.{IvshmemState, World}
use qemu_ntb_switch.Notify.Safety.{PeersFit}

-- The calls that the devices have made of their QEMUs are left out.
pub record System : Type 0 where
  pub shm : ShmStorage
  pub dev1 : IvshmemState
  pub dev2 : IvshmemState

abbrev pub dev_of : Slot → System → IvshmemState
dev_of first s = s.dev1
dev_of second s = s.dev2

abbrev pub world_of : Slot → System → World
world_of p s = record { dev = dev_of p s; shm = s.shm; calls = [] }

abbrev pub with_world : Slot → World → System → System
with_world first w s = record s { shm = w.shm; dev1 = w.dev }
with_world second w s = record s { shm = w.shm; dev2 = w.dev }

-- Both devices are realized, each on its own half.
pub record IsConnected (s : System) : Type 0 where
  pub slot1 : s.dev1.slot ≡ some first
  pub slot2 : s.dev2.slot ≡ some second
  pub fit1 : PeersFit s.dev1
  pub fit2 : PeersFit s.dev2
