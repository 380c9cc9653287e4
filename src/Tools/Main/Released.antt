-- ===== src/Tools/Main/Released.antt =====
-- user_src/ntb_profiling.c: the program gives back all that it takes.
use qemu_ntb_switch.Ring.{Ring}
use qemu_ntb_switch.Tools.Options.{Options}
use qemu_ntb_switch.Tools.Process.{Process}
use qemu_ntb_switch.Tools.Backend.{Backend}
