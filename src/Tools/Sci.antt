-- ===== src/Tools/Sci.antt =====
-- user_src/ntb_sisci.c: the SISCI library over the device of the SISCI driver.
mod Types
mod Segments
mod Maps
unfoldable pub use Types.*
unfoldable pub use Segments.*
unfoldable pub use Maps.*
