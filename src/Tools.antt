-- ===== src/Tools.antt =====
-- user_src: the options of the profiling tool, the SISCI library, the two backends and main.
pub mod Numbers
pub mod Decimal
pub mod Sizes
pub mod Options
pub mod Admissible
pub mod Process
pub mod Sci
pub mod Backend
pub mod Ledger
pub mod Sisci
pub mod Generic
pub mod Loops
pub mod Main
pub mod Attached
