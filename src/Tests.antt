-- ===== src/Tests.antt =====
-- Runs of the model and instances of the theorems at concrete machines.
pub mod Worlds
mod Messages
mod Delivery
mod Peers
mod Ring
mod Setup
pub mod Drivers
mod Sisci
mod Frames
mod Faults
mod Members
mod Windows
mod Tools
