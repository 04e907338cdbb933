-- ===== src/Examples.antt =====
-- Concrete inputs at which the theorems apply.
mod Values
pub mod Quads
mod Tasks
mod Inputs
mod Radios
mod Frames
mod Fields
mod Devices
mod Slaves
pub mod Sdos
mod Rounds
mod Settings
mod Complete
mod Starts
mod Files
mod Systems
