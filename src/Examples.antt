-- ===== src/Examples.antt =====
-- Tests of the definitions, and every result that has hypotheses at a concrete input.
pub mod Subframes
pub mod Blocks
pub mod Playing
pub mod Devices
pub mod Serialiser
pub mod Pins
pub mod Streaming
pub mod Options
pub mod Board
pub mod Machines
pub mod Files
pub mod Runs
