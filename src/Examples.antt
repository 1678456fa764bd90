-- ===== src/Examples.antt =====
-- Runs of the theorems at concrete inputs: a chip of the simulator that is blank, then formatted.
mod Card
mod Files
mod Wires
mod Loader
mod Reader
mod Power
mod Factory
mod Rom
mod Install
mod Ports
mod Paths
mod Commands
mod Lifetimes
