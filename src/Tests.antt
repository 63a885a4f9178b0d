-- ===== src/Tests.antt =====
-- Mock boards, and the theorems at concrete inputs.
mod Board
mod Wires
mod Commands
mod Sessions
mod Posted
mod Simulated
mod Memory
mod Units
mod Cores
mod Debugger
