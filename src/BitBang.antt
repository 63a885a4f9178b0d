-- ===== src/BitBang.antt =====
-- The bit-banging transports (rust-dap/src/bitbang.rs).
pub mod Pins
pub mod Swd
pub mod Transfer
pub mod Jtag
pub mod Shift
pub mod Transports
pub mod Combined
pub mod Emits
pub mod Reads
pub mod Requests
pub mod Phases
pub mod Lawful
pub mod Chain
