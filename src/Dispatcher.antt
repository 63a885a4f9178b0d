-- ===== src/Dispatcher.antt =====
-- The command parser and the transfer policy (rust-dap/src/dispatcher.rs).
pub mod Session
pub mod Config
pub mod Link
pub mod Retry
pub mod Transfer
pub mod Block
pub mod Swj
pub mod Sequences
pub mod Execute
pub mod Configured
pub mod Unconnected
