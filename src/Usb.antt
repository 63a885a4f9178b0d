-- ===== src/Usb.antt =====
-- The USB class (rust-dap/src/usb.rs): packet framing around the dispatcher.
pub mod Device
pub mod Process
pub mod Buffers
pub mod Answers
pub mod Bounds
pub mod Served
