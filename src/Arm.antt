-- ===== src/Arm.antt =====
-- `ArmDebug`, the ADIv5 access layer on a transport (arm-debug/src/lib.rs).
pub mod Port
pub mod Memory
pub mod Ram
pub mod Bytes
pub mod Target
pub mod Connect
pub mod Nordic
pub mod Core
pub mod Call
pub mod Units
