-- ===== src/CmsisDap.antt =====
-- The constants, errors and small codecs of the protocol (rust-dap/src/cmsis_dap.rs).
mod Ids
mod Flags
mod Acc
pub mod Laws
unfoldable pub use Ids.*
unfoldable pub use Flags.*
unfoldable pub use Acc.*
