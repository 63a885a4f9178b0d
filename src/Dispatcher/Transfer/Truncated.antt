-- ===== src/Dispatcher/Transfer/Truncated.antt =====
-- A request that ends before its count does (rust-dap/src/dispatcher.rs, rust-dap/src/cursor.rs).
use rust_dap.Base.{ℕ, suc, ◌≤◌, ◌≡◌, [], ◌∷◌, length, panic, ◌>>=◌, arith, le→not_shorter}
use rust_dap.Cursor.{read}
use rust_dap.CmsisDap.{read_or_zero, read_swd_request}
use rust_dap.Transport.{DapTransport}
use rust_dap.Dispatcher.Session.{Session}
use rust_dap.Dispatcher.Transfer.{transfer_loop, round, transfer_body, transfer}

module _ {T : Type 0} ⦃t : DapTransport T⦄ where
  -- A DAP_Transfer that counts a transfer or more, but ends behind the count, panics, on any
  -- transport and in any state whose response buffer holds the header.
  pub transfer-truncated :
      (dap_index count : ℕ) (s : Session T)
      → 2 ≤ length s.response
      → (transfer (dap_index ∷ suc count ∷ []) s).0 ≡ panic
  unfolding transfer transfer_body transfer_loop round read_swd_request read_or_zero read ◌>>=◌
  transfer-truncated dap_index count s h = ground (arith, le→not_shorter s.response 2 h)
