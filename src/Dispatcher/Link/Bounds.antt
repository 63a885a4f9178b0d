-- ===== src/Dispatcher/Link/Bounds.antt =====
-- The handlers of Link stay inside the request and the response (rust-dap/src/dispatcher.rs).
use rust_dap.Base.{ℕ, List, length-overwrite, ◌>>=◌, not_shorter→le, arith}
use rust_dap.Base.Hoare.{Ensures}
use rust_dap.Transport.{DapTransport}
use rust_dap.Dispatcher.Session.{put_slice, IsSized, Within}
use rust_dap.Dispatcher.Link.{connect, disconnect}

module _ {T : Type 0} ⦃t : DapTransport T⦄ (request : List ℕ) (n : ℕ) where
  pub connect-Within : Ensures (IsSized n) (connect {T = T} request) (Within request n)
  unfolding connect ◌>>=◌ put_slice
  connect-Within s h = grind (arith, not_shorter→le {0}, length-overwrite {0})

  pub disconnect-Within : Ensures (IsSized n) (disconnect {T = T} request) (Within request n)
  unfolding disconnect ◌>>=◌ put_slice
  disconnect-Within s h = grind (arith, not_shorter→le {0}, length-overwrite {0})
