-- ===== src/Dispatcher/Swj/Bounds.antt =====
-- The handlers of Swj stay inside the request and the response (rust-dap/src/dispatcher.rs).
use rust_dap.Base.{ℕ, List, length-overwrite, ◌>>=◌, not_shorter→le, arith}
use rust_dap.Base.Hoare.{Ensures}
use rust_dap.Transport.{DapTransport}
use rust_dap.Dispatcher.Session.{put_slice, IsSized, Within}
use rust_dap.Dispatcher.Swj.{swj_pins, swj_clock, swj_sequence, jtag_idcode}

module _ {T : Type 0} ⦃t : DapTransport T⦄ (request : List ℕ) (n : ℕ) where
  pub swj_pins-Within : Ensures (IsSized n) (swj_pins {T = T} request) (Within request n)
  unfolding swj_pins ◌>>=◌ put_slice
  swj_pins-Within s h = grind (arith, not_shorter→le {0}, length-overwrite {0})

  pub swj_clock-Within : Ensures (IsSized n) (swj_clock {T = T} request) (Within request n)
  unfolding swj_clock ◌>>=◌ put_slice
  swj_clock-Within s h = grind (arith, not_shorter→le {0}, length-overwrite {0})

  pub swj_sequence-Within : Ensures (IsSized n) (swj_sequence {T = T} request) (Within request n)
  unfolding swj_sequence ◌>>=◌ put_slice
  swj_sequence-Within s h = grind (arith, not_shorter→le {0}, length-overwrite {0})

  pub jtag_idcode-Within : Ensures (IsSized n) (jtag_idcode {T = T} request) (Within request n)
  unfolding jtag_idcode ◌>>=◌ put_slice
  jtag_idcode-Within s h = grind (arith, not_shorter→le {0}, length-overwrite {0})
