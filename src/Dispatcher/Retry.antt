-- ===== src/Dispatcher/Retry.antt =====
-- One transfer on the active port, and the retry of a WAIT (rust-dap/src/dispatcher.rs).
pub mod Policy
use rust_dap.Base.{
  ℕ, zero, suc, Bool, true, false, ◌||◌, not, Option, none, some, ◌==◌, if◌then◌else◌, Result, M,
  ok, err, panic, throw,
}
use rust_dap.CmsisDap.{
  DapError, invalid_command, invalid_dap_info_id, swd_error, internal_error, exceed_retry_count,
  not_supported, dap_transfer_wait,
}
use rust_dap.Transport.{DapTransport, DapConfig, ActivePort}
use rust_dap.Dispatcher.Session.{Dispatcher}

module _ {T : Type 0} where
  -- What a round of the loop makes of its transfer: `again` runs the next one, and `spent` says
  -- that the count has reached its bound.
  unfoldable pub after_transfer :
      M T DapError ℕ → Bool → Result DapError ℕ × T → Result DapError ℕ × T
  after_transfer again spent (ok value, s) = (ok value, s)
  after_transfer again spent (err (swd_error e), s) =
      if not (e == dap_transfer_wait) || spent then (err (swd_error e), s) else again s
  after_transfer again spent (err invalid_command, s) = (err invalid_command, s)
  after_transfer again spent (err invalid_dap_info_id, s) = (err invalid_dap_info_id, s)
  after_transfer again spent (err internal_error, s) = (err internal_error, s)
  after_transfer again spent (err exceed_retry_count, s) = (err exceed_retry_count, s)
  after_transfer again spent (err not_supported, s) = (err not_supported, s)
  after_transfer again spent (panic, s) = (panic, s)

  -- `left` is `self.config.retry_count - retry_count`.
  unfoldable pub retry_loop : M T DapError ℕ → ℕ → M T DapError ℕ
  unfolding after_transfer
  retry_loop once zero s = after_transfer once true (once s)
  retry_loop once (suc left) s = after_transfer (retry_loop once left) false (once s)

module _ {T : Type 0} ⦃t : DapTransport T⦄ where
  unfoldable pub transfer_on : Option ActivePort → DapConfig → ℕ → ℕ → ℕ → M T DapError ℕ
  transfer_on (some ActivePort.swd) config dap_index request bits =
      t.swd_transfer config request bits
  transfer_on (some ActivePort.jtag) config dap_index request bits =
      t.jtag_transfer config dap_index request bits
  transfer_on none config dap_index request bits = throw not_supported

  unfoldable pub transfer_once : Dispatcher → ℕ → ℕ → ℕ → M T DapError ℕ
  unfolding transfer_on
  transfer_once d dap_index request bits = transfer_on d.active d.config dap_index request bits

  unfoldable pub transfer_with_retry : Dispatcher → ℕ → ℕ → ℕ → M T DapError ℕ
  transfer_with_retry d dap_index request bits =
      retry_loop (transfer_once d dap_index request bits) d.config.retry_count
