-- ===== src/Dispatcher/Swj.antt =====
-- The commands on the SWJ pins, and the scan chain's IDCODE (rust-dap/src/dispatcher.rs).
pub mod Bounds
use rust_dap.Base.{
  ℕ, ◌+◌, ◌/◌, ◌⊎◌, inl, inr, List, shorter, length, bit_and, ◌==◌, if◌then◌else◌, M, ok, pure,
  gets, throw_if, attempt, index, slice, ◌>>=◌, ◌>>◌,
}
use rust_dap.Base.Words.{from_le, le_bytes4}
use rust_dap.CmsisDap.{DapError, invalid_command, dap_ok, dap_error}
use rust_dap.Transport.{DapTransport, DapConfig}
use rust_dap.Dispatcher.Session.{Session, CommandResult, on_transport, set_config, put, put_slice}

-- `map_or(0, ..)`
abbrev pins_byte : DapError ⊎ ℕ → ℕ
pins_byte (inr pins) = pins
pins_byte (inl e) = 0

abbrev clock_byte : DapError ⊎ Unit {0} → ℕ
clock_byte (inr _) = dap_ok
clock_byte (inl e) = dap_error

module _ {T : Type 0} ⦃t : DapTransport T⦄ where
  -- `SwjPins` names all eight bits, so `from_bits_truncate` keeps the byte.
  unfoldable pub swj_pins : List ℕ → CommandResult T
  swj_pins request = do
    throw_if (shorter request 6) invalid_command
    output ← index request 0
    select ← index request 1
    wait ← slice request 2 4
    config ← gets (λ (s : Session T). s.dispatcher.config)
    input ← attempt (on_transport (t.swj_pins config output select (from_le wait)))
    put 0 (pins_byte input)
    pure (6, 1)

  -- The call that sets the clock may change the configuration.
  unfoldable pub set_clock : ℕ → M (Session T) DapError (Unit {0})
  set_clock hz s =
      let (r, after) = t.swj_clock hz (s.transport, s.dispatcher.config) in
      (r, set_config after.1 (record s { transport = after.0 }))

  unfoldable pub swj_clock : List ℕ → CommandResult T
  unfolding set_clock
  swj_clock request = do
    throw_if (shorter request 4) invalid_command
    hz ← slice request 0 4
    outcome ← attempt (set_clock (from_le hz))
    put 0 (clock_byte outcome)
    pure (4, 1)

  unfoldable pub swj_sequence : List ℕ → CommandResult T
  swj_sequence request = do
    throw_if (shorter request 1) invalid_command
    byte ← index request 0
    let count = if byte == 0 then 256 else byte
    let count_bytes = (count + 7) / 8
    config ← gets (λ (s : Session T). s.dispatcher.config)
    if shorter request (count_bytes + 1)
        then (do put 0 dap_error; pure (length request, 1))
        else (do
          bits ← slice request 1 count_bytes
          on_transport (t.swj_sequence config count bits)
          put 0 dap_ok
          pure (count_bytes + 1, 1))

  unfoldable pub jtag_idcode : List ℕ → CommandResult T
  jtag_idcode request = do
    throw_if (shorter request 1) invalid_command
    byte ← index request 0
    config ← gets (λ (s : Session T). s.dispatcher.config)
    idcode ← on_transport (t.jtag_idcode config byte)
    put 0 dap_ok
    put_slice 1 (le_bytes4 idcode)
    pure (1, 5)
