-- ===== src/Dispatcher/Link.antt =====
-- DAP_Connect and DAP_Disconnect (rust-dap/src/dispatcher.rs).
pub mod Bounds
pub mod Laws
use rust_dap.Base.{
  ℕ, Option, none, some, List, shorter, ◌⊎◌, inl, inr, ◌==◌, if◌then◌else◌, M, pure, gets, modify,
  throw_if, from_option, index, attempt, ◌>>=◌, ◌>>◌,
}
use rust_dap.CmsisDap.{DapError, invalid_command, dap_ok, dap_error}
use rust_dap.Transport.{DapTransport, DapConfig, ConnectPort, ActivePort}
use rust_dap.Dispatcher.Session.{Session, CommandResult, on_transport, set_active, put}

unfoldable pub parse_port : ℕ → Option ConnectPort
parse_port byte =
    if byte == 0
    then some ConnectPort.default
    else if byte == 1
    then some ConnectPort.swd
    else if byte == 2
    then some ConnectPort.jtag
    else none

abbrev pub port_code : ActivePort → ℕ
port_code ActivePort.swd = 1
port_code ActivePort.jtag = 2

-- What a connection attempt leaves, and its answer: a failed one keeps the active port.
unfoldable pub record_port : {T : Type 0} → DapError ⊎ ActivePort → M (Session T) DapError ℕ
record_port (inr active) = do modify (set_active (some active)); pure (port_code active)
record_port (inl e) = pure 0

abbrev status_byte : {A : Type 0} → DapError ⊎ A → ℕ
status_byte (inr a) = dap_ok
status_byte (inl e) = dap_error

module _ {T : Type 0} ⦃t : DapTransport T⦄ where
  unfoldable pub connect : List ℕ → CommandResult T
  unfolding record_port
  connect request = do
    throw_if (shorter request 1) invalid_command
    byte ← index request 0
    port ← from_option invalid_command (parse_port byte)
    config ← gets (λ (s : Session T). s.dispatcher.config)
    outcome ← attempt (on_transport (t.connect port config))
    answer ← record_port outcome
    put 0 answer
    pure (1, 1)

  unfoldable pub disconnect : List ℕ → CommandResult T
  disconnect request = do
    modify (set_active none)
    config ← gets (λ (s : Session T). s.dispatcher.config)
    outcome ← attempt (on_transport (t.disconnect config))
    put 0 (status_byte outcome)
    pure (0, 1)
