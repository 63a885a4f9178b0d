-- ===== src/Dispatcher/Configured/Commands.antt =====
-- Every command keeps the configuration in order (rust-dap/src/dispatcher.rs).
use rust_dap.Base.{ℕ, zero, suc, ◌+◌, Bool, true, false, List, Option, ◌⊎◌, inl, inr}
use rust_dap.Base.Hoare.{Keeps, Keeps-bind}
use rust_dap.CmsisDap.{DapError}
use rust_dap.Transport.{DapTransport, ActivePort}
use rust_dap.Dispatcher.Configured.{HoldsConfig, session_rules}
use rust_dap.Dispatcher.Config.{write_str, host_status}
use rust_dap.Dispatcher.Link.{record_port, connect, disconnect}
use rust_dap.Dispatcher.Swj.{swj_pins, swj_sequence, jtag_idcode}
use rust_dap.Dispatcher.Sequences.{
  swd_input, swd_output, swd_step, swd_loop, swd_sequence, capture, jtag_loop, jtag_sequence,
}

module _ {T : Type 0} ⦃t : DapTransport T⦄ where
  pub write_str-Keeps : (bytes : List ℕ) → Keeps HoldsConfig (write_str {T = T} bytes)
  unfolding write_str
  write_str-Keeps bytes = search session_rules depth 9

  pub host_status-Keeps : (request : List ℕ) → Keeps HoldsConfig (host_status {T = T} request)
  unfolding host_status
  host_status-Keeps request = search session_rules depth 9

  pub swj_pins-Keeps : (request : List ℕ) → Keeps HoldsConfig (swj_pins {T = T} request)
  unfolding swj_pins
  swj_pins-Keeps request = search session_rules depth 12

  pub swj_sequence-Keeps : (request : List ℕ) → Keeps HoldsConfig (swj_sequence {T = T} request)
  unfolding swj_sequence
  swj_sequence-Keeps request = search session_rules depth 12

  pub jtag_idcode-Keeps : (request : List ℕ) → Keeps HoldsConfig (jtag_idcode {T = T} request)
  unfolding jtag_idcode
  jtag_idcode-Keeps request = search session_rules depth 12

  pub disconnect-Keeps : (request : List ℕ) → Keeps HoldsConfig (disconnect {T = T} request)
  unfolding disconnect
  disconnect-Keeps request = search session_rules depth 12

  record_port-Keeps : (r : DapError ⊎ ActivePort) → Keeps HoldsConfig (record_port {T = T} r)
  unfolding record_port
  record_port-Keeps (inl e) = search session_rules depth 9
  record_port-Keeps (inr a) = search session_rules depth 9

  pub connect-Keeps : (request : List ℕ) → Keeps HoldsConfig (connect {T = T} request)
  unfolding connect
  connect-Keeps request = search (session_rules, record_port-Keeps) depth 12

  swd_input-Keeps :
      (request : List ℕ) (a b c d : ℕ) → Keeps HoldsConfig (swd_input {T = T} request a b c d)
  unfolding swd_input
  swd_input-Keeps request a b c d = search session_rules depth 12

  swd_output-Keeps :
      (request : List ℕ) (a b c d : ℕ) → Keeps HoldsConfig (swd_output {T = T} request a b c d)
  unfolding swd_output
  swd_output-Keeps request a b c d = search session_rules depth 12

  swd_step-Keeps :
      (request : List ℕ) (a b c : ℕ) → Keeps HoldsConfig (swd_step {T = T} request a b c)
  unfolding swd_step
  swd_step-Keeps request a b c = search (session_rules, swd_input-Keeps, swd_output-Keeps) depth 9

  swd_loop-Keeps :
      (request : List ℕ) (n a b : ℕ) → Keeps HoldsConfig (swd_loop {T = T} request n a b)
  unfolding swd_loop
  swd_loop-Keeps request zero a b = search session_rules
  swd_loop-Keeps request (suc n) a b = Keeps-bind _ _ (search session_rules) λ _.
      Keeps-bind _ _ (search session_rules) λ info.
        Keeps-bind _ _ (swd_step-Keeps request info (a + 1) b) λ moved.
          Keeps-bind _ _ (search session_rules depth 9)
            λ _. swd_loop-Keeps request n moved.0 moved.1

  pub swd_sequence-Keeps : (request : List ℕ) → Keeps HoldsConfig (swd_sequence {T = T} request)
  unfolding swd_sequence
  swd_sequence-Keeps request = search (session_rules, swd_loop-Keeps) depth 12

  capture-Keeps : (b : Bool) (m n : ℕ) (o : Option ℕ) → Keeps HoldsConfig (capture {T = T} b m n o)
  unfolding capture
  capture-Keeps false m n o = search session_rules
  capture-Keeps true m n o = search session_rules depth 12

  jtag_loop-Keeps :
      (n : ℕ) (rest : List ℕ) (a b : ℕ) → Keeps HoldsConfig (jtag_loop {T = T} n rest a b)
  unfolding jtag_loop
  jtag_loop-Keeps zero rest a b = search session_rules
  jtag_loop-Keeps (suc n) rest a b = Keeps-bind _ _ (search session_rules) λ _.
      Keeps-bind _ _ (search session_rules) λ byte. Keeps-bind _ _ (search session_rules) λ _.
        Keeps-bind _ _ (search session_rules) λ tdi. Keeps-bind _ _ (search session_rules) λ config.
          Keeps-bind _ _ (search session_rules)
            λ tdo. Keeps-bind _ _ (capture-Keeps _ _ b tdo) λ written. jtag_loop-Keeps n _ _ written

  pub jtag_sequence-Keeps : (request : List ℕ) → Keeps HoldsConfig (jtag_sequence {T = T} request)
  unfolding jtag_sequence
  jtag_sequence-Keeps request = search (session_rules, jtag_loop-Keeps) depth 12
