-- ===== src/Tests/Sessions.antt =====
-- The laws of the dispatcher's state at concrete inputs.
use rust_dap.Base.{ℕ, ◌≡◌, ◌⊎◌, refl, none, some, [], ◌∷◌, take, replicate, ok, err, panic, arith}
use rust_dap.Base.Hoare.{Keeps}
use rust_dap.CmsisDap.{DapError, DapCommandId, dap_ok, dap_error}
use rust_dap.Transport.{ConnectPort, ActivePort}
use rust_dap.Dispatcher.Session.{Session, new}
use rust_dap.Dispatcher.Execute.{execute}
use rust_dap.Dispatcher.Configured.{HoldsConfig}
use rust_dap.Dispatcher.Configured.Execute.{execute-Keeps}
use rust_dap.Dispatcher.Unconnected.{IsUntouched, unconnected-Keeps}
use rust_dap.Dispatcher.Link.{parse_port, port_code, connect, disconnect}
use rust_dap.Dispatcher.Link.Laws.{connect-outcome, disconnect-outcome}
use rust_dap.Dispatcher.Transfer.{transfer}
use rust_dap.Dispatcher.Transfer.Truncated.{transfer-truncated}
use rust_dap.Dispatcher.Block.{transfer_block}
use rust_dap.BitBang.Swd.{SwdBits}
use rust_dap.BitBang.Transports.{swd_transport, jtag_transport}
use rust_dap.BitBang.Combined.{swj_transport}
use rust_dap.BitBang.Shift.{jtag_transfer}
use rust_dap.BitBang.Chain.{transports-IsClockOnly, jtag_transfer-ok}
use rust_dap.Tests.Board.{Board, board_pins, bit_array, bit_array-IsShift, config, with_levels}

abbrev wires : SwdBits Board
wires = with_levels []

abbrev session : Session (SwdBits Board)
session = record { dispatcher = new config; transport = wires; response = replicate 7 0 }

execute-Keeps_example :
    Keeps
      (HoldsConfig {T = SwdBits Board})
      (execute 64 DapCommandId.jtag_configure (2 ∷ 4 ∷ 5 ∷ []))
execute-Keeps_example =
    execute-Keeps (transports-IsClockOnly {W = Board}).0 64 DapCommandId.jtag_configure
      (2 ∷ 4 ∷ 5 ∷ []) (omega arith)

jtag_transfer-ok_example :
    (value : ℕ) × ((jtag_transfer {W = Board} config 0 3 0 (record { levels = []; log = [] })).0
      ≡ ok value)
jtag_transfer-ok_example =
    jtag_transfer-ok bit_array-IsShift config 0 3 0 (record { levels = []; log = [] }) (omega arith)

unconnected-Keeps_example :
    Keeps (IsUntouched wires) (transfer (0 ∷ 1 ∷ 2 ∷ []))
    × Keeps (IsUntouched wires) (transfer_block (0 ∷ 1 ∷ 2 ∷ []))
unconnected-Keeps_example = unconnected-Keeps wires (0 ∷ 1 ∷ 2 ∷ [])

connect-outcome_example :
    let x = connect (1 ∷ []) session in
    let y = (swd_transport {W = Board}).connect ConnectPort.swd config wires in
    (x.1.transport ≡ y.1)
    × (((a : ActivePort) × (y.0 ≡ ok a)
          × (x.0 ≡ ok (1, 1))
          × (x.1.dispatcher.active ≡ some a)
          × (take 1 x.1.response ≡ port_code a ∷ []))
        ⊎ ((e : DapError) × (y.0 ≡ err e)
            × (x.0 ≡ ok (1, 1))
            × (x.1.dispatcher.active ≡ none)
            × (take 1 x.1.response ≡ 0 ∷ []))
        ⊎ ((y.0 ≡ panic) × (x.0 ≡ panic)))
unfolding parse_port
connect-outcome_example = connect-outcome 1 [] ConnectPort.swd session refl (omega arith)

disconnect-outcome_example :
    let x = disconnect [] session in
    let y = (swd_transport {W = Board}).disconnect config wires in
    (x.1.dispatcher.active ≡ none)
    × (x.1.transport ≡ y.1)
    × (((y.0 ≡ ok tt) × (x.0 ≡ ok (0, 1)) × (take 1 x.1.response ≡ dap_ok ∷ []))
        ⊎ ((e : DapError) × (y.0 ≡ err e)
            × (x.0 ≡ ok (0, 1))
            × (take 1 x.1.response ≡ dap_error ∷ []))
        ⊎ ((y.0 ≡ panic) × (x.0 ≡ panic)))
disconnect-outcome_example = disconnect-outcome [] session (omega arith)

transfer-truncated_example : (transfer (0 ∷ 1 ∷ []) session).0 ≡ panic
transfer-truncated_example = transfer-truncated 0 0 session (omega arith)
