-- ===== src/Dispatcher/Execute/Bounds.antt =====
-- Every command stays inside the request and the response (rust-dap/src/dispatcher.rs).
use rust_dap.Base.{ℕ, List, ◌>>=◌}
use rust_dap.Base.Hoare.{Ensures}
use rust_dap.Transport.{DapTransport, IsLawful}
use rust_dap.CmsisDap.{DapCommandId}
use rust_dap.Dispatcher.Session.{IsSized, Within}
use rust_dap.Dispatcher.Config.Bounds.{
  dap_info-Within, host_status-Within, transfer_configure-Within, swd_configure-Within,
  jtag_configure-Within,
}
use rust_dap.Dispatcher.Link.Bounds.{connect-Within, disconnect-Within}
use rust_dap.Dispatcher.Transfer.Bounds.{transfer-Within}
use rust_dap.Dispatcher.Block.Bounds.{transfer_block-Within}
use rust_dap.Dispatcher.Swj.Bounds.{
  swj_pins-Within, swj_clock-Within, swj_sequence-Within, jtag_idcode-Within,
}
use rust_dap.Dispatcher.Sequences.Bounds.{swd_sequence-Within, jtag_sequence-Within}
use rust_dap.Dispatcher.Execute.{execute}

-- Over any transport that keeps the length of a buffer lent to it, any command that returns Ok has
-- consumed no more bytes than the request holds and produced no more than the response buffer
-- holds, and the response buffer keeps its length, also where the command fails.
pub execute-Within :
    {T : Type 0} ⦃t : DapTransport T⦄ (lawful : IsLawful t) (max_packet_size : ℕ)
    (command : DapCommandId) (request : List ℕ) (n : ℕ)
    → Ensures (IsSized {T = T} n) (execute max_packet_size command request) (Within request n)
unfolding execute ◌>>=◌
execute-Within lawful m DapCommandId.info request n = dap_info-Within n m request
execute-Within lawful m DapCommandId.host_status request n = host_status-Within request n
execute-Within lawful m DapCommandId.connect request n = connect-Within request n
execute-Within lawful m DapCommandId.disconnect request n = disconnect-Within request n
execute-Within lawful m DapCommandId.transfer_configure request n =
    transfer_configure-Within request n
execute-Within lawful m DapCommandId.transfer request n = transfer-Within request n
execute-Within lawful m DapCommandId.transfer_block request n = transfer_block-Within request n
execute-Within lawful m DapCommandId.swj_pins request n = swj_pins-Within request n
execute-Within lawful m DapCommandId.swj_clock request n = swj_clock-Within request n
execute-Within lawful m DapCommandId.swj_sequence request n = swj_sequence-Within request n
execute-Within lawful m DapCommandId.swd_configure request n = swd_configure-Within request n
execute-Within lawful m DapCommandId.swd_sequence request n = swd_sequence-Within request n lawful
execute-Within lawful m DapCommandId.jtag_sequence request n = jtag_sequence-Within request n
execute-Within lawful m DapCommandId.jtag_configure request n = jtag_configure-Within request n
execute-Within lawful m DapCommandId.jtag_idcode request n = jtag_idcode-Within request n
execute-Within lawful m _ request n = λ s h. h
