-- ===== src/Dispatcher/Execute.antt =====
-- The dispatch of one command (rust-dap/src/dispatcher.rs).
pub mod Bounds
use rust_dap.Base.{ℕ, List, throw}
use rust_dap.CmsisDap.{DapCommandId, invalid_command}
use rust_dap.Transport.{DapTransport}
use rust_dap.Dispatcher.Session.{CommandResult}
use rust_dap.Dispatcher.Config.{
  dap_info, host_status, transfer_configure, swd_configure, jtag_configure,
}
use rust_dap.Dispatcher.Link.{connect, disconnect}
use rust_dap.Dispatcher.Transfer.{transfer}
use rust_dap.Dispatcher.Block.{transfer_block}
use rust_dap.Dispatcher.Swj.{swj_pins, swj_clock, swj_sequence, jtag_idcode}
use rust_dap.Dispatcher.Sequences.{swd_sequence, jtag_sequence}

unfoldable pub execute :
    {T : Type 0} ⦃t : DapTransport T⦄ → ℕ → DapCommandId → List ℕ → CommandResult T
execute max_packet_size DapCommandId.info request = dap_info max_packet_size request
execute max_packet_size DapCommandId.host_status request = host_status request
execute max_packet_size DapCommandId.connect request = connect request
execute max_packet_size DapCommandId.disconnect request = disconnect request
execute max_packet_size DapCommandId.transfer_configure request = transfer_configure request
execute max_packet_size DapCommandId.transfer request = transfer request
execute max_packet_size DapCommandId.transfer_block request = transfer_block request
execute max_packet_size DapCommandId.transfer_abort request = throw invalid_command
execute max_packet_size DapCommandId.write_abort request = throw invalid_command
execute max_packet_size DapCommandId.delay request = throw invalid_command
execute max_packet_size DapCommandId.reset_target request = throw invalid_command
execute max_packet_size DapCommandId.swj_pins request = swj_pins request
execute max_packet_size DapCommandId.swj_clock request = swj_clock request
execute max_packet_size DapCommandId.swj_sequence request = swj_sequence request
execute max_packet_size DapCommandId.swd_configure request = swd_configure request
execute max_packet_size DapCommandId.swd_sequence request = swd_sequence request
execute max_packet_size DapCommandId.jtag_sequence request = jtag_sequence request
execute max_packet_size DapCommandId.jtag_configure request = jtag_configure request
execute max_packet_size DapCommandId.jtag_idcode request = jtag_idcode request
