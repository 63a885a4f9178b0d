-- ===== src/Dispatcher/Configured/Execute.antt =====
-- Transfers, and with them every command, keep the configuration in order
-- (rust-dap/src/dispatcher.rs).
use rust_dap.Base.{ℕ, List, All, ok, err, panic, Result, arith, drop, take}
use rust_dap.Base.Words.{IsByte}
use rust_dap.Base.Hoare.{Keeps, Keeps-zoom, Keeps-bind, Keeps-throw}
use rust_dap.Cursor.{BufferCursor}
use rust_dap.Cursor
use rust_dap.CmsisDap.{DapError, DapCommandId, read_swd_request, read_u32, write_u32}
use rust_dap.Transport.{DapTransport}
use rust_dap.Dispatcher.Session.{Dispatcher}
use rust_dap.Dispatcher.Configured.{IsConfigured, IsClockOnly, HoldsConfig, session_rules}
use rust_dap.Dispatcher.Configured.Commands.{
  host_status-Keeps, swj_pins-Keeps, swj_sequence-Keeps, jtag_idcode-Keeps, disconnect-Keeps,
  connect-Keeps, swd_sequence-Keeps, jtag_sequence-Keeps,
}
use rust_dap.Dispatcher.Configured.Settings.{
  dap_info-Keeps, transfer_configure-Keeps, swd_configure-Keeps, jtag_configure-Keeps,
  swj_clock-Keeps,
}
use rust_dap.Dispatcher.Transfer.{Xfer, call, start, close, transfer, transfer_body}
use rust_dap.Dispatcher.Transfer.Keeps.{IsStable, transfer_body-Keeps}
use rust_dap.Dispatcher.Block.{Block, block_body, block_counted, transfer_block}
use rust_dap.Dispatcher.Block
use rust_dap.Dispatcher.Execute.{execute}

module _ {T : Type 0} ⦃t : DapTransport T⦄ where
  abbrev HoldsMask : Xfer T → Type 0
  HoldsMask x = IsConfigured x.dispatcher.config

  call-Keeps : (dap_index request bits : ℕ) → Keeps HoldsMask (call {T = T} dap_index request bits)
  unfolding call
  call-Keeps dap_index request bits = record { run = λ x h. h }

  HoldsMask-IsStable : (dap_index : ℕ) → IsStable dap_index HoldsMask
  HoldsMask-IsStable dap_index = record {
    calls = call-Keeps dap_index;
    request_byte = Keeps-zoom _ _ read_swd_request λ x h. h;
    request_word = Keeps-zoom _ _ read_u32 λ x h. h;
    response_word = λ value. Keeps-zoom _ _ (write_u32 value) λ x h. h;
    posted = λ b x h. h;
    issued = λ b x h. h;
    mask = λ value x h. h;
    left = λ n x h. h;
    counted = λ x h. h;
  }

  close-Keeps :
      (header : List ℕ) (x : Result DapError ℕ × Xfer T)
      → HoldsMask x.1
      → HoldsConfig (close header x).1
  close-Keeps header (ok code, x) h = h
  close-Keeps header (err e, x) h = h
  close-Keeps header (panic, x) h = h

  transfer-Keeps : (request : List ℕ) → Keeps HoldsConfig (transfer {T = T} request)
  unfolding transfer
  transfer-Keeps request = Keeps-bind _ _ (search session_rules) λ _.
      Keeps-bind _ _ (search session_rules) λ dap_index.
        Keeps-bind _ _ (search session_rules) λ count.
          Keeps-bind _ _ (search session_rules) λ response.
            Keeps-bind _ _ (search session_rules) λ _. record {
              run = λ s h.
                  close-Keeps (take 2 s.response)
                    (transfer_body dap_index count (start request count s))
                    ((transfer_body-Keeps dap_index (HoldsMask-IsStable dap_index) count).run
                      (start request count s) h);
            }

  close_block-Keeps :
      (d : Dispatcher) (header : List ℕ) (x : Result DapError ℕ × Block T)
      → IsConfigured d.config
      → HoldsConfig (Block.close d header x).1
  close_block-Keeps d header (ok code, x) h = h
  close_block-Keeps d header (err e, x) h = h
  close_block-Keeps d header (panic, x) h = h

  block_counted-Keeps :
      (dap_index : ℕ) (x : Result DapError ℕ × BufferCursor)
      → Keeps HoldsConfig (block_counted {T = T} dap_index x)
  unfolding block_counted
  block_counted-Keeps dap_index (ok n, c) = record {
    run = λ s h. ground (
      arith,
      close_block-Keeps s.dispatcher (take 3 s.response)
          (block_body s.dispatcher dap_index n (record {
            transport = s.transport;
            request = c;
            response = Cursor.new (drop 3 s.response);
            response_count = 0;
          }))
          h,
    );
  }
  block_counted-Keeps dap_index (err e, c) = record { run = λ s h. h }
  block_counted-Keeps dap_index (panic, c) = record { run = λ s h. h }

  transfer_block-Keeps : (request : List ℕ) → Keeps HoldsConfig (transfer_block {T = T} request)
  unfolding transfer_block
  transfer_block-Keeps request = search (session_rules, block_counted-Keeps) depth 12

-- Over any transport whose clock call sets no more than the clocks, every command, also one that
-- fails, keeps the configuration in order: the table of the chain has its eight entries and the
-- number of devices is within it, a turnaround takes one to four clocks, and the idle cycles and
-- the retry counts fit a u8 and a u16.
pub execute-Keeps :
    {T : Type 0} ⦃t : DapTransport T⦄ (law : IsClockOnly t) (max_packet_size : ℕ)
    (command : DapCommandId) (request : List ℕ)
    → All IsByte request
    → Keeps (HoldsConfig {T = T}) (execute max_packet_size command request)
unfolding execute
execute-Keeps law m DapCommandId.info request bytes = dap_info-Keeps m request
execute-Keeps law m DapCommandId.host_status request bytes = host_status-Keeps request
execute-Keeps law m DapCommandId.connect request bytes = connect-Keeps request
execute-Keeps law m DapCommandId.disconnect request bytes = disconnect-Keeps request
execute-Keeps law m DapCommandId.transfer_configure request bytes =
    transfer_configure-Keeps request bytes
execute-Keeps law m DapCommandId.transfer request bytes = transfer-Keeps request
execute-Keeps law m DapCommandId.transfer_block request bytes = transfer_block-Keeps request
execute-Keeps law m DapCommandId.swj_pins request bytes = swj_pins-Keeps request
execute-Keeps law m DapCommandId.swj_clock request bytes = swj_clock-Keeps law request
execute-Keeps law m DapCommandId.swj_sequence request bytes = swj_sequence-Keeps request
execute-Keeps law m DapCommandId.swd_configure request bytes = swd_configure-Keeps request bytes
execute-Keeps law m DapCommandId.swd_sequence request bytes = swd_sequence-Keeps request
execute-Keeps law m DapCommandId.jtag_sequence request bytes = jtag_sequence-Keeps request
execute-Keeps law m DapCommandId.jtag_configure request bytes = jtag_configure-Keeps request
execute-Keeps law m DapCommandId.jtag_idcode request bytes = jtag_idcode-Keeps request
execute-Keeps law m _ request bytes = Keeps-throw _
