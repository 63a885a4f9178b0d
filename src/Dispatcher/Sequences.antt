-- ===== src/Dispatcher/Sequences.antt =====
-- DAP_SWD_Sequence and DAP_JTAG_Sequence (rust-dap/src/dispatcher.rs).
pub mod Bounds
use rust_dap.Base.{
  ℕ, zero, suc, ◌+◌, ◌-◌, ◌/◌, Bool, true, false, not, List, ◌++◌, take, drop, replicate, shorter,
  Option, bit_and, ◌==◌, if◌then◌else◌, M, pure, gets, throw_if, panic_if, from_option, index,
  slice, ◌>>=◌, ◌>>◌,
}
use rust_dap.Base.Words.{from_le, le_bytes}
use rust_dap.CmsisDap.{
  DapError, invalid_command, internal_error, dap_ok, swd_sequence_clock, swd_sequence_din,
  JtagSequenceInfo, sequence_info_from,
}
use rust_dap.Transport.{DapTransport}
use rust_dap.Dispatcher.Session.{Session, CommandResult, on_transport, put, put_slice, fill_slice}

unfoldable pub clock_count : ℕ → ℕ
clock_count info =
    if bit_and info swd_sequence_clock == 0 then 64 else bit_and info swd_sequence_clock

module _ {T : Type 0} ⦃t : DapTransport T⦄ (request : List ℕ) where
  -- Reads `count` bits into the response; the result is the two indices behind the sequence.
  unfoldable pub swd_input : ℕ → ℕ → ℕ → ℕ → CommandResult T
  swd_input count bytes_count request_index response_index = do
    room ← gets (λ (s : Session T). drop response_index s.response)
    throw_if (shorter room bytes_count) invalid_command
    on_transport (t.swd_output_enable false)
    config ← gets (λ (s : Session T). s.dispatcher.config)
    fill_slice response_index bytes_count (t.swd_read_bits config count)
    pure (request_index, response_index + bytes_count)

  -- Writes `count` bits from the request.
  unfoldable pub swd_output : ℕ → ℕ → ℕ → ℕ → CommandResult T
  swd_output count bytes_count request_index response_index = do
    throw_if (shorter (drop request_index request) bytes_count) invalid_command
    on_transport (t.swd_output_enable true)
    config ← gets (λ (s : Session T). s.dispatcher.config)
    bits ← slice request request_index bytes_count
    on_transport (t.swd_write_bits config count bits)
    pure (request_index + bytes_count, response_index)

  unfoldable pub swd_step : ℕ → ℕ → ℕ → CommandResult T
  swd_step info request_index response_index =
      let count = clock_count info in
      let bytes_count = (count + 7) / 8 in
      if not (bit_and info swd_sequence_din == 0)
      then swd_input count bytes_count request_index response_index
      else swd_output count bytes_count request_index response_index

  unfoldable pub swd_loop : ℕ → ℕ → ℕ → CommandResult T
  swd_loop zero request_index response_index = pure (request_index, response_index)
  swd_loop (suc left) request_index response_index = do
    throw_if (shorter request (request_index + 1)) invalid_command
    info ← index request request_index
    moved ← swd_step info (request_index + 1) response_index
    if left == 0 then on_transport (t.swd_output_enable true) else pure tt
    swd_loop left moved.0 moved.1

module _ {T : Type 0} ⦃t : DapTransport T⦄ where
  unfoldable pub swd_sequence : List ℕ → CommandResult T
  swd_sequence request = do
    throw_if (shorter request 1) invalid_command
    count ← index request 0
    produced ← swd_loop request count 1 1
    put 0 dap_ok
    pure produced

  -- The TDO bits of one sequence, written behind what is there; the result counts them.
  unfoldable pub capture : Bool → ℕ → ℕ → Option ℕ → M (Session T) DapError ℕ
  capture false tdi_bytes body_count tdo = pure body_count
  capture true tdi_bytes body_count tdo = do
    word ← from_option internal_error tdo
    room ← gets (λ (s : Session T). drop (body_count + 1) s.response)
    throw_if (shorter room tdi_bytes) invalid_command
    put_slice (body_count + 1) (take tdi_bytes (le_bytes 8 word))
    pure (body_count + tdi_bytes)

  -- `rest` is what of the request has not been parsed.
  unfoldable pub jtag_loop : ℕ → List ℕ → ℕ → ℕ → CommandResult T
  jtag_loop zero rest proceeded body_count = pure (proceeded, body_count + 1)
  jtag_loop (suc left) rest proceeded body_count = do
    throw_if (shorter rest 1) invalid_command
    byte ← index rest 0
    let info = sequence_info_from byte
    let tdi_bytes = (info.number_of_tck_cycles + 7) / 8
    throw_if (shorter (drop 1 rest) tdi_bytes) invalid_command
    tdi ← slice rest 1 tdi_bytes
    config ← gets (λ (s : Session T). s.dispatcher.config)
    tdo ← on_transport (t.jtag_sequence config info (from_le (tdi ++ replicate (8 - tdi_bytes) 0)))
    written ← capture info.tdo_capture tdi_bytes body_count tdo
    jtag_loop left (drop tdi_bytes (drop 1 rest)) (proceeded + 1 + tdi_bytes) written

  unfoldable pub jtag_sequence : List ℕ → CommandResult T
  jtag_sequence request = do
    throw_if (shorter request 1) invalid_command
    count ← index request 0
    response ← gets (λ (s : Session T). s.response)
    panic_if (shorter response 1)
    produced ← jtag_loop count (drop 1 request) 1 0
    put 0 dap_ok
    pure produced
