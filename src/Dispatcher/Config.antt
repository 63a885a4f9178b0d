-- ===== src/Dispatcher/Config.antt =====
-- DAP_Info, and the commands that only set up the dispatcher (rust-dap/src/dispatcher.rs).
pub mod Bounds
use rust_dap.Base.{
  ℕ, ◌+◌, ◌/◌, ◌%◌, Bool, not, List, length, take, drop, shorter, overwrite, bit_and, ltb, ◌==◌,
  if◌then◌else◌, M, pure, gets, modify, throw_if, panic_if, from_option, index, slice, ◌>>=◌, ◌>>◌,
}
use rust_dap.Base.Words.{le_bytes2, from_le}
use rust_dap.CmsisDap.{
  DapInfoId, DapError, invalid_command, invalid_dap_info_id, internal_error, info_try_from, dap_ok,
}
use rust_dap.Transport.{DapTransport, DapConfig, max_jtag_devices}
use rust_dap.Dispatcher.Session.{Session, CommandResult, set_config, put, put_slice}

module _ {T : Type 0} ⦃t : DapTransport T⦄ where
  unfoldable pub write_str : List ℕ → M (Session T) DapError ℕ
  write_str bytes = do
    room ← gets (λ (s : Session T). drop 1 s.response)
    throw_if (shorter room (length bytes)) internal_error
    put_slice 1 bytes
    pure (length bytes)

  -- The value of an item, written behind the length byte; the answer is its length.
  unfoldable pub info_value : ℕ → DapInfoId → M (Session T) DapError ℕ
  info_value max_packet_size DapInfoId.vendor = λ s. write_str s.dispatcher.config.identity.vendor s
  info_value max_packet_size DapInfoId.product =
      λ s. write_str s.dispatcher.config.identity.product s
  info_value max_packet_size DapInfoId.serial_number =
      λ s. write_str s.dispatcher.config.identity.serial_number s
  info_value max_packet_size DapInfoId.cmsis_dap_ver =
      λ s. write_str s.dispatcher.config.identity.firmware_version s
  info_value max_packet_size DapInfoId.product_firmware_version =
      λ s. write_str s.dispatcher.config.identity.product_firmware_version s
  info_value max_packet_size DapInfoId.capabilities = do
    bits ← gets (λ (s : Session T). t.capabilities s.transport)
    put 1 (bits % 256)
    if ltb 0xff bits then (do put 2 (bits / 256 % 256); pure 2) else pure 1
  info_value max_packet_size DapInfoId.packet_count = do
    count ← gets (λ (s : Session T). s.dispatcher.config.identity.packet_count)
    put 1 count
    pure 1
  info_value max_packet_size DapInfoId.packet_size = do
    put_slice 1 (le_bytes2 max_packet_size)
    pure 2
  info_value max_packet_size DapInfoId.device_vendor = pure 0
  info_value max_packet_size DapInfoId.device_name = pure 0
  info_value max_packet_size DapInfoId.time_stamp_clock = pure 0
  info_value max_packet_size DapInfoId.swo_buffer_size = pure 0

  unfoldable pub dap_info : ℕ → List ℕ → CommandResult T
  dap_info max_packet_size request = do
    throw_if (shorter request 1) invalid_command
    byte ← index request 0
    id ← from_option invalid_dap_info_id (info_try_from byte)
    response ← gets (λ (s : Session T). s.response)
    panic_if (shorter response 1)
    len ← info_value max_packet_size id
    put 0 (len % 256)
    pure (1, len + 1)

unfoldable pub host_status : {T : Type 0} → List ℕ → CommandResult T
host_status request = do throw_if (shorter request 2) invalid_command; put 0 dap_ok; pure (2, 1)

abbrev pub configured_transfers : ℕ → ℕ → ℕ → DapConfig → DapConfig
configured_transfers idle retries match_retries c = record c {
  swd = record c.swd { idle_cycles = idle };
  jtag = record c.jtag { idle_cycles = idle };
  retry_count = retries;
  match_retry_count = match_retries;
}

unfoldable pub transfer_configure : {T : Type 0} → List ℕ → CommandResult T
transfer_configure {T} request = do
  throw_if (shorter request 5) invalid_command
  idle ← index request 0
  retries ← slice request 1 2
  match_retries ← slice request 3 2
  modify (λ (s : Session T).
      set_config
        (configured_transfers idle (from_le retries) (from_le match_retries) s.dispatcher.config) s)
  put 0 dap_ok
  pure (5, 1)

abbrev pub configured_swd : ℕ → DapConfig → DapConfig
configured_swd byte c = record c {
  swd = record c.swd {
    always_generate_data_phase = not (bit_and byte 4 == 0);
    turn_around_cycles = bit_and byte 3 + 1;
  };
}

unfoldable pub swd_configure : {T : Type 0} → List ℕ → CommandResult T
swd_configure {T} request = do
  throw_if (shorter request 1) invalid_command
  byte ← index request 0
  modify (λ (s : Session T). set_config (configured_swd byte s.dispatcher.config) s)
  put 0 dap_ok
  pure (1, 1)

abbrev pub configured_chain : List ℕ → ℕ → DapConfig → DapConfig
configured_chain lengths count c = record c {
  jtag = record c.jtag { ir_length = overwrite 0 lengths c.jtag.ir_length; device_count = count };
}

unfoldable pub jtag_configure : {T : Type 0} → List ℕ → CommandResult T
jtag_configure {T} request = do
  throw_if (shorter request 1) invalid_command
  count ← index request 0
  throw_if (ltb max_jtag_devices count) invalid_command
  throw_if (shorter request (count + 1)) invalid_command
  lengths ← slice request 1 count
  modify (λ (s : Session T). set_config (configured_chain lengths count s.dispatcher.config) s)
  put 0 dap_ok
  pure (count + 1, 1)
