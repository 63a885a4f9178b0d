-- ===== src/CmsisDap/Ids.antt =====
-- The command and info identifiers and the errors (rust-dap/src/cmsis_dap.rs). `try_from_primitive`
-- is what `TryFromPrimitive` derives from the discriminants.
use rust_dap.Base.{ℕ, List, [], ◌∷◌, Option, none, some, ◌==◌, if◌then◌else◌}

pub data DapCommandId : Type 0 where
  info host_status connect disconnect transfer_configure transfer transfer_block : DapCommandId
  transfer_abort write_abort delay reset_target swj_pins swj_clock swj_sequence : DapCommandId
  swd_configure swd_sequence jtag_sequence jtag_configure jtag_idcode : DapCommandId

pub data DapInfoId : Type 0 where
  vendor product serial_number cmsis_dap_ver device_vendor device_name : DapInfoId
  product_firmware_version capabilities time_stamp_clock swo_buffer_size : DapInfoId
  packet_count packet_size : DapInfoId

pub data DapError : Type 0 where
  invalid_command invalid_dap_info_id : DapError
  swd_error : ℕ → DapError
  internal_error exceed_retry_count not_supported : DapError

unfoldable pub from_primitive : {A : Type 0} → (A → ℕ) → List A → ℕ → Option A
from_primitive into [] n = none
from_primitive into (a ∷ all) n = if into a == n then some a else from_primitive into all n

abbrev pub command_into : DapCommandId → ℕ
command_into info = 0x00
command_into host_status = 0x01
command_into connect = 0x02
command_into disconnect = 0x03
command_into transfer_configure = 0x04
command_into transfer = 0x05
command_into transfer_block = 0x06
command_into transfer_abort = 0x07
command_into write_abort = 0x08
command_into delay = 0x09
command_into reset_target = 0x0a
command_into swj_pins = 0x10
command_into swj_clock = 0x11
command_into swj_sequence = 0x12
command_into swd_configure = 0x13
command_into swd_sequence = 0x1d
command_into jtag_sequence = 0x14
command_into jtag_configure = 0x15
command_into jtag_idcode = 0x16

abbrev pub commands : List DapCommandId
commands =
    info ∷ host_status ∷ connect ∷ disconnect ∷ transfer_configure ∷ transfer ∷ transfer_block
    ∷ transfer_abort ∷ write_abort ∷ delay ∷ reset_target ∷ swj_pins ∷ swj_clock ∷ swj_sequence
    ∷ swd_configure ∷ swd_sequence ∷ jtag_sequence ∷ jtag_configure ∷ jtag_idcode ∷ []

unfoldable pub command_try_from : ℕ → Option DapCommandId
unfolding from_primitive
command_try_from = from_primitive command_into commands

abbrev pub info_into : DapInfoId → ℕ
info_into vendor = 1
info_into product = 2
info_into serial_number = 3
info_into cmsis_dap_ver = 4
info_into device_vendor = 5
info_into device_name = 6
info_into product_firmware_version = 9
info_into capabilities = 0xf0
info_into time_stamp_clock = 0xf1
info_into swo_buffer_size = 0xf2
info_into packet_count = 0xfe
info_into packet_size = 0xff

abbrev pub infos : List DapInfoId
infos =
    vendor ∷ product ∷ serial_number ∷ cmsis_dap_ver ∷ device_vendor ∷ device_name
    ∷ product_firmware_version ∷ capabilities ∷ time_stamp_clock ∷ swo_buffer_size ∷ packet_count
    ∷ packet_size ∷ []

unfoldable pub info_try_from : ℕ → Option DapInfoId
unfolding from_primitive
info_try_from = from_primitive info_into infos
