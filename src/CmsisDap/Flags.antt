-- ===== src/CmsisDap/Flags.antt =====
-- Flag words, status codes and the JTAG sequence byte (rust-dap/src/cmsis_dap.rs).
use rust_dap.Base.{ℕ, ◌^◌, Bool, not, bit_and, bit_or, ◌==◌, if◌then◌else◌}

-- `DapCapabilities`
abbrev pub cap_swd : ℕ
cap_swd = 1

abbrev pub cap_jtag : ℕ
cap_jtag = 2

-- `SwdRequest`
abbrev pub ap_n_dp : ℕ
ap_n_dp = 1

abbrev pub r_n_w : ℕ
r_n_w = 2

abbrev pub a2 : ℕ
a2 = 4

abbrev pub a3 : ℕ
a3 = 8

abbrev pub rdbuff : ℕ
rdbuff = bit_or a2 a3

abbrev pub transfer_match_value : ℕ
transfer_match_value = 16

abbrev pub transfer_match_mask : ℕ
transfer_match_mask = 32

-- `SwdRequest::RDBUFF | SwdRequest::RnW`
abbrev pub rdbuff_read : ℕ
rdbuff_read = bit_or rdbuff r_n_w

-- `SwjPins`
abbrev pub tck_swdclk : ℕ
tck_swdclk = 2 ^ 0

abbrev pub tms_swdio : ℕ
tms_swdio = 2 ^ 1

abbrev pub tdi : ℕ
tdi = 2 ^ 2

abbrev pub tdo : ℕ
tdo = 2 ^ 3

abbrev pub n_trst : ℕ
n_trst = 2 ^ 5

abbrev pub n_reset : ℕ
n_reset = 2 ^ 7

abbrev pub dap_transfer_ok : ℕ
dap_transfer_ok = 1

abbrev pub dap_transfer_wait : ℕ
dap_transfer_wait = 2

abbrev pub dap_transfer_fault : ℕ
dap_transfer_fault = 4

abbrev pub dap_transfer_error : ℕ
dap_transfer_error = 8

abbrev pub dap_transfer_mismatch : ℕ
dap_transfer_mismatch = 16

abbrev pub dap_ok : ℕ
dap_ok = 0

abbrev pub dap_error : ℕ
dap_error = 0xff

abbrev pub swd_sequence_clock : ℕ
swd_sequence_clock = 0x3f

abbrev pub swd_sequence_din : ℕ
swd_sequence_din = 0x80

pub record JtagSequenceInfo : Type 0 where
  pub number_of_tck_cycles : ℕ
  pub tms_value : Bool
  pub tdo_capture : Bool

-- `From<u8> for JtagSequenceInfo`
unfoldable pub sequence_info_from : ℕ → JtagSequenceInfo
sequence_info_from sequence_info = record {
  number_of_tck_cycles = if bit_and sequence_info 0x3f == 0 then 64 else bit_and sequence_info 0x3f;
  tms_value = not (bit_and sequence_info (2 ^ 6) == 0);
  tdo_capture = not (bit_and sequence_info (2 ^ 7) == 0);
}
