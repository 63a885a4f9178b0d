-- ===== src/Transport.antt =====
-- The configuration of the adapter and the interface to its wires (rust-dap/src/transport.rs).
-- Strings are their bytes.
use rust_dap.Base.{ℕ, ◌≡◌, Bool, false, List, Option, length, replicate, M, throw}
use rust_dap.CmsisDap.{DapError, not_supported, JtagSequenceInfo}

abbrev pub max_jtag_devices : ℕ
max_jtag_devices = 8

pub data ConnectPort : Type 0 where
  default swd jtag : ConnectPort

pub data ActivePort : Type 0 where
  swd jtag : ActivePort

pub record DapIdentity : Type 0 where
  pub vendor : List ℕ
  pub product : List ℕ
  pub serial_number : List ℕ
  pub firmware_version : List ℕ
  pub product_firmware_version : List ℕ
  pub packet_count : ℕ

pub record SwdConfig : Type 0 where
  pub clock_wait_cycles : ℕ
  pub idle_cycles : ℕ
  pub turn_around_cycles : ℕ
  pub always_generate_data_phase : Bool

-- `SwdConfig::default()`
abbrev pub default_swd : SwdConfig
default_swd = record {
  clock_wait_cycles = 1;
  idle_cycles = 0;
  turn_around_cycles = 1;
  always_generate_data_phase = false;
}

pub record JtagConfig : Type 0 where
  pub clock_wait_cycles : ℕ
  pub device_count : ℕ
  pub ir_length : List ℕ
  pub idle_cycles : ℕ

-- `JtagConfig::default()`
abbrev pub default_jtag : JtagConfig
default_jtag = record {
  clock_wait_cycles = 1000;
  device_count = 0;
  ir_length = replicate max_jtag_devices 0;
  idle_cycles = 0;
}

pub record DapConfig : Type 0 where
  pub identity : DapIdentity
  pub swd : SwdConfig
  pub jtag : JtagConfig
  pub retry_count : ℕ
  pub match_mask : ℕ
  pub match_retry_count : ℕ
  pub core_clock_hz : ℕ

-- `DapConfig::new`
abbrev pub new_config : DapIdentity → ℕ → DapConfig
new_config identity core_clock_hz = record {
  identity = identity;
  swd = default_swd;
  jtag = default_jtag;
  retry_count = 5;
  match_mask = 0xffff_ffff;
  match_retry_count = 5;
  core_clock_hz = core_clock_hz;
}

-- A `&mut self` method is a step on the transport, `T`. A step that also writes a buffer or the
-- configuration works on the pair.
pub record DapTransport (T : Type 0) : Type 0 where
  pub capabilities : T → ℕ
  pub connect : ConnectPort → DapConfig → M T DapError ActivePort
  pub disconnect : DapConfig → M T DapError (Unit {0})
  pub swj_sequence : DapConfig → ℕ → List ℕ → M T DapError (Unit {0})
  pub swj_pins : DapConfig → ℕ → ℕ → ℕ → M T DapError ℕ
  pub swj_clock : ℕ → M (T × DapConfig) DapError (Unit {0})
  pub swd_transfer : DapConfig → ℕ → ℕ → M T DapError ℕ
  pub swd_read_bits : DapConfig → ℕ → M (T × List ℕ) DapError (Unit {0})
  pub swd_write_bits : DapConfig → ℕ → List ℕ → M T DapError (Unit {0})
  pub swd_output_enable : Bool → M T DapError (Unit {0})
  pub jtag_transfer : DapConfig → ℕ → ℕ → ℕ → M T DapError ℕ
  pub jtag_sequence : DapConfig → JtagSequenceInfo → ℕ → M T DapError (Option ℕ)
  pub jtag_idcode : DapConfig → ℕ → M T DapError ℕ

-- The body of every method that a transport may leave out.
unfoldable pub unsupported : {S A : Type 0} → M S DapError A
unsupported = throw not_supported

-- What every transport obeys: a buffer that is lent to it keeps its length (a Rust slice).
pub record IsLawful {T : Type 0} (t : DapTransport T) : Type 0 where
  pub read_bits_length :
      (config : DapConfig) (count : ℕ) (s : T) (buffer : List ℕ)
      → length (t.swd_read_bits config count (s, buffer)).1.1 ≡ length buffer
