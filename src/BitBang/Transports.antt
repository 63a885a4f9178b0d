-- ===== src/BitBang/Transports.antt =====
-- The three transports that the pins make: `BitBangSwd`, `BitBangJtag` and `BitBangSwj`
-- (rust-dap/src/bitbang.rs).
use rust_dap.Base.{Bool, true, false, if◌then◌else◌, ok, err, M, zoom}
use rust_dap.CmsisDap.{DapError, not_supported, cap_swd, cap_jtag}
use rust_dap.Transport.{DapConfig, DapTransport, ConnectPort, ActivePort, unsupported}
use rust_dap.BitBang.Pins.{input, Pins, swj_clock_cycles}
use rust_dap.BitBang.Swd.{SwdBits, swj_sequence, swj_pins, read_bits, write_bits, output_enable}
use rust_dap.BitBang.Transfer.{swd_transfer}
use rust_dap.BitBang.Shift.{jtag_transfer, sequence}
use rust_dap.BitBang.Jtag.{BitArray, reset_state_machine, release}
use rust_dap.BitBang.Jtag
use rust_dap.BitBang.Swd

-- `BitBangSwd::new`
abbrev pub new_swd : {W : Type 0} → W → SwdBits W
new_swd w = record { wires = w; clk_dir = input; dio_dir = input; reset_dir = input }

-- A step that cannot fail.
abbrev step : {S : Type 0} → (S → S) → M S DapError (Unit {0})
step f s = (ok tt, f s)

module _ {W : Type 0} ⦃p : Pins W⦄ where
  swd_connect : ConnectPort → M (SwdBits W) DapError ActivePort
  swd_connect ConnectPort.default s = (ok ActivePort.swd, Swd.connect s)
  swd_connect ConnectPort.swd s = (ok ActivePort.swd, Swd.connect s)
  swd_connect ConnectPort.jtag s = (err not_supported, s)

  -- `BitBangSwd`
  instance unfoldable pub swd_transport : DapTransport (SwdBits W)
  unfolding swd_connect
  swd_transport = record {
    capabilities = λ s. cap_swd;
    connect = λ port config. swd_connect port;
    disconnect = λ config. step Swd.disconnect;
    swj_sequence = swj_sequence;
    swj_pins = swj_pins;
    swj_clock = swj_clock_cycles false;
    swd_transfer = swd_transfer;
    swd_read_bits = read_bits;
    swd_write_bits = write_bits;
    swd_output_enable = λ enable. step (output_enable enable);
    jtag_transfer = λ config dap_index request word. unsupported;
    jtag_sequence = λ config info word. unsupported;
    jtag_idcode = λ config index. unsupported;
  }

pub record BitBangJtag (W : Type 0) : Type 0 where
  pub wires : W
  pub pins_connected : Bool

-- `BitBangJtag::new`
abbrev pub new_jtag : {W : Type 0} → W → BitBangJtag W
new_jtag w = record { wires = w; pins_connected = false }

module _ {W : Type 0} where
  abbrev on_jtag : {A : Type 0} → M W DapError A → M (BitBangJtag W) DapError A
  on_jtag = zoom (λ j. j.wires) (λ w j. record j { wires = w })

module _ {W : Type 0} ⦃p : Pins W⦄ where
  jtag_connect : ConnectPort → DapConfig → M (BitBangJtag W) DapError ActivePort
  jtag_connect ConnectPort.swd config j = (err not_supported, j)
  jtag_connect ConnectPort.default config j =
      (ok ActivePort.jtag, record { wires = Jtag.connect config j.wires; pins_connected = true })
  jtag_connect ConnectPort.jtag config j =
      (ok ActivePort.jtag, record { wires = Jtag.connect config j.wires; pins_connected = true })

  jtag_disconnect : DapConfig → BitBangJtag W → BitBangJtag W
  jtag_disconnect config j = record {
    wires = release (if j.pins_connected then reset_state_machine config j.wires else j.wires);
    pins_connected = false;
  }

module _ {W : Type 0} ⦃p : Pins W⦄ ⦃v : BitArray⦄ where
  -- `BitBangJtag`
  instance unfoldable pub jtag_transport : DapTransport (BitBangJtag W)
  unfolding jtag_connect jtag_disconnect
  jtag_transport = record {
    capabilities = λ j. cap_jtag;
    connect = jtag_connect;
    disconnect = λ config. step (jtag_disconnect config);
    swj_sequence = λ config count bytes. on_jtag (Jtag.swj_sequence config count bytes);
    swj_pins = λ config requested select wait. on_jtag (Jtag.swj_pins config requested select wait);
    swj_clock = swj_clock_cycles true;
    swd_transfer = λ config request word. unsupported;
    swd_read_bits = λ config count. unsupported;
    swd_write_bits = λ config count bytes. unsupported;
    swd_output_enable = λ enable. unsupported;
    jtag_transfer =
        λ config dap_index request word. on_jtag (jtag_transfer config dap_index request word);
    jtag_sequence = λ config info word. on_jtag (sequence config info word);
    jtag_idcode = λ config index. unsupported;
  }
