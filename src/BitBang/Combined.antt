-- ===== src/BitBang/Combined.antt =====
-- The transport that switches between SWD and JTAG on one set of pins: `BitBangSwj`
-- (rust-dap/src/bitbang.rs).
use rust_dap.Base.{
  ℕ, Bool, true, false, Option, none, some, bit_or, List, if◌then◌else◌, ok, M, zoom,
}
use rust_dap.CmsisDap.{DapError, cap_swd, cap_jtag}
use rust_dap.Transport.{DapConfig, DapTransport, ConnectPort, ActivePort, unsupported}
use rust_dap.BitBang.Pins.{Pins, tdi, tdo, ntrst, swj_clock_cycles}
use rust_dap.BitBang.Swd.{SwdBits, on_wires, read_bits, write_bits, output_enable}
use rust_dap.BitBang.Transfer.{swd_transfer}
use rust_dap.BitBang.Shift.{jtag_transfer, sequence}
use rust_dap.BitBang.Jtag.{BitArray, reset_state_machine, release}
use rust_dap.BitBang.Jtag
use rust_dap.BitBang.Swd
use rust_dap.BitBang.Transports.{new_swd}

pub record BitBangSwj (W : Type 0) : Type 0 where
  pub pins : SwdBits W
  pub active : Option ActivePort

-- `BitBangSwj::new`
abbrev pub new_swj : {W : Type 0} → W → BitBangSwj W
new_swj w = record { pins = new_swd w; active = none }

-- Whether the active port is JTAG.
abbrev pub is_jtag : Option ActivePort → Bool
is_jtag (some ActivePort.jtag) = true
is_jtag (some ActivePort.swd) = false
is_jtag none = false

module _ {W : Type 0} where
  abbrev on_swd : {A : Type 0} → M (SwdBits W) DapError A → M (BitBangSwj W) DapError A
  on_swd = zoom (λ j. j.pins) (λ s j. record j { pins = s })

  abbrev on_jtag : {A : Type 0} → M W DapError A → M (BitBangSwj W) DapError A
  on_jtag = zoom (λ j. j.pins.wires) (λ w j. record j { pins = record j.pins { wires = w } })

module _ {W : Type 0} ⦃p : Pins W⦄ where
  -- What the active protocol does to let its pins go.
  release_active : DapConfig → Option ActivePort → SwdBits W → SwdBits W
  release_active config (some ActivePort.swd) s = Swd.disconnect s
  release_active config (some ActivePort.jtag) s =
      on_wires (λ w. release (reset_state_machine config w)) s
  release_active config none s = s

  unfoldable pub disconnect : DapConfig → BitBangSwj W → BitBangSwj W
  unfolding release_active
  disconnect config j =
      let s = release_active config j.active j.pins in
      let s = on_wires (p.set_mode_input tdi) s in
      let s = on_wires (p.set_mode_input tdo) s in
      let s = on_wires (p.set_mode_input ntrst) s in record { pins = s; active = none }

  release_first : DapConfig → Option ActivePort → BitBangSwj W → BitBangSwj W
  release_first config none j = j
  release_first config (some port) j = disconnect config j

  open_port : DapConfig → ConnectPort → SwdBits W → ActivePort × SwdBits W
  open_port config ConnectPort.default s = (ActivePort.swd, Swd.connect s)
  open_port config ConnectPort.swd s = (ActivePort.swd, Swd.connect s)
  open_port config ConnectPort.jtag s = (ActivePort.jtag, on_wires (Jtag.connect config) s)

  unfoldable pub connect : ConnectPort → DapConfig → M (BitBangSwj W) DapError ActivePort
  unfolding release_first open_port
  connect port config j =
      let j = release_first config j.active j in
      let (active, s) = open_port config port j.pins in
      (ok active, record { pins = s; active = some active })

  unfoldable pub swj_sequence : DapConfig → ℕ → List ℕ → M (BitBangSwj W) DapError (Unit {0})
  swj_sequence config count bytes j =
      (if is_jtag j.active
          then on_jtag (Jtag.swj_sequence config count bytes)
          else on_swd (Swd.swj_sequence config count bytes))
        j

  unfoldable pub swj_pins : DapConfig → ℕ → ℕ → ℕ → M (BitBangSwj W) DapError ℕ
  swj_pins config requested select wait j =
      (if is_jtag j.active
          then on_jtag (Jtag.swj_pins config requested select wait)
          else on_swd (Swd.swj_pins config requested select wait))
        j

  unfoldable pub swj_clock : ℕ → M (BitBangSwj W × DapConfig) DapError (Unit {0})
  swj_clock frequency_hz (j, config) = swj_clock_cycles (is_jtag j.active) frequency_hz (j, config)

  unfoldable pub swd_read_bits : DapConfig → ℕ → M (BitBangSwj W × List ℕ) DapError (Unit {0})
  swd_read_bits config count (j, bytes) =
      let (r, after) = read_bits config count (j.pins, bytes) in
      (r, (record j { pins = after.0 }, after.1))

module _ {W : Type 0} ⦃p : Pins W⦄ ⦃v : BitArray⦄ where
  -- `BitBangSwj`
  instance unfoldable pub swj_transport : DapTransport (BitBangSwj W)
  swj_transport = record {
    capabilities = λ j. bit_or cap_swd cap_jtag;
    connect = connect;
    disconnect = λ config j. (ok tt, disconnect config j);
    swj_sequence = swj_sequence;
    swj_pins = swj_pins;
    swj_clock = swj_clock;
    swd_transfer = λ config request word. on_swd (swd_transfer config request word);
    swd_read_bits = swd_read_bits;
    swd_write_bits = λ config count bytes. on_swd (write_bits config count bytes);
    swd_output_enable = λ enable. on_swd (λ s. (ok tt, output_enable enable s));
    jtag_transfer =
        λ config dap_index request word. on_jtag (jtag_transfer config dap_index request word);
    jtag_sequence = λ config info word. on_jtag (sequence config info word);
    jtag_idcode = λ config index. unsupported;
  }
