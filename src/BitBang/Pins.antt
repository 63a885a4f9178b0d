-- ===== src/BitBang/Pins.antt =====
-- Pins, their directions, and the helpers of the bit-banging transports (rust-dap/src/bitbang.rs).
use rust_dap.Base.{
  ℕ, zero, suc, ◌-◌, ◌*◌, ◌/◌, ◌%◌, ◌^◌, Bool, min, bit_or, ◌==◌, if◌then◌else◌, M, ok, err,
}
use rust_dap.CmsisDap.{DapError, invalid_command}
use rust_dap.Transport.{DapConfig}

-- The pins of a transport. SWCLK is TCK, SWDIO is TMS, and RESET is nSRST.
pub data Pin : Type 0 where
  clk dio reset tdi tdo ntrst : Pin

pub data PinDir : Type 0 where
  input output : PinDir

-- The `BidirPin`s and the `Delay` of a board, `W`.
pub record Pins (W : Type 0) : Type 0 where
  pub set_mode_output : Pin → Bool → W → W
  pub set_mode_input : Pin → W → W
  pub write : Pin → Bool → W → W
  pub read : Pin → W → Bool × W
  pub delay_cycles : ℕ → W → W

abbrev pub half_clock_overhead_cycles : ℕ
half_clock_overhead_cycles = 60

-- Both clocks of the configuration; the subtraction saturates.
unfoldable pub swj_clock_cycles : {W : Type 0} → Bool → ℕ → M (W × DapConfig) DapError (Unit {0})
swj_clock_cycles jtag frequency_hz (w, config) =
    let cycles = config.core_clock_hz / 2 / frequency_hz - half_clock_overhead_cycles in
    if frequency_hz == 0
    then (err invalid_command, (w, config))
    else if jtag
    then (ok tt, (w, record config { jtag = record config.jtag { clock_wait_cycles = cycles } }))
    else (ok tt, (w, record config { swd = record config.swd { clock_wait_cycles = cycles } }))

-- The cycles of the delay that `swj_pins` makes, as a u32.
abbrev pub wait_cycles : ℕ → ℕ → ℕ
wait_cycles core_clock_hz wait_us = core_clock_hz * min wait_us 3_000_000 / 1_000_000 % 4294967296

-- `n` runs of a step
unfoldable pub times : {S : Type 0} → ℕ → (S → S) → S → S
times zero f s = s
times (suc n) f s = times n f (f s)

module _ {S : Type 0} where
  -- One byte of `pack_read_bits`: `bits` of its positions are still free.
  unfoldable pub pack_byte : (S → Bool × S) → ℕ → ℕ → ℕ → S → (ℕ × ℕ) × S
  pack_byte read_bit count zero value s = ((value, count), s)
  pack_byte read_bit zero (suc bits) value s = ((value / 2 ^ suc bits, 0), s)
  pack_byte read_bit (suc count) (suc bits) value s =
      let (bit, s') = read_bit s in
      pack_byte read_bit count bits (if bit then bit_or (value / 2) 0x80 else value / 2) s'
