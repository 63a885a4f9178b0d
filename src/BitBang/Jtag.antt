-- ===== src/BitBang/Jtag.antt =====
-- The JTAG protocol on six pins: `JtagBits` (rust-dap/src/bitbang.rs), and the DR that it shifts
-- (`build_acc` of rust-dap/src/cmsis_dap.rs).
use rust_dap.Base.{
  ℕ, zero, suc, ◌+◌, ◌/◌, Bool, true, false, List, [], ◌∷◌, ◌++◌, none, some, replicate, get_elem?,
  overwrite, if◌then◌else◌, ok, err, M,
}
use rust_dap.Base.Words.{contains}
use rust_dap.Base.Bits.{low_bit, bits_of}
use rust_dap.CmsisDap.{
  DapError, invalid_command, ap_n_dp, r_n_w, a2, a3, tck_swdclk, tms_swdio, n_trst, n_reset,
  JtagSequenceInfo,
}
use rust_dap.CmsisDap
use rust_dap.Transport.{DapConfig}
use rust_dap.BitBang.Pins.{Pin, clk, dio, reset, tdi, tdo, ntrst, Pins, wait_cycles, times}

-- The `bitvec` library's `shift_start` on the bits of a `BitArray`, lowest first.
pub record BitArray : Type 0 where
  pub shift_start : ℕ → List Bool → List Bool

-- `JtagInstruction::APACC` and `DPACC`
abbrev pub instruction : ℕ → ℕ
instruction request = if contains request ap_n_dp then 0b1011 else 0b1010

-- The 64 bits of the two words that hold 35.
unfoldable pub build_acc : ⦃v : BitArray⦄ → ℕ → Bool → Bool → Bool → List Bool
build_acc ⦃v⦄ word a3_bit a2_bit read =
    overwrite 0 (read ∷ a2_bit ∷ a3_bit ∷ [])
      (v.shift_start 3 (bits_of 32 word ++ replicate 32 false))

unfoldable pub sum : List ℕ → ℕ
sum [] = 0
sum (n ∷ ns) = n + sum ns

module _ {W : Type 0} ⦃p : Pins W⦄ (config : DapConfig) where
  unfoldable pub clock_wait : W → W
  clock_wait = p.delay_cycles config.jtag.clock_wait_cycles

  unfoldable pub write_bit : Bool → Bool → W → W
  write_bit tms_level tdi_level w =
      let w = p.write dio tms_level w in
      let w = p.write tdi tdi_level w in
      let w = p.write clk false w in
      let w = clock_wait w in let w = p.write clk true w in clock_wait w

  unfoldable pub read_bit : Bool → Bool → W → Bool × W
  read_bit tms_level tdi_level w =
      let w = p.write dio tms_level w in
      let w = p.write tdi tdi_level w in
      let w = p.write clk false w in
      let w = clock_wait w in
      let (value, w) = p.read tdo w in let w = p.write clk true w in (value, clock_wait w)

  unfoldable pub reset_state_machine : W → W
  reset_state_machine w = times 10 (write_bit true false) w

  unfoldable pub connect : W → W
  connect w =
      let w = p.set_mode_output clk false w in
      let w = p.set_mode_output dio false w in
      let w = p.set_mode_output tdi false w in
      let w = p.set_mode_input tdo w in
      let w = p.set_mode_output ntrst true w in
      let w = p.set_mode_output reset true w in
      let w = p.write ntrst false w in
      let w = clock_wait w in
      let w = p.write ntrst true w in let w = clock_wait w in times 10 (write_bit true false) w

  -- `count` bits of TMS; the byte `value` has `bits` left, and the next one is at `index`.
  unfoldable pub sequence_loop : ℕ → List ℕ → ℕ → ℕ → ℕ → M W DapError (Unit {0})
  sequence_loop zero bytes index value bits w = (ok tt, w)
  sequence_loop (suc count) bytes index value zero w = elim (get_elem? bytes index) [
    | none ↦ (err invalid_command, w)
    | some byte ↦
        sequence_loop count bytes (index + 1) (byte / 2) 7 (write_bit (low_bit byte) false w)
  ]
  sequence_loop (suc count) bytes index value (suc bits) w =
      sequence_loop count bytes index (value / 2) bits (write_bit (low_bit value) false w)

  unfoldable pub swj_sequence : ℕ → List ℕ → M W DapError (Unit {0})
  swj_sequence count bytes = sequence_loop count bytes 0 0 0

  abbrev write_if : Bool → Pin → Bool → W → W
  write_if selected pin level w = if selected then p.write pin level w else w

  unfoldable pub swj_pins : ℕ → ℕ → ℕ → M W DapError ℕ
  swj_pins requested select wait_us w =
      let w = write_if (contains select tck_swdclk) clk (contains requested tck_swdclk) w in
      let w = write_if (contains select tms_swdio) dio (contains requested tms_swdio) w in
      let w = write_if (contains select CmsisDap.tdi) tdi (contains requested CmsisDap.tdi) w in
      let w = write_if (contains select n_trst) ntrst (contains requested n_trst) w in
      let w = write_if (contains select n_reset) reset (contains requested n_reset) w in
      let w = p.delay_cycles (wait_cycles config.core_clock_hz wait_us) w in
      let (level, w) = p.read tdo w in (ok (if level then CmsisDap.tdo else 0), w)

unfoldable pub release : {W : Type 0} ⦃p : Pins W⦄ → W → W
release ⦃p⦄ w =
    let w = p.set_mode_input clk w in
    let w = p.set_mode_input dio w in
    let w = p.set_mode_input tdi w in
    let w = p.set_mode_input tdo w in let w = p.set_mode_input ntrst w in p.set_mode_input reset w
