-- ===== src/BitBang/Swd.antt =====
-- The SWD protocol on three pins: `SwdBits` (rust-dap/src/bitbang.rs).
use rust_dap.Base.{
  ℕ, zero, suc, ◌+◌, ◌/◌, Bool, true, false, List, [], ◌∷◌, none, some, get_elem?, bit_or,
  if◌then◌else◌, Result, ok, err, M,
}
use rust_dap.Base.Words.{contains}
use rust_dap.Base.Bits.{low_bit}
use rust_dap.CmsisDap.{DapError, invalid_command, tck_swdclk, tms_swdio, n_reset}
use rust_dap.Transport.{DapConfig}
use rust_dap.BitBang.Pins.{
  clk, dio, reset, PinDir, input, output, Pins, wait_cycles, times, pack_byte,
}

-- What `SwdBits` borrows, and what `BitBangSwd` owns: the pins, with the directions they are in.
pub record SwdBits (W : Type 0) : Type 0 where
  pub wires : W
  pub clk_dir : PinDir
  pub dio_dir : PinDir
  pub reset_dir : PinDir

abbrev pub is_output : PinDir → Bool
is_output input = false
is_output output = true

module _ {W : Type 0} ⦃p : Pins W⦄ where
  abbrev pub on_wires : (W → W) → SwdBits W → SwdBits W
  on_wires f s = record s { wires = f s.wires }

  unfoldable pub clock_wait : DapConfig → SwdBits W → SwdBits W
  clock_wait config s = on_wires (p.delay_cycles config.swd.clock_wait_cycles) s

  unfoldable pub cycle_clock : DapConfig → SwdBits W → SwdBits W
  cycle_clock config s =
      let s = on_wires (p.write clk false) s in
      let s = clock_wait config s in let s = on_wires (p.write clk true) s in clock_wait config s

  unfoldable pub write_bit : DapConfig → Bool → SwdBits W → SwdBits W
  write_bit config value s =
      let s = on_wires (p.write dio value) s in
      let s = on_wires (p.write clk false) s in
      let s = clock_wait config s in let s = on_wires (p.write clk true) s in clock_wait config s

  unfoldable pub read_bit : DapConfig → SwdBits W → Bool × SwdBits W
  read_bit config s =
      let s = on_wires (p.write clk false) s in
      let s = clock_wait config s in
      let (value, w) = p.read dio s.wires in
      let s = on_wires (p.write clk true) (record s { wires = w }) in (value, clock_wait config s)

  unfoldable pub turn_around : DapConfig → SwdBits W → SwdBits W
  turn_around config s = times config.swd.turn_around_cycles (cycle_clock config) s

  unfoldable pub idle_cycle : DapConfig → SwdBits W → SwdBits W
  idle_cycle config s = times config.swd.idle_cycles (write_bit config false) s

  unfoldable pub dio_to_output : Bool → SwdBits W → SwdBits W
  dio_to_output high s = record (on_wires (p.set_mode_output dio high) s) { dio_dir = output }

  unfoldable pub dio_to_input : SwdBits W → SwdBits W
  dio_to_input s = record (on_wires (p.set_mode_input dio) s) { dio_dir = input }

  unfoldable pub connect : SwdBits W → SwdBits W
  connect s =
      let s = record (on_wires (p.set_mode_output clk false) s) { clk_dir = output } in
      let s = dio_to_output false s in
      record (on_wires (p.set_mode_output reset true) s) { reset_dir = output }

  unfoldable pub disconnect : SwdBits W → SwdBits W
  disconnect s =
      let s = record (on_wires (p.set_mode_input clk) s) { clk_dir = input } in
      let s = dio_to_input s in record (on_wires (p.set_mode_input reset) s) { reset_dir = input }

  unfoldable pub output_enable : Bool → SwdBits W → SwdBits W
  output_enable enable s = if enable then dio_to_output false s else dio_to_input s

  -- `count` bits of `bytes`; the byte `value` has `bits` left, and the next one is at `index`.
  unfoldable pub sequence_loop :
      DapConfig → ℕ → List ℕ → ℕ → ℕ → ℕ → M (SwdBits W) DapError (Unit {0})
  sequence_loop config zero bytes index value bits s = (ok tt, s)
  sequence_loop config (suc count) bytes index value zero s = elim (get_elem? bytes index) [
    | none ↦ (err invalid_command, s)
    | some byte ↦
        sequence_loop config count bytes (index + 1) (byte / 2) 7
          (write_bit config (low_bit byte) s)
  ]
  sequence_loop config (suc count) bytes index value (suc bits) s =
      sequence_loop config count bytes index (value / 2) bits (write_bit config (low_bit value) s)

  unfoldable pub swj_sequence : DapConfig → ℕ → List ℕ → M (SwdBits W) DapError (Unit {0})
  swj_sequence config count bytes = sequence_loop config count bytes 0 0 0

  -- The inner loop of `write_bits`; the result is the count that is left.
  unfoldable pub write_byte : DapConfig → ℕ → ℕ → ℕ → SwdBits W → ℕ × SwdBits W
  write_byte config count zero value s = (count, s)
  write_byte config zero (suc bits) value s = (0, s)
  write_byte config (suc count) (suc bits) value s =
      write_byte config count bits (value / 2) (write_bit config (low_bit value) s)

  -- Each byte of `bytes` is one round of the outer loop.
  unfoldable pub write_bytes : DapConfig → ℕ → List ℕ → M (SwdBits W) DapError (Unit {0})
  write_bytes config zero bytes s = (ok tt, s)
  write_bytes config (suc count) [] s = (err invalid_command, s)
  write_bytes config (suc count) (byte ∷ bytes) s =
      let (left, s') = write_byte config (suc count) 8 byte s in write_bytes config left bytes s'

  unfoldable pub write_bits : DapConfig → ℕ → List ℕ → M (SwdBits W) DapError (Unit {0})
  write_bits config count bytes = write_bytes config count bytes

  -- `pack_read_bits` from `bytes[index..]`; each byte of it is one round of the outer loop. Where
  -- `bytes` is too short, the bits of one more byte have been read.
  unfoldable pub pack_read_bits :
      DapConfig → ℕ → List ℕ → SwdBits W → (Result DapError (Unit {0}) × List ℕ) × SwdBits W
  pack_read_bits config zero bytes s = ((ok tt, bytes), s)
  pack_read_bits config (suc count) [] s =
      let (value, s') = pack_byte (read_bit config) (suc count) 8 0 s in
      ((err invalid_command, []), s')
  pack_read_bits config (suc count) (old ∷ bytes) s =
      let (value, s') = pack_byte (read_bit config) (suc count) 8 0 s in
      let (rest, s'') = pack_read_bits config value.1 bytes s' in ((rest.0, value.0 ∷ rest.1), s'')

  unfoldable pub read_bits : DapConfig → ℕ → M (SwdBits W × List ℕ) DapError (Unit {0})
  read_bits config count (s, bytes) =
      let (rest, s') = pack_read_bits config count bytes s in (rest.0, (s', rest.1))

  -- `reset` is made an output where it is not one.
  abbrev drive_reset : Bool → PinDir → SwdBits W → SwdBits W
  drive_reset high input s = record (on_wires (p.set_mode_output reset high) s) {
    reset_dir = output;
  }
  drive_reset high output s = on_wires (p.write reset high) s

  -- The pins that `select` names take the levels of `requested`.
  unfoldable pub drive_pins : ℕ → ℕ → SwdBits W → SwdBits W
  drive_pins requested select s =
      let s =
        if contains select tck_swdclk
        then on_wires (p.write clk (contains requested tck_swdclk)) s
        else s in
      let s =
        if contains select tms_swdio
        then on_wires (p.write dio (contains requested tms_swdio)) s
        else s in
      if contains select n_reset then drive_reset (contains requested n_reset) s.reset_dir s else s

  -- Every pin is an input for the time of the reads, and an output again where it was one.
  unfoldable pub sample_pins : SwdBits W → ℕ × SwdBits W
  sample_pins s =
      let clk_was_output = is_output s.clk_dir in
      let dio_was_output = is_output s.dio_dir in
      let reset_was_output = is_output s.reset_dir in
      let s = if clk_was_output then on_wires (p.set_mode_input clk) s else s in
      let s = if dio_was_output then on_wires (p.set_mode_input dio) s else s in
      let s = if reset_was_output then on_wires (p.set_mode_input reset) s else s in
      let (clk_level, w) = p.read clk s.wires in
      let (dio_level, w) = p.read dio w in
      let (reset_level, w) = p.read reset w in
      let s = record s { wires = w } in
      let s = if clk_was_output then on_wires (p.set_mode_output clk false) s else s in
      let s = if dio_was_output then on_wires (p.set_mode_output dio false) s else s in
      let s = if reset_was_output then on_wires (p.set_mode_output reset true) s else s in
      (
        bit_or (bit_or (if clk_level then tck_swdclk else 0) (if dio_level then tms_swdio else 0))
            (if reset_level then n_reset else 0),
        s,
      )

  unfoldable pub swj_pins : DapConfig → ℕ → ℕ → ℕ → M (SwdBits W) DapError ℕ
  swj_pins config requested select wait_us s =
      let s = drive_pins requested select s in
      let s = on_wires (p.delay_cycles (wait_cycles config.core_clock_hz wait_us)) s in
      let (levels, s) = sample_pins s in (ok levels, s)
