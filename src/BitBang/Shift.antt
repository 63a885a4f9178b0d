-- ===== src/BitBang/Shift.antt =====
-- Shifts through the instruction and data registers of a chain: `write_ir`, `read_write_dr`,
-- `transfer` and `sequence` of `JtagBits` (rust-dap/src/bitbang.rs).
use rust_dap.Base.{
  ℕ, zero, suc, ◌+◌, ◌/◌, ◌^◌, Bool, true, false, List, [], ◌∷◌, none, some, length, take, drop,
  shorter, ltb, ◌==◌, Option, if◌then◌else◌, ok, err, panic, M, pure, panicking, ◌>>=◌, ◌>>◌,
}
use rust_dap.Base.Words.{contains}
use rust_dap.Base.Bits.{low_bit, from_bits}
use rust_dap.CmsisDap.{DapError, invalid_command, r_n_w, a2, a3, JtagSequenceInfo}
use rust_dap.Transport.{DapConfig}
use rust_dap.BitBang.Pins.{Pins}
use rust_dap.BitBang.Jtag.{BitArray, instruction, build_acc, sum, write_bit, read_bit}

-- `config.jtag.ir_length[0..device_count]`
abbrev pub chain : DapConfig → List ℕ
chain config = take config.jtag.device_count config.jtag.ir_length

-- `tdi_data & (1 << i) != 0`
abbrev bit_at : ℕ → ℕ → Bool
bit_at word i = low_bit (word / 2 ^ i)

module _ {W : Type 0} ⦃p : Pins W⦄ (config : DapConfig) where
  -- The bits of one device; `bit_count` bits of `total` have gone out. The result is what is left
  -- of the instruction, and the count.
  unfoldable pub ir_device : Bool → ℕ → ℕ → ℕ → ℕ → W → (ℕ × ℕ) × W
  ir_device selected total zero ir bit_count w = ((ir, bit_count), w)
  ir_device selected total (suc n) ir bit_count w =
      ir_device selected total n (if selected then ir / 2 else ir) (bit_count + 1)
        (write_bit config (bit_count + 1 == total) (if selected then low_bit ir else true) w)

  -- The devices from the last to the first; `i` is the number of the first of `lengths`.
  unfoldable pub ir_chain : ℕ → ℕ → ℕ → List ℕ → ℕ → ℕ → W → (ℕ × ℕ) × W
  ir_chain dap_index total i [] ir bit_count w = ((ir, bit_count), w)
  ir_chain dap_index total i (n ∷ lengths) ir bit_count w =
      let (left, w') = ir_chain dap_index total (i + 1) lengths ir bit_count w in
      ir_device (i == dap_index) total n left.0 left.1 w'

  -- A `device_count` beyond the table is a slice out of range.
  unfoldable pub write_ir : ℕ → ℕ → M W DapError (Unit {0})
  write_ir dap_index ir w =
      let w = write_bit config true false w in
      let w = write_bit config true false w in
      let w = write_bit config false false w in
      let w = write_bit config false false w in
      if shorter config.jtag.ir_length config.jtag.device_count
      then (panic, w)
      else let (left, w) = ir_chain dap_index (sum (chain config)) 0 (chain config) ir 0 w in
        let w = write_bit config true false w in (ok tt, write_bit config false false w)

  -- `n` bits of zero, with TMS on the one that makes `total`.
  unfoldable pub dr_padding : Bool → ℕ → ℕ → ℕ → W → W
  dr_padding ends total zero bit_count w = w
  dr_padding ends total (suc n) bit_count w =
      dr_padding ends total n (bit_count + 1)
        (write_bit config (if ends then bit_count + 1 == total else false) false w)

  -- The bits of the register go out, and those that come in take their place.
  unfoldable pub dr_bits : ℕ → List Bool → ℕ → W → List Bool × W
  dr_bits total [] bit_count w = ([], w)
  dr_bits total (bit ∷ bits) bit_count w =
      let (level, w') = read_bit config (bit_count + 1 == total) bit w in
      let (levels, w'') = dr_bits total bits (bit_count + 1) w' in (level ∷ levels, w'')

  -- The scan from Shift-DR on, with the other devices' bits around the register's.
  unfoldable pub shift_dr : ℕ → List Bool → W → List Bool × W
  shift_dr dap_index dr w =
      let head_bits = sum (take dap_index (chain config)) in
      let tail_bits = sum (drop (dap_index + 1) (chain config)) in
      let total = tail_bits + length dr + head_bits in
      let w = dr_padding false total tail_bits 0 w in
      let (levels, w) = dr_bits total dr tail_bits w in
      let w = dr_padding true total head_bits (tail_bits + length dr) w in
      let w = write_bit config true false w in (levels, write_bit config false false w)

  unfoldable pub read_write_dr : ℕ → List Bool → M W DapError (List Bool)
  read_write_dr dap_index dr w =
      let w = write_bit config true false w in
      let w = write_bit config false false w in
      let w = write_bit config false false w in
      if shorter config.jtag.ir_length config.jtag.device_count
      then (panic, w)
      else let (levels, w) = shift_dr dap_index dr w in (ok levels, w)

  -- The bits from `i` on; the result is their sum, each at its place.
  unfoldable pub capture_bits : Bool → ℕ → ℕ → ℕ → W → ℕ × W
  capture_bits tms_level word zero i w = (0, w)
  capture_bits tms_level word (suc n) i w =
      let (level, w') = read_bit config tms_level (bit_at word i) w in
      let (rest, w'') = capture_bits tms_level word n (i + 1) w' in
      ((if level then 2 ^ i else 0) + rest, w'')

  unfoldable pub drive_bits : Bool → ℕ → ℕ → ℕ → W → W
  drive_bits tms_level word zero i w = w
  drive_bits tms_level word (suc n) i w =
      drive_bits tms_level word n (i + 1) (write_bit config tms_level (bit_at word i) w)

  unfoldable pub sequence : JtagSequenceInfo → ℕ → M W DapError (Option ℕ)
  sequence info word w =
      if ltb 64 info.number_of_tck_cycles
      then (err invalid_command, w)
      else if info.tdo_capture
      then (let (levels, w) = capture_bits info.tms_value word info.number_of_tck_cycles 0 w in
          (ok (some levels), w))
      else (ok none, drive_bits info.tms_value word info.number_of_tck_cycles 0 w)

module _ {W : Type 0} ⦃p : Pins W⦄ ⦃v : BitArray⦄ (config : DapConfig) where
  -- The answer to a read is bits 3 to 34 of what came in.
  unfoldable pub jtag_transfer : ℕ → ℕ → ℕ → M W DapError ℕ
  jtag_transfer dap_index request word w =
      (do
        write_ir config dap_index (instruction request)
        levels ←
            read_write_dr config dap_index
              (build_acc word (contains request a3) (contains request a2) (contains request r_n_w))
        if contains request r_n_w
            then if shorter levels 35 then panicking else pure (from_bits (take 32 (drop 3 levels)))
            else pure 0)
        w
