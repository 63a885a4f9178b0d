-- ===== src/BitBang/Chain.antt =====
-- A configuration in order is enough for the scans, and the transports leave it so
-- (rust-dap/src/bitbang.rs).
use rust_dap.Base.{
  ℕ, suc, ◌+◌, ◌≡◌, refl, ap, ◌∙◌, Bool, true, false, List, [], ◌∷◌, ◌++◌, length, take, drop,
  replicate, shorter, ok, ◌>>=◌, pure, panicking, arith, length-overwrite, le→not_shorter,
  if◌then◌else◌, ◌==◌,
}
use rust_dap.Base.Words.{contains}
use rust_dap.Base.Hoare.{Returns, Returns→ok, Returns-bind}
use rust_dap.Base.Bits.{bits_of, from_bits}
use rust_dap.CmsisDap.{DapError, r_n_w, a2, a3}
use rust_dap.Transport.{DapConfig}
use rust_dap.Dispatcher.Configured.{IsConfigured, IsClockOnly}
use rust_dap.BitBang.Pins.{Pins, swj_clock_cycles}
use rust_dap.BitBang.Jtag.{BitArray, build_acc, instruction, read_bit, write_bit}
use rust_dap.BitBang.Shift.{write_ir, dr_bits, shift_dr, read_write_dr, jtag_transfer}
use rust_dap.BitBang.Transports.{swd_transport, jtag_transport}
use rust_dap.BitBang.Combined.{swj_transport, swj_clock, is_jtag}

-- A shift keeps the number of bits.
pub record IsShift (v : BitArray) : Type 0 where
  pub shift_length : (n : ℕ) (bits : List Bool) → length (v.shift_start n bits) ≡ length bits

length-build_acc :
    ⦃v : BitArray⦄
    → IsShift v
    → (word : ℕ) (b3 b2 read : Bool) → length (build_acc word b3 b2 read) ≡ 64
unfolding build_acc bits_of
length-build_acc ⦃v⦄ law word b3 b2 read =
    length-overwrite 0 (read ∷ b2 ∷ b3 ∷ [])
      (v.shift_start 3 (bits_of 32 word ++ replicate 32 false))
    ∙ law.shift_length 3 (bits_of 32 word ++ replicate 32 false)

pub swj_clock_cycles-IsConfigured :
    {W : Type 0} (jtag : Bool) (hz : ℕ) (w : W) (c : DapConfig)
    → IsConfigured c
    → IsConfigured (swj_clock_cycles jtag hz (w, c)).1.1
unfolding swj_clock_cycles
swj_clock_cycles-IsConfigured jtag hz w c h = ground arith

module _ {W : Type 0} ⦃p : Pins W⦄ ⦃v : BitArray⦄ where
  -- The clock call of each of the three transports, on any pins, leaves a configuration that is in
  -- order so.
  pub transports-IsClockOnly :
      IsClockOnly (swd_transport {W = W})
      × IsClockOnly (jtag_transport {W = W})
      × IsClockOnly (swj_transport {W = W})
  unfolding swd_transport jtag_transport swj_transport swj_clock
  transports-IsClockOnly = (
    record { clock_keeps = λ hz s c h. swj_clock_cycles-IsConfigured false hz s c h },
    record { clock_keeps = λ hz s c h. swj_clock_cycles-IsConfigured true hz s c h },
    record { clock_keeps = λ hz s c h. swj_clock_cycles-IsConfigured (is_jtag s.active) hz s c h },
  )

  length-dr_bits :
      (config : DapConfig) (total : ℕ) (bits : List Bool) (n : ℕ) (w : W)
      → length (dr_bits config total bits n w).0 ≡ length bits
  unfolding dr_bits
  length-dr_bits config total [] n w = refl
  length-dr_bits config total (bit ∷ bits) n w =
      ap suc (length-dr_bits config total bits (n + 1) (read_bit config (n + 1 == total) bit w).1)

  length-shift_dr :
      (config : DapConfig) (dap_index : ℕ) (dr : List Bool) (w : W)
      → length (shift_dr config dap_index dr w).0 ≡ length dr
  unfolding shift_dr
  length-shift_dr config dap_index dr w = length-dr_bits config _ dr _ _

  write_ir-Returns :
      (config : DapConfig) (dap_index ir : ℕ) (w : W)
      → IsConfigured config
      → Returns (λ _. Unit) (write_ir config dap_index ir w)
  unfolding write_ir
  write_ir-Returns config dap_index ir w h =
      ground (arith, le→not_shorter config.jtag.ir_length config.jtag.device_count (omega arith))

  read_write_dr-Returns :
      (config : DapConfig) (dap_index : ℕ) (dr : List Bool) (w : W)
      → IsConfigured config
      → Returns (λ levels. length levels ≡ length dr) (read_write_dr config dap_index dr w)
  unfolding read_write_dr
  read_write_dr-Returns config dap_index dr w h =
      let w3 =
        write_bit config false false
          (write_bit config false false (write_bit config true false w)) in
      ground (
        arith,
        le→not_shorter config.jtag.ir_length config.jtag.device_count (omega arith),
        length-shift_dr config dap_index dr w3,
      )

  answer-Returns :
      (read : Bool) (levels : List Bool) (w : W)
      → length levels ≡ 64
      → Returns
          (λ _. Unit)
          ((if read
              then if shorter levels 35
                then panicking
                else pure {E = DapError} (from_bits (take 32 (drop 3 levels)))
              else pure 0)
            w)
  unfolding ◌>>=◌
  answer-Returns true levels w e = ground (arith, le→not_shorter levels 35 (omega arith))
  answer-Returns false levels w e = tt

  jtag_transfer-Returns :
      (law : IsShift v) (config : DapConfig) (dap_index request word : ℕ) (w : W)
      → IsConfigured config
      → Returns (λ _. Unit) (jtag_transfer config dap_index request word w)
  unfolding jtag_transfer
  jtag_transfer-Returns law config dap_index request word w h =
      let dr =
        build_acc word (contains request a3) (contains request a2) (contains request r_n_w) in
      Returns-bind (λ _. Unit) (λ _. Unit) (write_ir config dap_index (instruction request)) _ w
        (write_ir-Returns config dap_index (instruction request) w h)
        λ _ w1 _.
          Returns-bind (λ levels. length levels ≡ length dr) (λ _. Unit)
            (read_write_dr config dap_index dr) _ w1
            (read_write_dr-Returns config dap_index dr w1 h)
            λ levels w2 e. answer-Returns (contains request r_n_w) levels w2 (
              e
              ∙ length-build_acc law word (contains request a3) (contains request a2)
                  (contains request r_n_w))

  -- With a configuration in order, on any pins, and with a library whose shift keeps the number of
  -- bits, a JTAG transfer answers Ok, whatever its device and its request: no index is out of range.
  pub jtag_transfer-ok :
      (law : IsShift v) (config : DapConfig) (dap_index request word : ℕ) (w : W)
      → IsConfigured config
      → (value : ℕ) × ((jtag_transfer config dap_index request word w).0 ≡ ok value)
  jtag_transfer-ok law config dap_index request word w h =
      Returns→ok (λ _. Unit) (jtag_transfer config dap_index request word w)
        (jtag_transfer-Returns law config dap_index request word w h)
