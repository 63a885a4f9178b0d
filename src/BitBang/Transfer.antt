-- ===== src/BitBang/Transfer.antt =====
-- One SWD transfer, bit by bit: `SwdBits::transfer` (rust-dap/src/bitbang.rs).
use rust_dap.Base.{
  ℕ, zero, suc, ◌/◌, Bool, true, false, not, ◌&&◌, ◌||◌, xor, bit_or, ◌==◌, if◌then◌else◌, ok, err,
  M,
}
use rust_dap.Base.Words.{contains}
use rust_dap.Base.Bits.{low_bit}
use rust_dap.CmsisDap.{
  DapError, swd_error, ap_n_dp, r_n_w, a2, a3, dap_transfer_ok, dap_transfer_wait,
  dap_transfer_fault, dap_transfer_mismatch,
}
use rust_dap.Transport.{DapConfig}
use rust_dap.BitBang.Pins.{dio, Pins, times}
use rust_dap.BitBang.Swd.{
  SwdBits, on_wires, cycle_clock, write_bit, read_bit, turn_around, idle_cycle, dio_to_output,
  dio_to_input,
}

-- The parity bit of a request
unfoldable pub request_parity : ℕ → Bool
request_parity request =
    xor
      (xor (xor (xor false (contains request ap_n_dp)) (contains request r_n_w))
        (contains request a2))
      (contains request a3)

module _ {W : Type 0} ⦃p : Pins W⦄ (config : DapConfig) where
  -- Start, APnDP, RnW, A2, A3, parity, stop, park
  unfoldable pub request_phase : ℕ → SwdBits W → SwdBits W
  request_phase request s =
      let s = dio_to_output false s in
      let s = write_bit config true s in
      let s = write_bit config (contains request ap_n_dp) s in
      let s = write_bit config (contains request r_n_w) s in
      let s = write_bit config (contains request a2) s in
      let s = write_bit config (contains request a3) s in
      let s = write_bit config (request_parity request) s in
      let s = write_bit config false s in write_bit config true s

  unfoldable pub read_ack : SwdBits W → ℕ × SwdBits W
  read_ack s =
      let s = dio_to_input s in
      let s = turn_around config s in
      let (b0, s) = read_bit config s in
      let (b1, s) = read_bit config s in
      let (b2, s) = read_bit config s in
      (bit_or (bit_or (if b0 then 1 else 0) (if b1 then 2 else 0)) (if b2 then 4 else 0), s)

  -- `n` rounds of the read loop; the result is the value and the parity.
  unfoldable pub read_word : ℕ → ℕ → Bool → SwdBits W → (ℕ × Bool) × SwdBits W
  read_word zero value parity s = ((value, parity), s)
  read_word (suc n) value parity s =
      let (bit, s') = read_bit config s in
      read_word n (bit_or (value / 2) (if bit then 0x8000_0000 else 0)) (xor parity bit) s'

  -- `n` rounds of the write loop; the result is the parity.
  unfoldable pub write_word : ℕ → ℕ → Bool → SwdBits W → Bool × SwdBits W
  write_word zero value parity s = (parity, s)
  write_word (suc n) value parity s =
      write_word n (value / 2) (xor parity (low_bit value)) (write_bit config (low_bit value) s)

  unfoldable pub read_phase : M (SwdBits W) DapError ℕ
  read_phase s =
      let (word, s) = read_word 32 0 false s in
      let (parity_expected, s) = read_bit config s in
      let s = turn_around config s in
      let s = dio_to_output false s in
      (
        if not (xor word.1 parity_expected)
            then ok word.0
            else err (swd_error dap_transfer_mismatch),
        s,
      )

  unfoldable pub write_phase : ℕ → M (SwdBits W) DapError ℕ
  write_phase word s =
      let s = turn_around config s in
      let s = dio_to_output false s in
      let (parity, s) = write_word 32 word false s in (ok 0, write_bit config parity s)

  -- After OK.
  unfoldable pub data_phase : ℕ → ℕ → M (SwdBits W) DapError ℕ
  data_phase request word s =
      let (result, s) = if contains request r_n_w then read_phase s else write_phase word s in
      let s = idle_cycle config s in (result, on_wires (p.write dio true) s)

  -- After WAIT or FAULT.
  unfoldable pub refused : ℕ → ℕ → M (SwdBits W) DapError ℕ
  refused request ack s =
      let s = dio_to_input s in
      let s =
        if config.swd.always_generate_data_phase && contains request r_n_w
        then times 33 (cycle_clock config) s
        else s in
      let s = turn_around config s in
      let s = dio_to_output false s in
      let s =
        if config.swd.always_generate_data_phase && not (contains request r_n_w)
        then times 33 (write_bit config false) s
        else s in
      (err (swd_error ack), on_wires (p.write dio true) s)

  -- After any other answer.
  unfoldable pub protocol_error : ℕ → M (SwdBits W) DapError ℕ
  protocol_error ack s =
      let s = turn_around config s in
      let s = times 33 (cycle_clock config) s in
      let s = dio_to_output false s in (err (swd_error ack), on_wires (p.write dio true) s)

  unfoldable pub swd_transfer : ℕ → ℕ → M (SwdBits W) DapError ℕ
  swd_transfer request word s =
      let s = request_phase request s in
      let (ack, s) = read_ack s in
      if ack == dap_transfer_ok
      then data_phase request word s
      else if ack == dap_transfer_wait || ack == dap_transfer_fault
      then refused request ack s
      else protocol_error ack s
