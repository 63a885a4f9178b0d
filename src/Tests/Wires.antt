-- ===== src/Tests/Wires.antt =====
-- The laws of the wires at concrete inputs.
use rust_dap.Base.{
  ◌≡◌, ◌≢◌, ◌⊎◌, Bool, true, false, not, xor, List, [], ◌∷◌, ◌++◌, length, take, ok, err,
  if◌then◌else◌, arith,
}
use rust_dap.Base.Bits.{bits_of, from_bits}
use rust_dap.CmsisDap.{swd_error, dap_transfer_ok, dap_transfer_mismatch}
use rust_dap.BitBang.Pins.{output}
use rust_dap.BitBang.Swd.{swj_sequence, write_bits, read_bits, read_bit, turn_around, dio_to_output}
use rust_dap.BitBang.Transfer.{
  swd_transfer, data_phase, read_ack, request_phase, write_phase, read_phase,
}
use rust_dap.BitBang.Emits.{emit, emitted, byte_bits, write_bits-swj_sequence}
use rust_dap.BitBang.Reads.{sample, parity_of, read_bits-samples}
use rust_dap.BitBang.Phases.{write_phase-emits, read_phase-samples, swd_transfer-outcome}
use rust_dap.BitBang.Requests.{packet, request_phase-emits}
use rust_dap.Tests.Board.{board_pins, bit_array, config, with_levels}

abbrev eleven : List Bool
eleven = true ∷ false ∷ true ∷ true ∷ false ∷ false ∷ true ∷ false ∷ true ∷ true ∷ false ∷ []

write_bits-swj_sequence_example :
    (write_bits config 11 (0xa5 ∷ 0x3c ∷ []) (with_levels [])
      ≡ swj_sequence config 11 (0xa5 ∷ 0x3c ∷ []) (with_levels []))
    × (write_bits config 11 (0xa5 ∷ 0x3c ∷ []) (with_levels [])
        ≡ emitted config 11 (byte_bits (0xa5 ∷ 0x3c ∷ [])) (with_levels []))
write_bits-swj_sequence_example =
    write_bits-swj_sequence config 11 (0xa5 ∷ 0x3c ∷ []) (with_levels [])

read_bits-samples_example :
    let x = read_bits config 11 (with_levels eleven, 0 ∷ 0 ∷ []) in
    (x.0 ≡ ok tt)
    × (x.1.0 ≡ (sample config 11 (with_levels eleven)).1)
    × (take 11 (byte_bits x.1.1) ≡ (sample config 11 (with_levels eleven)).0)
    × (length x.1.1 ≡ 2)
read_bits-samples_example =
    read_bits-samples config 11 (0 ∷ 0 ∷ []) (with_levels eleven) (omega arith)

request_phase-emits_example :
    request_phase config 7 (with_levels [])
    ≡ emit config (bits_of 8 (packet 7)) (dio_to_output false (with_levels []))
request_phase-emits_example = request_phase-emits config 7 (with_levels []) (omega arith)

write_phase-emits_example :
    (bits : List Bool) × (length bits ≡ 32)
    × (from_bits bits ≡ 0xdead_beef)
    × (write_phase config 0xdead_beef (with_levels []) ≡ (
      ok 0,
      emit config
          (bits ++ parity_of false bits ∷ [])
          (dio_to_output false (turn_around config (with_levels []))),
    ))
write_phase-emits_example = write_phase-emits config 0xdead_beef (with_levels []) (omega arith)

read_phase-samples_example :
    let word = sample config 32 (with_levels eleven) in
    let check = read_bit config word.1 in
    read_phase config (with_levels eleven) ≡ (
      if not (xor (parity_of false word.0) check.0)
          then ok (from_bits word.0)
          else err (swd_error dap_transfer_mismatch),
      dio_to_output false (turn_around config check.1),
    )
read_phase-samples_example = read_phase-samples config (with_levels eleven)

swd_transfer-outcome_example :
    let answer = read_ack config (request_phase config 7 (with_levels eleven)) in
    let x = swd_transfer config 7 0 (with_levels eleven) in
    (x.1.dio_dir ≡ output)
    × (((answer.0 ≡ dap_transfer_ok) × (x ≡ data_phase config 7 0 answer.1))
        ⊎ ((answer.0 ≢ dap_transfer_ok) × (x.0 ≡ err (swd_error answer.0))))
swd_transfer-outcome_example = swd_transfer-outcome config 7 0 (with_levels eleven)
