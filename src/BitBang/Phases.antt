-- ===== src/BitBang/Phases.antt =====
-- What the phases of an SWD transfer put on the wires and take from them
-- (rust-dap/src/bitbang.rs, `SwdBits::transfer`).
use rust_dap.Base.{
  ℕ, zero, suc, ◌/◌, ◌≡◌, ◌≢◌, ◌⊎◌, inl, inr, ◌==◌, ◌||◌, ◌&&◌, ==_iff, Bool-cases, refl, sym, ap,
  length, ◌∙◌, Bool, true, false, not, xor, List, [], ◌∷◌, ◌++◌, if◌then◌else◌, Result, ok, err,
  arith,
}
use rust_dap.Base.Words.{IsU32, contains}
use rust_dap.Base.Bits.{low_bit, bits_of, from_bits, from_bits-bits_of, length-bits_of}
use rust_dap.CmsisDap.{
  DapError, swd_error, r_n_w, dap_transfer_ok, dap_transfer_wait, dap_transfer_fault,
  dap_transfer_mismatch,
}
use rust_dap.Transport.{DapConfig}
use rust_dap.BitBang.Pins.{Pins, output, times}
use rust_dap.BitBang.Swd.{
  SwdBits, write_bit, read_bit, turn_around, idle_cycle, dio_to_output, clock_wait,
}
use rust_dap.BitBang.Transfer.{
  request_phase, read_ack, write_word, read_phase, write_phase, data_phase, refused, protocol_error,
  swd_transfer,
}
use rust_dap.BitBang.Emits.{emit}
use rust_dap.BitBang.Reads.{sample, parity_of, read_word-samples, write_word-emits, word_of}

module _ {W : Type 0} ⦃p : Pins W⦄ (config : DapConfig) where
  emit-append :
      (xs ys : List Bool) (s : SwdBits W)
      → emit config (xs ++ ys) s ≡ emit config ys (emit config xs s)
  unfolding emit
  emit-append [] ys s = refl
  emit-append (x ∷ xs) ys s = emit-append xs ys (write_bit config x s)

  -- For a word that is a u32: behind the turnaround, the write phase puts out 32 bits that spell the
  -- word from its lowest bit, and then their parity, and answers Ok.
  pub write_phase-emits :
      (word : ℕ) (s : SwdBits W)
      → IsU32 word
      → (bits : List Bool) × (length bits ≡ 32)
        × (from_bits bits ≡ word)
        × (write_phase config word s ≡ (
          ok 0,
          emit config
              (bits ++ parity_of false bits ∷ [])
              (dio_to_output false (turn_around config s)),
        ))
  unfolding write_phase emit
  write_phase-emits word s h =
      let s' = dio_to_output false (turn_around config s) in
      (
        bits_of 32 word,
        length-bits_of 32 word,
        from_bits-bits_of 32 word h,
        ap (λ x. (ok 0, write_bit config x.0 x.1)) (write_word-emits config 32 word false s')
            ∙ ap (λ x. (ok 0, x))
                (sym (emit-append (bits_of 32 word) (parity_of false (bits_of 32 word) ∷ []) s')),
      )

  -- What the read phase does behind its word.
  checked : (ℕ × Bool) × SwdBits W → Result DapError ℕ × SwdBits W
  checked (word, s) =
      let (level, s') = read_bit config s in
      (
        if not (xor word.1 level) then ok word.0 else err (swd_error dap_transfer_mismatch),
        dio_to_output false (turn_around config s'),
      )

  -- The read phase samples 32 bits and one more. Where the last is the parity of the others, the
  -- answer is the word that they spell from the lowest bit, and otherwise a mismatch; then SWDIO is
  -- driven again behind the turnaround.
  pub read_phase-samples :
      (s : SwdBits W)
      → (let word = sample config 32 s in
          let check = read_bit config word.1 in
          read_phase config s ≡ (
            if not (xor (parity_of false word.0) check.0)
                then ok (from_bits word.0)
                else err (swd_error dap_transfer_mismatch),
            dio_to_output false (turn_around config check.1),
          ))
  unfolding read_phase checked
  read_phase-samples s = ap checked (
      read_word-samples config 32 0 0 false s (omega arith) (omega arith)
      ∙ ap (λ v. ((v, parity_of false (sample config 32 s).0), (sample config 32 s).1)) (word_of _))

  times-keeps :
      (P : SwdBits W → Type 0) (f : SwdBits W → SwdBits W) (n : ℕ) (s : SwdBits W)
      → ((s : SwdBits W) → P s → P (f s))
      → P s
      → P (times n f s)
  unfolding times
  times-keeps P f zero s k h = h
  times-keeps P f (suc n) s k h = times-keeps P f n (f s) k (k s h)

  abbrev IsDriven : SwdBits W → Type 0
  IsDriven s = s.dio_dir ≡ output

  emitting-IsDriven :
      (n : ℕ) (s : SwdBits W) → IsDriven s → IsDriven (times n (write_bit config false) s)
  unfolding write_bit clock_wait
  emitting-IsDriven n s h = times-keeps IsDriven (write_bit config false) n s (λ s h. h) h

  write_word-IsDriven :
      (n value : ℕ) (parity : Bool) (s : SwdBits W)
      → IsDriven s
      → IsDriven (write_word config n value parity s).1
  unfolding write_word write_bit clock_wait
  write_word-IsDriven zero value parity s h = h
  write_word-IsDriven (suc n) value parity s h =
      write_word-IsDriven n (value / 2) (xor parity (low_bit value))
        (write_bit config (low_bit value) s) h

  write_phase-IsDriven : (word : ℕ) (s : SwdBits W) → IsDriven (write_phase config word s).1
  unfolding write_phase write_bit clock_wait dio_to_output
  write_phase-IsDriven word s =
      write_word-IsDriven 32 word false (dio_to_output false (turn_around config s)) refl

  read_phase-IsDriven : (s : SwdBits W) → IsDriven (read_phase config s).1
  unfolding read_phase dio_to_output
  read_phase-IsDriven s = refl

  if-IsDriven :
      {A : Type 0} (b : Bool) (x y : A × SwdBits W)
      → IsDriven x.1
      → IsDriven y.1
      → IsDriven (if b then x else y).1
  if-IsDriven true x y hx hy = hx
  if-IsDriven false x y hx hy = hy

  data_phase-IsDriven :
      (request word : ℕ) (s : SwdBits W) → IsDriven (data_phase config request word s).1
  unfolding data_phase idle_cycle
  data_phase-IsDriven request word s = emitting-IsDriven config.swd.idle_cycles _ (
      if-IsDriven (contains request r_n_w) (read_phase config s) (write_phase config word s)
        (read_phase-IsDriven s) (write_phase-IsDriven word s))

  padding-IsDriven :
      (b : Bool) (s : SwdBits W)
      → IsDriven s
      → IsDriven (if b then times 33 (write_bit config false) s else s)
  padding-IsDriven true s h = emitting-IsDriven 33 s h
  padding-IsDriven false s h = h

  refused-IsDriven : (request ack : ℕ) (s : SwdBits W) → IsDriven (refused config request ack s).1
  unfolding refused dio_to_output
  refused-IsDriven request ack s =
      padding-IsDriven (config.swd.always_generate_data_phase && not (contains request r_n_w)) _
        refl

  protocol_error-IsDriven : (ack : ℕ) (s : SwdBits W) → IsDriven (protocol_error config ack s).1
  unfolding protocol_error dio_to_output
  protocol_error-IsDriven ack s = refl

  answered :
      (ack : ℕ) (accepted rejected broken : Result DapError ℕ × SwdBits W)
      → IsDriven accepted.1 × IsDriven rejected.1 × IsDriven broken.1
      → (rejected.0 ≡ err (swd_error ack)) × (broken.0 ≡ err (swd_error ack))
      → (let x =
            if ack == dap_transfer_ok
            then accepted
            else if ack == dap_transfer_wait || ack == dap_transfer_fault
            then rejected
            else broken in
          IsDriven x.1
          × (((ack ≡ dap_transfer_ok) × (x ≡ accepted))
              ⊎ ((ack ≢ dap_transfer_ok) × (x.0 ≡ err (swd_error ack)))))
  answered ack accepted rejected broken d e = elim (Bool-cases (ack == dap_transfer_ok)) [
    | inl y ↦ ground (arith, y, ==_iff ack dap_transfer_ok)
    | inr n ↦ elim (Bool-cases (ack == dap_transfer_wait || ack == dap_transfer_fault)) [
      | inl r ↦ ground (arith, n, r, ==_iff ack dap_transfer_ok)
      | inr r ↦ ground (arith, n, r, ==_iff ack dap_transfer_ok)
    ]
  ]

  -- Whatever the target answers, SWDIO is driven again when the transfer ends; and an answer other
  -- than OK, which is WAIT, FAULT or no answer of the protocol at all, is the error's code.
  pub swd_transfer-outcome :
      (request word : ℕ) (s : SwdBits W)
      → (let answer = read_ack config (request_phase config request s) in
          let x = swd_transfer config request word s in
          (x.1.dio_dir ≡ output)
          × (((answer.0 ≡ dap_transfer_ok) × (x ≡ data_phase config request word answer.1))
              ⊎ ((answer.0 ≢ dap_transfer_ok) × (x.0 ≡ err (swd_error answer.0)))))
  unfolding swd_transfer refused protocol_error
  swd_transfer-outcome request word s =
      let (ack, s') = read_ack config (request_phase config request s) in
      answered ack (data_phase config request word s') (refused config request ack s')
        (protocol_error config ack s')
        (
          data_phase-IsDriven request word s',
          refused-IsDriven request ack s',
          protocol_error-IsDriven ack s',
        )
        (refl, refl)
