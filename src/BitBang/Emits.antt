-- ===== src/BitBang/Emits.antt =====
-- What goes out on the wires: `swj_sequence` and `write_bits` (rust-dap/src/bitbang.rs).
use rust_dap.Base.{
  ℕ, zero, suc, ◌+◌, ◌-◌, ◌/◌, ◌≡◌, ◌⊎◌, inl, inr, refl, sym, ap, ◌∙◌, Bool, List, [], ◌∷◌, ◌++◌,
  none, some, length, take, drop, get_elem?, ltb, if◌then◌else◌, Result, ok, err, arith,
}
use rust_dap.Base.Bits.{low_bit, bits_of}
use rust_dap.CmsisDap.{DapError, invalid_command}
use rust_dap.Transport.{DapConfig}
use rust_dap.BitBang.Pins.{Pins}
use rust_dap.BitBang.Swd.{
  SwdBits, write_bit, sequence_loop, swj_sequence, write_byte, write_bytes, write_bits,
}

-- The bits of a byte string: each byte from its lowest bit.
unfoldable pub byte_bits : List ℕ → List Bool
byte_bits [] = []
byte_bits (byte ∷ bytes) = bits_of 8 byte ++ byte_bits bytes

next_byte :
    (bytes : List ℕ) (index : ℕ)
    → ((get_elem? bytes index ≡ none) × (drop index bytes ≡ []))
      ⊎ ((byte : ℕ) × (get_elem? bytes index ≡ some byte)
          × (drop index bytes ≡ byte ∷ drop (index + 1) bytes))
next_byte [] zero = inl (refl, refl)
next_byte (b ∷ bytes) zero = inr (b, refl, refl)
next_byte [] (suc index) = inl (refl, refl)
next_byte (b ∷ bytes) (suc index) = ground (arith, next_byte bytes index)

module _ {W : Type 0} ⦃p : Pins W⦄ (config : DapConfig) where
  -- The bits in order, one clock each.
  unfoldable pub emit : List Bool → SwdBits W → SwdBits W
  emit [] s = s
  emit (bit ∷ bits) s = emit bits (write_bit config bit s)

  -- As many of `bits` as `count`, and whether there were as many.
  abbrev pub emitted : ℕ → List Bool → SwdBits W → Result DapError (Unit {0}) × SwdBits W
  emitted count bits s =
      (if ltb (length bits) count then err invalid_command else ok tt, emit (take count bits) s)

  write_byte-emits :
      (count bits value : ℕ) (s : SwdBits W)
      → write_byte config count bits value s
        ≡ (count - bits, emit (take count (bits_of bits value)) s)
  unfolding write_byte emit bits_of
  write_byte-emits zero zero value s = ground arith
  write_byte-emits (suc count) zero value s = ground arith
  write_byte-emits zero (suc bits) value s = ground arith
  write_byte-emits (suc count) (suc bits) value s =
      ground (arith, write_byte-emits count bits (value / 2) (write_bit config (low_bit value) s))

  emitted-append :
      (xs ys : List Bool) (count : ℕ) (s : SwdBits W)
      → emitted (count - length xs) ys (emit (take count xs) s) ≡ emitted count (xs ++ ys) s
  unfolding emit
  emitted-append [] ys zero s = ground arith
  emitted-append [] ys (suc count) s = ground arith
  emitted-append (x ∷ xs) ys zero s = ground arith
  emitted-append (x ∷ xs) ys (suc count) s =
      ground (arith, emitted-append xs ys count (write_bit config x s))

  write_bytes-emits :
      (count : ℕ) (bytes : List ℕ) (s : SwdBits W)
      → write_bytes config count bytes s ≡ emitted count (byte_bits bytes) s
  unfolding write_bytes byte_bits emit bits_of
  write_bytes-emits zero bytes s = ground arith
  write_bytes-emits (suc count) [] s = ground arith
  write_bytes-emits (suc count) (byte ∷ bytes) s =
      ap (λ x. write_bytes config x.0 bytes x.1) (write_byte-emits (suc count) 8 byte s)
      ∙ write_bytes-emits (suc count - 8) bytes (emit (take (suc count) (bits_of 8 byte)) s)
      ∙ emitted-append (bits_of 8 byte) (byte_bits bytes) (suc count) s

  sequence_loop-emits :
      (count : ℕ) (bytes : List ℕ) (index value bits : ℕ) (s : SwdBits W)
      → sequence_loop config count bytes index value bits s
        ≡ emitted count (bits_of bits value ++ byte_bits (drop index bytes)) s
  unfolding sequence_loop bits_of emit byte_bits
  sequence_loop-emits zero bytes index value bits s = ground arith
  sequence_loop-emits (suc count) bytes index value zero s = elim (next_byte bytes index) [
    | inl (e, d) ↦ ground (arith, e, d)
    | inr (byte, e, d) ↦ ground (
      arith,
      e,
      d,
      sequence_loop-emits count bytes (index + 1) (byte / 2) 7 (write_bit config (low_bit byte) s),
    )
  ]
  sequence_loop-emits (suc count) bytes index value (suc bits) s = ground (
    arith,
    sequence_loop-emits count bytes index (value / 2) bits (write_bit config (low_bit value) s),
  )

  -- `swj_sequence` puts out the lowest `count` bits of the byte string, in order, and answers Ok;
  -- where the string is shorter, it puts out all of it and answers InvalidCommand.
  pub swj_sequence-emits :
      (count : ℕ) (bytes : List ℕ) (s : SwdBits W)
      → swj_sequence config count bytes s ≡ emitted count (byte_bits bytes) s
  unfolding swj_sequence bits_of
  swj_sequence-emits count bytes s = sequence_loop-emits count bytes 0 0 0 s

  -- The two loops over the bits of a byte string, that of `write_bits` and that of `swj_sequence`,
  -- do the same on every input, and it is to put out the lowest `count` bits.
  pub write_bits-swj_sequence :
      (count : ℕ) (bytes : List ℕ) (s : SwdBits W)
      → (write_bits config count bytes s ≡ swj_sequence config count bytes s)
        × (write_bits config count bytes s ≡ emitted count (byte_bits bytes) s)
  unfolding write_bits
  write_bits-swj_sequence count bytes s = (
    write_bytes-emits count bytes s ∙ sym (swj_sequence-emits count bytes s),
    write_bytes-emits count bytes s,
  )
