-- ===== src/BitBang/Reads.antt =====
-- What comes in from the wires: `read_bits`, and the word of a transfer (rust-dap/src/bitbang.rs).
use rust_dap.Base.{
  ℕ, zero, suc, ◌+◌, ◌*◌, ◌-◌, ◌/◌, ◌^◌, ◌≤◌, ◌<◌, ◌≡◌, refl, sym, ap, ◌∙◌, Bool, true, false, xor,
  List, [], ◌∷◌, ◌++◌, length, take, if◌then◌else◌, bit_or, ok, arith, min, take-append,
}
use rust_dap.Base.Bits.{
  low_bit, bits_of, length-bits_of, take-bits_of, from_bits, of_bit, bit_or_zero,
}
use rust_dap.Base.Shift.{shift_in, seen_fits, seen_more, zero_add}
use native.Mathlib.Nat.{mul-div_cancel_left, one-le-pow}
use rust_dap.Transport.{DapConfig}
use rust_dap.BitBang.Pins.{Pins, pack_byte}
use rust_dap.BitBang.Swd.{SwdBits, write_bit, read_bit, pack_read_bits, read_bits}
use rust_dap.BitBang.Transfer.{read_word, write_word}
use rust_dap.BitBang.Emits.{emit, byte_bits}

-- The parity of a string of bits, from a first value.
unfoldable pub parity_of : Bool → List Bool → Bool
parity_of parity [] = parity
parity_of parity (bit ∷ bits) = parity_of (xor parity bit) bits

-- The shift of `read_word`, whose `|` is with 0 for a low level.
word_step :
    (n k seen : ℕ) (bit : Bool)
    → n + k ≡ 31
    → seen < 2 ^ k
    → bit_or (2 ^ suc n * seen / 2) (if bit then 0x8000_0000 else 0)
      ≡ 2 ^ n * (seen + of_bit bit * 2 ^ k)
word_step n k seen true e h = shift_in 31 n k seen true e h
word_step n k seen false e h = bit_or_zero (2 ^ suc n * seen / 2) ∙ shift_in 31 n k seen false e h

-- `min` and `-`, computing along both numbers.
abbrev lesser : ℕ → ℕ → ℕ
lesser zero n = 0
lesser (suc m) zero = 0
lesser (suc m) (suc n) = suc (lesser m n)

abbrev left : ℕ → ℕ → ℕ
left zero n = 0
left (suc m) zero = suc m
left (suc m) (suc n) = left m n

lesser_lem : (m n : ℕ) → lesser m n ≡ min m n
lesser_lem zero n = omega arith
lesser_lem (suc m) zero = omega arith
lesser_lem (suc m) (suc n) = omega (arith, lesser_lem m n)

left_lem : (m n : ℕ) → left m n ≡ m - n
left_lem zero n = omega arith
left_lem (suc m) zero = omega arith
left_lem (suc m) (suc n) = omega (arith, left_lem m n)

pub word_of : (n : ℕ) → 0 + 2 ^ 0 * n ≡ n
word_of n = omega arith

module _ {W : Type 0} ⦃p : Pins W⦄ (config : DapConfig) where
  -- The next `n` bits, one clock each.
  unfoldable pub sample : ℕ → SwdBits W → List Bool × SwdBits W
  sample zero s = ([], s)
  sample (suc n) s =
      let (bit, s') = read_bit config s in let (bits, s'') = sample n s' in (bit ∷ bits, s'')

  -- The word loop reads the bits in order, the lowest first, and keeps their parity: `seen` holds
  -- the first `k` bits, and `n` rounds are left.
  pub read_word-samples :
      (n k seen : ℕ) (parity : Bool) (s : SwdBits W)
      → n + k ≡ 32
      → seen < 2 ^ k
      → read_word config n (2 ^ n * seen) parity s ≡ (
        (seen + 2 ^ k * from_bits (sample n s).0, parity_of parity (sample n s).0),
        (sample n s).1,
      )
  unfolding read_word sample parity_of from_bits
  read_word-samples zero k seen parity s e h = grind arith
  read_word-samples (suc n) k seen parity s e h =
      let (bit, s') = read_bit config s in
      ap (λ v. read_word config n v (xor parity bit) s') (word_step n k seen bit (omega arith) h)
      ∙ read_word-samples n (suc k) (seen + of_bit bit * 2 ^ k) (xor parity bit) s' (omega arith)
          (seen_fits k seen bit h)
      ∙ ap (λ v. ((v, parity_of (xor parity bit) (sample n s').0), (sample n s').1))
          (seen_more k seen (from_bits (sample n s').0) bit)

  pub write_word-emits :
      (n value : ℕ) (parity : Bool) (s : SwdBits W)
      → write_word config n value parity s
        ≡ (parity_of parity (bits_of n value), emit config (bits_of n value) s)
  unfolding write_word emit parity_of bits_of
  write_word-emits zero value parity s = refl
  write_word-emits (suc n) value parity s =
      write_word-emits n (value / 2) (xor parity (low_bit value))
        (write_bit config (low_bit value) s)

module _ {W : Type 0} ⦃p : Pins W⦄ (config : DapConfig) where
  sample-append :
      (m n count : ℕ) (s : SwdBits W)
      → m + n ≡ count
      → sample config count s ≡ (
        (sample config m s).0 ++ (sample config n (sample config m s).1).0,
        (sample config n (sample config m s).1).1,
      )
  unfolding sample
  sample-append zero n count s e = ap (λ c. sample config c s) (sym e ∙ zero_add n)
  sample-append (suc m) n zero s e = absurd (omega arith)
  sample-append (suc m) n (suc count) s e =
      ap (λ x. ((read_bit config s).0 ∷ x.0, x.1))
        (sample-append m n count (read_bit config s).1 (omega arith))

  length-sample : (n : ℕ) (s : SwdBits W) → length (sample config n s).0 ≡ n
  unfolding sample
  length-sample zero s = refl
  length-sample (suc n) s = omega (arith, length-sample n (read_bit config s).1)

  pack_byte-samples :
      (bits k count seen : ℕ) (s : SwdBits W)
      → bits + k ≡ 8
      → seen < 2 ^ k
      → pack_byte (read_bit config) count bits (2 ^ bits * seen) s ≡ (
        (seen + 2 ^ k * from_bits (sample config (lesser count bits) s).0, left count bits),
        (sample config (lesser count bits) s).1,
      )
  unfolding pack_byte sample from_bits
  pack_byte-samples zero k zero seen s e h = grind arith
  pack_byte-samples zero k (suc count) seen s e h = grind arith
  pack_byte-samples (suc bits) k zero seen s e h =
      ap (λ v. ((v, 0), s))
        (mul-div_cancel_left seen (one-le-pow (suc bits) 2 (omega arith)) ∙ grind arith)
  pack_byte-samples (suc bits) k (suc count) seen s e h =
      let (bit, s') = read_bit config s in
      ap (λ v. pack_byte (read_bit config) count bits v s')
        (shift_in 7 bits k seen bit (omega arith) h)
      ∙ pack_byte-samples bits (suc k) count (seen + of_bit bit * 2 ^ k) s' (omega arith)
          (seen_fits k seen bit h)
      ∙ ap (λ v. ((v, left count bits), (sample config (lesser count bits) s').1))
          (seen_more k seen (from_bits (sample config (lesser count bits) s').0) bit)

  -- One byte of the buffer: its lowest bits are the ones that were read.
  byte-samples :
      (count : ℕ) (s : SwdBits W)
      → (let x = pack_byte (read_bit config) count 8 0 s in
          (take count (bits_of 8 x.0.0) ≡ (sample config (min count 8) s).0)
          × (x.0.1 ≡ count - 8)
          × (x.1 ≡ (sample config (min count 8) s).1))
  byte-samples count s =
      let e = pack_byte-samples 8 0 count 0 s (omega arith) (omega arith) in
      (
        ap (λ x. take count (bits_of 8 x.0.0)) e
            ∙ ap (λ v. take count (bits_of 8 v))
                (word_of (from_bits (sample config (lesser count 8) s).0))
            ∙ take-bits_of 8 count (sample config (lesser count 8) s).0
                (length-sample (lesser count 8) s ∙ lesser_lem count 8)
            ∙ ap (λ m. (sample config m s).0) (lesser_lem count 8),
        ap (λ x. x.0.1) e ∙ left_lem count 8,
        ap (λ x. x.1) e ∙ ap (λ m. (sample config m s).1) (lesser_lem count 8),
      )

  -- Behind a first byte, `w`, that `m` bits went into, comes the rest of the buffer, `bits`.
  pack_step :
      (count l m : ℕ) (w bits : List Bool) (s s' s'' : SwdBits W)
      → m + l ≡ count
      → l ≡ count - length w
      → s' ≡ (sample config m s).1
      → take count w ≡ (sample config m s).0
      → s'' ≡ (sample config l s').1
      → take l bits ≡ (sample config l s').0
      → (s'' ≡ (sample config count s).1) × (take count (w ++ bits) ≡ (sample config count s).0)
  pack_step count l m w bits s s' s'' e el es ew es' eb =
      let whole = sample-append m l count s e in
      let after = es' ∙ ap (λ z. (sample config l z).1) es in
      let more = eb ∙ ap (λ z. (sample config l z).0) es in
      (
        after ∙ sym (ap (λ x. x.1) whole),
        take-append count w bits
            ∙ ap (λ n. take count w ++ take n bits) (sym el)
            ∙ ap (λ xs. xs ++ take l bits) ew
            ∙ ap (λ xs. (sample config m s).0 ++ xs) more
            ∙ sym (ap (λ x. x.0) whole),
      )

  -- Where the buffer has room for `count` bits, `read_bits` answers Ok after `count` clocks, and
  -- the bits of the buffer from the first byte on, lowest first, are those that were sampled.
  pub read_bits-samples :
      (count : ℕ) (bytes : List ℕ) (s : SwdBits W)
      → count ≤ 8 * length bytes
      → (let x = read_bits config count (s, bytes) in
          (x.0 ≡ ok tt)
          × (x.1.0 ≡ (sample config count s).1)
          × (take count (byte_bits x.1.1) ≡ (sample config count s).0)
          × (length x.1.1 ≡ length bytes))
  unfolding read_bits pack_read_bits sample byte_bits
  read_bits-samples zero bytes s h = (refl, refl, refl, refl)
  read_bits-samples (suc count) [] s h = absurd (omega arith)
  read_bits-samples (suc count) (old ∷ bytes) s h =
      let x = pack_byte (read_bit config) (suc count) 8 0 s in
      let b = byte-samples (suc count) s in
      let rest = read_bits-samples x.0.1 bytes x.1 (omega (arith, b.1)) in
      let joined =
        pack_step (suc count) x.0.1 (min (suc count) 8) (bits_of 8 x.0.0) _ s x.1 _
          (omega (arith, b.1)) (b.1 ∙ ap (λ n. suc count - n) (sym (length-bits_of 8 x.0.0))) b.2
          b.0 rest.1 rest.2 in
      (rest.0, joined.0, joined.1, ap suc rest.3)

  -- The buffer keeps its length, also where it is too short.
  pub read_bits-length :
      (count : ℕ) (s : SwdBits W) (bytes : List ℕ)
      → length (read_bits config count (s, bytes)).1.1 ≡ length bytes
  unfolding read_bits pack_read_bits
  read_bits-length zero s bytes = refl
  read_bits-length (suc count) s [] = refl
  read_bits-length (suc count) s (old ∷ bytes) =
      let (value, s') = pack_byte (read_bit config) (suc count) 8 0 s in
      ap suc (read_bits-length value.1 s' bytes)
