-- ===== src/Base/Bits.antt =====
-- Words as lists of bits, lowest first, and `|` with a bit above a word as a sum.
use Prim.Native.Nat.{
  ℕ, zero, suc, ◌+◌, ◌*◌, ◌/◌, ◌%◌, ◌^◌, ◌≤◌, ◌<◌, min, max, digits, bit_or, bit_or-bitwise,
}
use mathlib.Core.Path.{◌≡◌, refl, ◌∙◌}
use mathlib.Core.Bool.{Bool, true, false, not}
use mathlib.Core.List.{List, [], ◌∷◌, ◌++◌}
use native.Mathlib.Omega.{arith}
use rust_dap.Base.Tests.{◌==◌, if◌then◌else◌}
use rust_dap.Base.Lists.{length, take}

half_pow : (k : ℕ) → 2 ^ suc k / 2 ≡ 2 ^ k
half_pow k = omega arith

even_pow : (k : ℕ) → 2 ^ suc k % 2 ≡ 0
even_pow k = omega arith

or_digits : (n a k : ℕ) → a ≤ n → a < 2 ^ k → digits (λ b. b) max n a (2 ^ k) ≡ a + 2 ^ k
or_digits zero zero k p q = omega arith
or_digits zero (suc a) k p q = absurd (omega arith)
or_digits (suc n) zero k p q = omega arith
or_digits (suc n) (suc a) zero p q = absurd (omega arith)
or_digits (suc n) (suc a) (suc k) p q =
    ground (arith, or_digits n (suc a / 2) k (omega arith) (omega arith), half_pow k, even_pow k)

pub bit_or_pow : (k a : ℕ) → a < 2 ^ k → bit_or a (2 ^ k) ≡ a + 2 ^ k
bit_or_pow k a h = bit_or-bitwise a (2 ^ k) ∙ or_digits a a k (omega arith) h

or_digits_zero : (n a : ℕ) → a ≤ n → digits (λ b. b) max n a 0 ≡ a
or_digits_zero zero zero p = refl
or_digits_zero zero (suc a) p = absurd (omega arith)
or_digits_zero (suc n) zero p = refl
or_digits_zero (suc n) (suc a) p = ground (arith, or_digits_zero n (suc a / 2) (omega arith))

pub bit_or_zero : (a : ℕ) → bit_or a 0 ≡ a
bit_or_zero a = bit_or-bitwise a 0 ∙ or_digits_zero a a (omega arith)

-- `value & 1 != 0`
abbrev pub low_bit : ℕ → Bool
low_bit value = not (value % 2 == 0)

abbrev pub of_bit : Bool → ℕ
of_bit bit = if bit then 1 else 0

-- The `n` lowest bits, lowest first.
unfoldable pub bits_of : ℕ → ℕ → List Bool
bits_of zero value = []
bits_of (suc n) value = low_bit value ∷ bits_of n (value / 2)

unfoldable pub from_bits : List Bool → ℕ
from_bits [] = 0
from_bits (bit ∷ bits) = of_bit bit + 2 * from_bits bits

pub length-bits_of : (n value : ℕ) → length (bits_of n value) ≡ n
unfolding bits_of
length-bits_of zero value = refl
length-bits_of (suc n) value = ground (arith, length-bits_of n (value / 2))

pub from_bits-bits_of : (n value : ℕ) → value < 2 ^ n → from_bits (bits_of n value) ≡ value
unfolding bits_of from_bits
from_bits-bits_of zero value h = omega arith
from_bits-bits_of (suc n) value h = ground (arith, from_bits-bits_of n (value / 2) (omega arith))

pub from_bits-fits : (bits : List Bool) → from_bits bits < 2 ^ length bits
unfolding from_bits
from_bits-fits [] = omega arith
from_bits-fits (bit ∷ bits) = ground (arith, from_bits-fits bits)

pub from_bits-append :
    (bits : List Bool) (bit : Bool)
    → from_bits (bits ++ bit ∷ []) ≡ from_bits bits + of_bit bit * 2 ^ length bits
unfolding from_bits
from_bits-append [] bit = omega arith
from_bits-append (b ∷ bits) bit = ground (arith, from_bits-append bits bit)

low_bit_of : (bit : Bool) (rest : ℕ) → low_bit (of_bit bit + 2 * rest) ≡ bit
low_bit_of true rest = ground arith
low_bit_of false rest = ground arith

high_bits_of : (bit : Bool) (rest : ℕ) → (of_bit bit + 2 * rest) / 2 ≡ rest
high_bits_of true rest = omega arith
high_bits_of false rest = omega arith

-- The bits that a word of `n` bits was made from.
pub take-bits_of :
    (n count : ℕ) (bits : List Bool)
    → length bits ≡ min count n
    → take count (bits_of n (from_bits bits)) ≡ bits
unfolding bits_of from_bits
take-bits_of n zero [] e = refl
take-bits_of zero (suc count) [] e = refl
take-bits_of (suc n) (suc count) [] e = absurd (omega arith)
take-bits_of n zero (bit ∷ bits) e = absurd (omega arith)
take-bits_of zero (suc count) (bit ∷ bits) e = absurd (omega arith)
take-bits_of (suc n) (suc count) (bit ∷ bits) e = ground (
  arith,
  low_bit_of bit (from_bits bits),
  high_bits_of bit (from_bits bits),
  take-bits_of n count bits (omega arith),
)
