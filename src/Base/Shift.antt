-- ===== src/Base/Shift.antt =====
-- A shift register that fills from the top.
use Prim.Native.Nat.{ℕ, zero, suc, ◌+◌, ◌*◌, ◌/◌, ◌^◌, ◌<◌, bit_or}
use mathlib.Core.Path.{◌≡◌, ap, ◌∙◌}
use mathlib.Core.Bool.{Bool, true, false}
use native.Mathlib.Omega.{arith}
use native.Mathlib.Nat.{mul-lt-mul_of_pos_left, one-le-pow}
use rust_dap.Base.Tests.{if◌then◌else◌}
use rust_dap.Base.Bits.{of_bit, bit_or_pow}

pub zero_add : (k : ℕ) → 0 + k ≡ k
zero_add k = omega arith

suc_add : (n k : ℕ) → suc n + k ≡ suc (n + k)
suc_add n k = omega arith

pow_add : (n k : ℕ) → 2 ^ (n + k) ≡ 2 ^ n * 2 ^ k
pow_add zero k = ap (λ m. 2 ^ m) (zero_add k) ∙ omega arith
pow_add (suc n) k = ap (λ m. 2 ^ m) (suc_add n k) ∙ grind (arith, pow_add n k)

half_scaled : (n seen : ℕ) → 2 ^ suc n * seen / 2 ≡ 2 ^ n * seen
half_scaled n seen = grind arith

scaled_fits : (n k seen : ℕ) → seen < 2 ^ k → 2 ^ n * seen < 2 ^ (n + k)
scaled_fits n k seen h = omega (
  arith,
  pow_add n k,
  mul-lt-mul_of_pos_left {m = seen} {n = 2 ^ k} {k = 2 ^ n} h (one-le-pow n 2 (omega arith)),
)

scaled_sum : (n k seen : ℕ) → 2 ^ n * seen + 2 ^ (n + k) ≡ 2 ^ n * (seen + 2 ^ k)
scaled_sum n k seen = grind (arith, pow_add n k)

-- The register holds `seen` in its top `k` bits, and `n + 1` more are to come; it takes a bit.
pub shift_in :
    (top n k seen : ℕ) (bit : Bool)
    → n + k ≡ top
    → seen < 2 ^ k
    → (if bit then bit_or (2 ^ suc n * seen / 2) (2 ^ top) else 2 ^ suc n * seen / 2)
      ≡ 2 ^ n * (seen + of_bit bit * 2 ^ k)
shift_in top n k seen true e h = ground (
  arith,
  half_scaled n seen,
  ap (λ m. bit_or (2 ^ n * seen) (2 ^ m)) e,
  bit_or_pow (n + k) (2 ^ n * seen) (scaled_fits n k seen h),
  scaled_sum n k seen,
)
shift_in top n k seen false e h = ground (arith, half_scaled n seen)

double_scaled : (k rest : ℕ) → 2 ^ suc k * rest ≡ 2 * (2 ^ k * rest)
double_scaled k rest = grind arith

low_scaled : (k rest : ℕ) → 2 ^ k * (0 + 2 * rest) ≡ 2 * (2 ^ k * rest)
low_scaled k rest = grind arith

-- The next step starts from what this one leaves.
pub seen_more :
    (k seen rest : ℕ) (bit : Bool)
    → seen + of_bit bit * 2 ^ k + 2 ^ suc k * rest ≡ seen + 2 ^ k * (of_bit bit + 2 * rest)
seen_more k seen rest true = grind (arith, double_scaled k rest)
seen_more k seen rest false = grind (arith, double_scaled k rest, low_scaled k rest)

pub seen_fits : (k seen : ℕ) (bit : Bool) → seen < 2 ^ k → seen + of_bit bit * 2 ^ k < 2 ^ suc k
seen_fits k seen true h = omega arith
seen_fits k seen false h = omega arith
