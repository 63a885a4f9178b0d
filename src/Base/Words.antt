-- ===== src/Base/Words.antt =====
-- Little-endian words, and the flags of a `bitflags` type.
use Prim.Native.Nat.{ℕ, zero, suc, ◌+◌, ◌*◌, ◌/◌, ◌%◌, ◌^◌, ◌<◌, bit_and}
use mathlib.Core.Path.{◌≡◌}
use mathlib.Core.Bool.{Bool}
use mathlib.Core.List.{List, [], ◌∷◌}
use native.Mathlib.Omega.{arith}
use rust_dap.Base.Tests.{◌==◌}
use rust_dap.Base.Lists.{All}

abbrev pub IsByte : ℕ → Type 0
IsByte b = b < 256

abbrev pub IsU32 : ℕ → Type 0
IsU32 v = v < 2 ^ 32

-- `u16::to_le_bytes` and `u32::to_le_bytes`
abbrev pub le_bytes2 : ℕ → List ℕ
le_bytes2 v = v % 256 ∷ v / 256 % 256 ∷ []

abbrev pub le_bytes4 : ℕ → List ℕ
le_bytes4 v = v % 256 ∷ v / 256 % 256 ∷ v / 65536 % 256 ∷ v / 16777216 % 256 ∷ []

-- The `n` lowest bytes, lowest first.
abbrev pub le_bytes : ℕ → ℕ → List ℕ
le_bytes zero v = []
le_bytes (suc n) v = v % 256 ∷ le_bytes n (v / 256)

-- `from_le_bytes`, of any number of bytes
abbrev pub from_le : List ℕ → ℕ
from_le [] = 0
from_le (b ∷ bs) = b + 256 * from_le bs

-- `flags.contains(flag)`
abbrev pub contains : ℕ → ℕ → Bool
contains flags flag = bit_and flags flag == flag

pub from_le-le_bytes4 : (v : ℕ) → IsU32 v → from_le (le_bytes4 v) ≡ v
from_le-le_bytes4 v h = omega arith

pub le_bytes4-IsByte : (v : ℕ) → All IsByte (le_bytes4 v)
le_bytes4-IsByte v = omega arith
