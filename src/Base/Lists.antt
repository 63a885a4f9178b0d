-- ===== src/Base/Lists.antt =====
-- Lists measured by native numbers, and slices of a buffer.
use Prim.Native.Nat.{ℕ, zero, suc, ◌+◌, ◌-◌, ◌≤◌, ◌<◌, min}
use mathlib.Core.Path.{◌≡◌, refl, ap}
use mathlib.Core.Bool.{Bool, true, false}
use mathlib.Core.List.{List, [], ◌∷◌, ◌++◌}
use mathlib.Core.Option.{Option, none, some}
use native.Mathlib.Omega.{arith}

module _ {ℓ} {A : Type ℓ} where
  abbrev pub length : List A → ℕ
  length [] = 0
  length (x ∷ xs) = suc (length xs)

  abbrev pub get_elem? : List A → ℕ → Option A
  get_elem? [] i = none
  get_elem? (x ∷ xs) zero = some x
  get_elem? (x ∷ xs) (suc i) = get_elem? xs i

  -- The test `xs.len() < n`, made along the list.
  abbrev pub shorter : List A → ℕ → Bool
  shorter xs zero = false
  shorter [] (suc n) = true
  shorter (x ∷ xs) (suc n) = shorter xs n

  abbrev pub take : ℕ → List A → List A
  take zero xs = []
  take (suc n) [] = []
  take (suc n) (x ∷ xs) = x ∷ take n xs

  abbrev pub drop : ℕ → List A → List A
  drop zero xs = xs
  drop (suc n) [] = []
  drop (suc n) (x ∷ xs) = drop n xs

  abbrev pub replicate : ℕ → A → List A
  replicate zero a = []
  replicate (suc n) a = a ∷ replicate n a

  abbrev pub All {κ} : (A → Type κ) → List A → Type κ
  All P [] = Unit {κ}
  All P (x ∷ xs) = P x × All P xs

  -- `copy_from_slice` of `new` into a buffer from a position on, where it fits.
  unfoldable pub overwrite : ℕ → List A → List A → List A
  overwrite zero [] buffer = buffer
  overwrite zero (v ∷ new) [] = []
  overwrite zero (v ∷ new) (x ∷ buffer) = v ∷ overwrite zero new buffer
  overwrite (suc p) new [] = []
  overwrite (suc p) new (x ∷ buffer) = x ∷ overwrite p new buffer

module _ {ℓ} {A : Type ℓ} where
  pub shorter→lt : (xs : List A) (n : ℕ) → shorter xs n ≡ true → length xs < n
  shorter→lt [] zero h = ground arith
  shorter→lt (x ∷ xs) zero h = ground arith
  shorter→lt [] (suc n) h = omega arith
  shorter→lt (x ∷ xs) (suc n) h = omega (arith, shorter→lt xs n h)

  pub lt→shorter : (xs : List A) (n : ℕ) → length xs < n → shorter xs n ≡ true
  lt→shorter [] zero h = absurd (omega arith)
  lt→shorter (x ∷ xs) zero h = absurd (omega arith)
  lt→shorter [] (suc n) h = refl
  lt→shorter (x ∷ xs) (suc n) h = lt→shorter xs n (omega arith)

  pub not_shorter→le : (xs : List A) (n : ℕ) → shorter xs n ≡ false → n ≤ length xs
  not_shorter→le [] zero h = omega arith
  not_shorter→le (x ∷ xs) zero h = omega arith
  not_shorter→le [] (suc n) h = ground arith
  not_shorter→le (x ∷ xs) (suc n) h = omega (arith, not_shorter→le xs n h)

  pub le→not_shorter : (xs : List A) (n : ℕ) → n ≤ length xs → shorter xs n ≡ false
  le→not_shorter [] zero h = refl
  le→not_shorter (x ∷ xs) zero h = refl
  le→not_shorter [] (suc n) h = absurd (omega arith)
  le→not_shorter (x ∷ xs) (suc n) h = le→not_shorter xs n (omega arith)

  pub length-append : (xs ys : List A) → length (xs ++ ys) ≡ length xs + length ys
  length-append [] ys = omega arith
  length-append (x ∷ xs) ys = omega (arith, length-append xs ys)

  pub length-take : (n : ℕ) (xs : List A) → length (take n xs) ≡ min n (length xs)
  length-take zero xs = omega arith
  length-take (suc n) [] = omega arith
  length-take (suc n) (x ∷ xs) = omega (arith, length-take n xs)

  pub length-drop : (n : ℕ) (xs : List A) → length (drop n xs) ≡ length xs - n
  length-drop zero xs = omega arith
  length-drop (suc n) [] = omega arith
  length-drop (suc n) (x ∷ xs) = omega (arith, length-drop n xs)

  pub length-replicate : (n : ℕ) (a : A) → length (replicate n a) ≡ n
  length-replicate zero a = refl
  length-replicate (suc n) a = ap suc (length-replicate n a)

  pub take-all : (xs : List A) → take (length xs) xs ≡ xs
  take-all [] = refl
  take-all (x ∷ xs) = ap (λ ys. x ∷ ys) (take-all xs)

  pub All-take {κ} : (P : A → Type κ) (n : ℕ) (xs : List A) → All P xs → All P (take n xs)
  All-take P zero xs h = tt
  All-take P (suc n) [] h = tt
  All-take P (suc n) (x ∷ xs) h = (h.0, All-take P n xs h.1)

  pub All-drop {κ} : (P : A → Type κ) (n : ℕ) (xs : List A) → All P xs → All P (drop n xs)
  All-drop P zero xs h = h
  All-drop P (suc n) [] h = tt
  All-drop P (suc n) (x ∷ xs) h = All-drop P n xs h.1

  pub length-overwrite : (p : ℕ) (new xs : List A) → length (overwrite p new xs) ≡ length xs
  unfolding overwrite
  length-overwrite zero [] xs = refl
  length-overwrite zero (v ∷ new) [] = refl
  length-overwrite zero (v ∷ new) (x ∷ xs) = ap suc (length-overwrite zero new xs)
  length-overwrite (suc p) new [] = refl
  length-overwrite (suc p) new (x ∷ xs) = ap suc (length-overwrite p new xs)

  -- What was written is read back, where it fits.
  pub take-drop-overwrite :
      (p : ℕ) (new xs : List A)
      → p + length new ≤ length xs
      → take (length new) (drop p (overwrite p new xs)) ≡ new
  unfolding overwrite
  take-drop-overwrite zero [] xs h = refl
  take-drop-overwrite zero (v ∷ new) [] h = absurd (omega arith)
  take-drop-overwrite zero (v ∷ new) (x ∷ xs) h =
      ap (λ ys. v ∷ ys) (take-drop-overwrite zero new xs (omega arith))
  take-drop-overwrite (suc p) new [] h = absurd (omega arith)
  take-drop-overwrite (suc p) new (x ∷ xs) h = take-drop-overwrite p new xs (omega arith)

  -- What stands before the position stays.
  pub take-overwrite : (p : ℕ) (new xs : List A) → take p (overwrite p new xs) ≡ take p xs
  unfolding overwrite
  take-overwrite zero new xs = refl
  take-overwrite (suc p) new [] = refl
  take-overwrite (suc p) new (x ∷ xs) = ap (λ ys. x ∷ ys) (take-overwrite p new xs)

module _ {ℓ} {A : Type ℓ} where
  pub take-append :
      (n : ℕ) (xs ys : List A) → take n (xs ++ ys) ≡ take n xs ++ take (n - length xs) ys
  take-append zero [] ys = ground arith
  take-append zero (x ∷ xs) ys = ground arith
  take-append (suc n) [] ys = ground arith
  take-append (suc n) (x ∷ xs) ys = ground (arith, take-append n xs ys)

  -- The elements before what was appended.
  pub take-length : (xs ys : List A) → take (length xs) (xs ++ ys) ≡ xs
  take-length [] [] = refl
  take-length [] (y ∷ ys) = refl
  take-length (x ∷ xs) ys = ap (λ l. x ∷ l) (take-length xs ys)
