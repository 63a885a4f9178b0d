-- ===== src/Base/Slices.antt =====
-- Slices that are overwritten piece by piece.
use Prim.Native.Nat.{ℕ, zero, suc, ◌+◌, ◌≤◌}
use mathlib.Core.Path.{◌≡◌, refl, ap}
use mathlib.Core.List.{List, [], ◌∷◌, ◌++◌}
use native.Mathlib.Omega.{arith}
use rust_dap.Base.Lists.{length, take, overwrite}

suc_add : (p n : ℕ) → suc p + n ≡ suc (p + n)
suc_add p n = omega arith

module _ {ℓ} {A : Type ℓ} where
  pub overwrite-nil : (p : ℕ) (buffer : List A) → overwrite p [] buffer ≡ buffer
  unfolding overwrite
  overwrite-nil zero buffer = refl
  overwrite-nil (suc p) [] = refl
  overwrite-nil (suc p) (b ∷ buffer) = ap (λ l. b ∷ l) (overwrite-nil p buffer)

  -- Two pieces, the second behind the first, are one.
  pub overwrite-append :
      (p : ℕ) (xs ys buffer : List A)
      → overwrite (p + length xs) ys (overwrite p xs buffer) ≡ overwrite p (xs ++ ys) buffer
  unfolding overwrite
  overwrite-append zero [] ys buffer = ground arith
  overwrite-append zero (x ∷ xs) [] [] = ground arith
  overwrite-append zero (x ∷ xs) (y ∷ ys) [] = ground arith
  overwrite-append zero (x ∷ xs) ys (b ∷ buffer) =
      ground (arith, overwrite-append zero xs ys buffer)
  overwrite-append (suc p) xs ys [] = rw (suc_add p (length xs)) refl
  overwrite-append (suc p) xs ys (b ∷ buffer) =
      rw (suc_add p (length xs)) (ap (λ l. b ∷ l) (overwrite-append p xs ys buffer))

  pub overwrite-all : (xs buffer : List A) → length xs ≡ length buffer → overwrite 0 xs buffer ≡ xs
  unfolding overwrite
  overwrite-all [] [] e = refl
  overwrite-all [] (b ∷ buffer) e = absurd (omega (arith, e))
  overwrite-all (x ∷ xs) [] e = absurd (omega (arith, e))
  overwrite-all (x ∷ xs) (b ∷ buffer) e =
      ap (λ l. x ∷ l) (overwrite-all xs buffer (omega (arith, e)))

  -- The bytes up to the end of what was written.
  pub take_past-overwrite :
      (p : ℕ) (new xs : List A)
      → p + length new ≤ length xs
      → take (p + length new) (overwrite p new xs) ≡ take p xs ++ new
  unfolding overwrite
  take_past-overwrite zero [] xs h = ground arith
  take_past-overwrite zero (v ∷ new) [] h = absurd (omega arith)
  take_past-overwrite zero (v ∷ new) (x ∷ xs) h =
      ground (arith, take_past-overwrite zero new xs (omega arith))
  take_past-overwrite (suc p) new [] h = absurd (omega arith)
  take_past-overwrite (suc p) new (x ∷ xs) h =
      rw (suc_add p (length new)) (ap (λ l. x ∷ l) (take_past-overwrite p new xs (omega arith)))
