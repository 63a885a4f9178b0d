-- ===== src/Base/Quiet.antt =====
-- Steps from which no error comes out, with one rule for each way to build one: the `?` of the source
-- is not used in them, and each result is looked at.
use Prim.Native.Nat.{ℕ, zero, suc}
use mathlib.Core.Bool.{Bool, true, false}
use mathlib.Core.Logic.{◌⊎◌}
use mathlib.Core.List.{List, [], ◌∷◌}
use rust_dap.Base.Tests.{if◌then◌else◌}
use rust_dap.Base.Monad.{
  Result, ok, err, panic, M, pure, gets, index, modify, attempt, ◌>>=◌, continue,
}
use rust_dap.Base.Hoare.{Keeps}

module _ {S E A : Type 0} where
  -- No error comes out, and a result has `Q`. A panic ends the program.
  abbrev pub Ends : (A → S → Type 0) → Result E A × S → Type 0
  Ends Q (ok a, s) = Q a s
  Ends Q (err e, s) = ⊥
  Ends Q (panic, s) = Unit

-- No error comes out of the step, and it keeps `P`.
pub record IsQuiet {S E A : Type 0} (P : S → Type 0) (m : M S E A) : Type 0 where
  pub quiet : (s : S) → P s → Ends (λ a. P) (m s)

module _ {S E A B : Type 0} where
  Ends-continue :
      (Q : A → S → Type 0) (R : B → S → Type 0) (x : Result E A × S) (f : A → M S E B)
      → Ends Q x
      → ((a : A) (s : S) → Q a s → Ends R (f a s))
      → Ends R (continue x f)
  Ends-continue Q R (ok a, s) f h k = k a s h
  Ends-continue Q R (err e, s) f h k = absurd h
  Ends-continue Q R (panic, s) f h k = tt

  pub Ends-bind :
      (Q : A → S → Type 0) (R : B → S → Type 0) (m : M S E A) (f : A → M S E B) (s : S)
      → Ends Q (m s)
      → ((a : A) (s : S) → Q a s → Ends R (f a s))
      → Ends R ((m >>= f) s)
  unfolding ◌>>=◌
  Ends-bind Q R m f s = Ends-continue Q R (m s) f

  pub IsQuiet-bind :
      {P : S → Type 0} (m : M S E A) (f : A → M S E B)
      → IsQuiet P m
      → ((a : A) → IsQuiet P (f a))
      → IsQuiet P (m >>= f)
  IsQuiet-bind {P} m f q k = record {
    quiet = λ s h. Ends-bind (λ a. P) (λ b. P) m f s (q.quiet s h) (λ a s h. (k a).quiet s h);
  }

module _ {S E A : Type 0} {P : S → Type 0} where
  pub IsQuiet-pure : (a : A) → IsQuiet P (pure {E = E} a)
  unfolding ◌>>=◌
  IsQuiet-pure a = record { quiet = λ s h. h }

  pub IsQuiet-gets : (f : S → A) → IsQuiet P (gets {E = E} f)
  unfolding ◌>>=◌
  IsQuiet-gets f = record { quiet = λ s h. h }

  pub IsQuiet-index : (xs : List A) (i : ℕ) → IsQuiet P (index {E = E} xs i)
  unfolding ◌>>=◌
  IsQuiet-index [] i = record { quiet = λ s h. tt }
  IsQuiet-index (x ∷ xs) zero = record { quiet = λ s h. h }
  IsQuiet-index (x ∷ xs) (suc i) = IsQuiet-index xs i

  pub IsQuiet-if :
      (c : Bool) (first second : M S E A)
      → IsQuiet P first
      → IsQuiet P second
      → IsQuiet P (if c then first else second)
  IsQuiet-if true first second q1 q2 = q1
  IsQuiet-if false first second q1 q2 = q2

module _ {S E A : Type 0} (F : Type 0) (P : S → Type 0) where
  tried_value :
      (x : Result E A × S) (s : S)
      → P x.1
      → Ends (λ (a : E ⊎ A). P) (attempt {F = F} (λ (b : S). x) s)
  unfolding ◌>>=◌
  tried_value (ok a, s') s h = h
  tried_value (err e, s') s h = h
  tried_value (panic, s') s h = tt

  pub IsQuiet-attempt : (m : M S E A) → Keeps P m → IsQuiet P (attempt {F = F} m)
  unfolding ◌>>=◌
  IsQuiet-attempt m k = record { quiet = λ s h. tried_value (m s) s (k.run s h) }

module _ {S E : Type 0} {P : S → Type 0} where
  pub IsQuiet-modify : (f : S → S) → ((s : S) → P s → P (f s)) → IsQuiet P (modify {E = E} f)
  unfolding modify
  IsQuiet-modify f h = record { quiet = h }

pub ruleset quiet_rules =
    (IsQuiet-pure, IsQuiet-gets, IsQuiet-index, IsQuiet-if, IsQuiet-modify, IsQuiet-bind)
