-- ===== src/Base/Hoare.antt =====
-- Postconditions of a step, and invariants with one rule for each way to build a step.
use Prim.Native.Nat.{ℕ, ◌≤◌}
use mathlib.Core.Bool.{Bool, true, false}
use mathlib.Core.Option.{Option, none, some}
use mathlib.Core.List.{List}
use mathlib.Core.Path.{◌≡◌, refl}
use native.Mathlib.Omega.{arith}
use rust_dap.Base.Tests.{if◌then◌else◌}
use rust_dap.Base.Lists.{length, shorter, not_shorter→le}
use rust_dap.Base.Monad.{
  Result, ok, err, panic, M, pure, throw, gets, from_option, index, slice, modify, throw_if,
  panic_if, attempt, zoom, ◌>>=◌, continue,
}

-- Nothing is claimed of the result.
abbrev pub Any : {S A : Type 0} → A → S → Type 0
Any a s = Unit

module _ {S E A : Type 0} where
  -- An invariant `P` of the state, kept also by an error, and a claim `Q` about the result. A panic
  -- ends the program, and nothing is claimed of it.
  abbrev pub Post : (S → Type 0) → (A → S → Type 0) → Result E A × S → Type 0
  Post P Q (ok a, s) = P s × Q a s
  Post P Q (err e, s) = P s
  Post P Q (panic, s) = Unit

  -- From every state with `P`, the step keeps `P`, and a result has `Q`.
  abbrev pub Ensures : (S → Type 0) → M S E A → (A → S → Type 0) → Type 0
  Ensures P m Q = (s : S) → P s → Post P Q (m s)

-- The step keeps `P`, however it ends.
pub record Keeps {S E A : Type 0} (P : S → Type 0) (m : M S E A) : Type 0 where
  pub run : (s : S) → P s → P (m s).1

module _ {S E A : Type 0} {P : S → Type 0} where
  pub Keeps-from_option : (e : E) (o : Option A) → Keeps P (from_option e o)
  unfolding ◌>>=◌
  Keeps-from_option e none = record { run = λ s h. h }
  Keeps-from_option e (some a) = record { run = λ s h. h }

  pub Keeps-throw : (e : E) → Keeps P (throw {A = A} e)
  unfolding ◌>>=◌
  Keeps-throw e = record { run = λ s h. h }

  pub Keeps-index : (xs : List A) (i : ℕ) → Keeps P (index {E = E} xs i)
  unfolding ◌>>=◌
  Keeps-index xs i = record { run = λ s h. ground arith }

  pub Keeps-slice : (xs : List A) (i n : ℕ) → Keeps P (slice {E = E} xs i n)
  unfolding ◌>>=◌
  Keeps-slice xs i n = record { run = λ s h. ground arith }

  pub Keeps-gets : (f : S → A) → Keeps P (gets {E = E} f)
  unfolding ◌>>=◌
  Keeps-gets f = record { run = λ s h. h }

  pub Keeps-if :
      (c : Bool) (first second : M S E A)
      → Keeps P first
      → Keeps P second
      → Keeps P (if c then first else second)
  Keeps-if false first second k1 k2 = k2
  Keeps-if true first second k1 k2 = k1

  pub Keeps-pure : (a : A) → Keeps P (pure {E = E} a)
  unfolding ◌>>=◌
  Keeps-pure a = record { run = λ s h. h }

module _ {S E : Type 0} {P : S → Type 0} where
  pub Keeps-modify : (f : S → S) → ((s : S) → P s → P (f s)) → Keeps P (modify {E = E} f)
  unfolding ◌>>=◌
  Keeps-modify f h = record { run = h }

  pub Keeps-throw_if : (c : Bool) (e : E) → Keeps P (throw_if c e)
  unfolding ◌>>=◌
  Keeps-throw_if c e = record { run = λ s h. h }

  pub Keeps-panic_if : (c : Bool) → Keeps P (panic_if {E = E} c)
  unfolding ◌>>=◌
  Keeps-panic_if c = record { run = λ s h. h }

module _ {S E F A : Type 0} {P : S → Type 0} where
  pub Keeps-attempt : (m : M S E A) → Keeps P m → Keeps P (attempt {F = F} m)
  unfolding ◌>>=◌
  Keeps-attempt m k = record { run = λ s h. ground (arith, k.run s h) }

module _ {S T E A : Type 0} {P : S → Type 0} where
  pub Keeps-zoom :
      (view : S → T) (update : T → S → S) (m : M T E A)
      → ((s : S) → P s → P (update (m (view s)).1 s))
      → Keeps P (zoom view update m)
  unfolding ◌>>=◌
  Keeps-zoom view update m h = record { run = h }

module _ {S E A B : Type 0} {P : S → Type 0} where
  continue-keeps :
      (x : Result E A × S) (f : A → M S E B)
      → P x.1
      → ((a : A) → Keeps P (f a))
      → P (continue x f).1
  continue-keeps (ok a, s) f h kf = (kf a).run s h
  continue-keeps (err e, s) f h kf = h
  continue-keeps (panic, s) f h kf = h

  pub Keeps-bind :
      (m : M S E A) (f : A → M S E B) → Keeps P m → ((a : A) → Keeps P (f a)) → Keeps P (m >>= f)
  unfolding ◌>>=◌
  Keeps-bind m f km kf = record { run = λ s h. continue-keeps (m s) f (km.run s h) kf }

module _ {S E A B : Type 0} {P : S → Type 0} where
  -- The rest of a bind, after a first part that ended in `x`.
  pub Post-continue :
      (Q : A → S → Type 0) (R : B → S → Type 0) (x : Result E A × S) (f : A → M S E B)
      → Post P Q x
      → ((a : A) (s : S) → P s → Q a s → Post P R (f a s))
      → Post P R (continue x f)
  Post-continue Q R (ok a, s) f h k = k a s h.0 h.1
  Post-continue Q R (err e, s) f h k = h
  Post-continue Q R (panic, s) f h k = tt

  -- The claim `Q` about the first result may be used in the rest.
  pub Post-bind :
      (Q : A → S → Type 0) (R : B → S → Type 0) (m : M S E A) (f : A → M S E B) (s : S)
      → Post P Q (m s)
      → ((a : A) (s : S) → P s → Q a s → Post P R (f a s))
      → Post P R ((m >>= f) s)
  unfolding ◌>>=◌
  Post-bind Q R m f s = Post-continue Q R (m s) f

module _ {S A : Type 0} (E : Type 0) (P : S → Type 0) where
  -- Behind a check of a length, the length is known.
  pub Post-throw_if-shorter :
      (xs : List A) (n : ℕ) (e : E) (s : S)
      → P s
      → Post P (λ _ _. n ≤ length xs) (throw_if (shorter xs n) e s)
  unfolding ◌>>=◌
  Post-throw_if-shorter xs n e s h = ground (arith, not_shorter→le xs n)

  pub Post-panic_if-shorter :
      (xs : List A) (n : ℕ) (s : S)
      → P s
      → Post P (λ _ _. n ≤ length xs) (panic_if {E = E} (shorter xs n) s)
  unfolding ◌>>=◌
  Post-panic_if-shorter xs n s h = ground (arith, not_shorter→le xs n)

  pub Post-index : (xs : List A) (i : ℕ) (s : S) → P s → Post P Any (index {E = E} xs i s)
  unfolding ◌>>=◌
  Post-index xs i s h = ground arith

  pub Post-slice : (xs : List A) (i n : ℕ) (s : S) → P s → Post P Any (slice {E = E} xs i n s)
  unfolding ◌>>=◌
  Post-slice xs i n s h = ground arith

  pub Post-gets :
      (Q : A → S → Type 0) (f : S → A) (s : S) → P s → Q (f s) s → Post P Q (gets {E = E} f s)
  unfolding ◌>>=◌
  Post-gets Q f s h q = (h, q)

module _ {S E A : Type 0} where
  -- The step ends with a result that has `Q`.
  abbrev pub Returns : (A → Type 0) → Result E A × S → Type 0
  Returns Q (ok a, s) = Q a
  Returns Q (err e, s) = ⊥
  Returns Q (panic, s) = ⊥

  pub Returns→ok : (Q : A → Type 0) (x : Result E A × S) → Returns Q x → (a : A) × (x.0 ≡ ok a)
  Returns→ok Q (ok a, s) h = (a, refl)
  Returns→ok Q (err e, s) h = absurd h
  Returns→ok Q (panic, s) h = absurd h

module _ {S E A B : Type 0} where
  Returns-continue :
      (Q : A → Type 0) (R : B → Type 0) (x : Result E A × S) (f : A → M S E B)
      → Returns Q x
      → ((a : A) (s : S) → Q a → Returns R (f a s))
      → Returns R (continue x f)
  Returns-continue Q R (ok a, s) f h k = k a s h
  Returns-continue Q R (err e, s) f h k = absurd h
  Returns-continue Q R (panic, s) f h k = absurd h

  pub Returns-bind :
      (Q : A → Type 0) (R : B → Type 0) (m : M S E A) (f : A → M S E B) (s : S)
      → Returns Q (m s)
      → ((a : A) (s : S) → Q a → Returns R (f a s))
      → Returns R ((m >>= f) s)
  unfolding ◌>>=◌
  Returns-bind Q R m f s = Returns-continue Q R (m s) f

pub ruleset keeps_rules = (
  Keeps-pure, Keeps-throw, Keeps-gets, Keeps-from_option, Keeps-index, Keeps-slice, Keeps-if,
  Keeps-modify, Keeps-throw_if, Keeps-panic_if, Keeps-attempt, Keeps-bind,
)
