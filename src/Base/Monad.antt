-- ===== src/Base/Monad.antt =====
-- Rust code that mutates, fails and panics: a state goes in, and comes back with the result, also
-- after an error, since what was written stays written.
use Prim.Native.Nat.{ℕ}
use mathlib.Core.Path.{◌≡◌, refl}
use mathlib.Core.Bool.{Bool}
use mathlib.Core.Logic.{◌⊎◌, inl, inr}
use mathlib.Core.Option.{Option, none, some}
use mathlib.Core.List.{List}
use rust_dap.Base.Tests.{if◌then◌else◌}
use rust_dap.Base.Lists.{get_elem?, shorter, take, drop}

-- `Result<A, E>`, with the panic of an index or slice out of range as a third outcome.
pub data Result (E A : Type 0) : Type 0 where
  ok : A → Result E A
  err : E → Result E A
  panic : Result E A

abbrev pub M : Type 0 → Type 0 → Type 0 → Type 0
M S E A = S → Result E A × S

module _ {S E A : Type 0} where
  unfoldable pub pure : A → M S E A
  pure a s = (ok a, s)

  unfoldable pub throw : E → M S E A
  throw e s = (err e, s)

  unfoldable pub panicking : M S E A
  panicking s = (panic, s)

  unfoldable pub gets : (S → A) → M S E A
  gets f s = (ok (f s), s)

  -- `option.ok_or(e)?`
  unfoldable pub from_option : E → Option A → M S E A
  from_option e none s = (err e, s)
  from_option e (some a) s = (ok a, s)

  -- `xs[i]`
  unfoldable pub index : List A → ℕ → M S E A
  index xs i s = elim (get_elem? xs i) [ none ↦ (panic, s) | some a ↦ (ok a, s) ]

  -- `&xs[i..i + n]`
  unfoldable pub slice : List A → ℕ → ℕ → M S E (List A)
  slice xs i n s =
      let rest = drop i xs in if shorter rest n then (panic, s) else (ok (take n rest), s)

unfoldable pub modify : {S E : Type 0} → (S → S) → M S E (Unit {0})
modify f s = (ok tt, f s)

-- An early `return Err(e)` under a test.
unfoldable pub throw_if : {S E : Type 0} → Bool → E → M S E (Unit {0})
throw_if c e s = (if c then err e else ok tt, s)

unfoldable pub panic_if : {S E : Type 0} → Bool → M S E (Unit {0})
panic_if c s = (if c then panic else ok tt, s)

-- The `Result` of a step as a value, for a `match` on it: `inr` is `Ok`.
unfoldable pub attempt : {S E F A : Type 0} → M S E A → M S F (E ⊎ A)
attempt m s =
    let (r, s') = m s in
    elim r [ ok a ↦ (ok (inr a), s') | err e ↦ (ok (inl e), s') | panic ↦ (panic, s') ]

-- A step on a part of the state.
unfoldable pub zoom : {S T E A : Type 0} → (S → T) → (T → S → S) → M T E A → M S E A
zoom view update m s = let (r, t) = m (view s) in (r, update t s)

abbrev pub continue : {S E A B : Type 0} → Result E A × S → (A → M S E B) → Result E B × S
continue (ok a, s) f = f a s
continue (err e, s) f = (err e, s)
continue (panic, s) f = (panic, s)

-- To open this is to open the steps above.
infixl 5 ◌>>=◌ ◌>>◌
unfoldable pub ◌>>=◌ : {S E A B : Type 0} → M S E A → (A → M S E B) → M S E B
unfolding pure throw panicking gets from_option index slice modify throw_if panic_if attempt zoom
◌>>=◌ m f s = continue (m s) f

abbrev pub ◌>>◌ : {S E A B : Type 0} → M S E A → M S E B → M S E B
m >> k = m >>= λ _. k

pub Result-cases :
    {E A : Type 0} (r : Result E A) → ((a : A) × (r ≡ ok a)) ⊎ ((e : E) × (r ≡ err e)) ⊎ (r ≡ panic)
Result-cases (ok a) = inl (a, refl)
Result-cases (err e) = inr (inl (e, refl))
Result-cases panic = inr (inr refl)
