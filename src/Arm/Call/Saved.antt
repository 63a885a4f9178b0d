-- ===== src/Arm/Call/Saved.antt =====
-- Several core registers, read or written one behind the other (arm-debug/src/lib.rs, `call_function`).
use rust_dap.Base.{
  ltb, ◌&&◌, ◌<◌, ℕ, ◌≡◌, refl, ap, ◌∙◌, Bool, Bool-cases, true, false, ◌||◌, if◌then◌else◌, ◌==◌,
  ==_iff, inl, inr, List, [], ◌∷◌, map, ok, ◌>>=◌, arith,
}
use mathlib.Core.Path.{fun_ext}
use rust_dap.Transport.{DapTransport}
use rust_dap.Arm.Port.{ArmDebug}
use rust_dap.Arm.Target.{Bus, Target, IsTarget, Holds}
use rust_dap.Arm.Core.Registers.{IsCore, read_core_reg-ok, write_core_reg-ok}
use rust_dap.Arm.Call.{read_regs, write_regs}

abbrev pub is_among : List ℕ → ℕ → Bool
is_among [] j = false
is_among (r ∷ rs) j = r == j || is_among rs j

abbrev pub all_below : ℕ → List ℕ → Bool
all_below n [] = true
all_below n (r ∷ rs) = ltb r n && all_below n rs

both : (r : ℕ) (rs : List ℕ) → all_below 128 (r ∷ rs) ≡ true → (r < 128) × (all_below 128 rs ≡ true)
both r rs h = elim (Bool-cases (ltb r 128)) [
  | inl small ↦ (ground (arith, small), ground (arith, h, small))
  | inr large ↦ absurd (ground (arith, h, large))
]

-- Values of registers, and values of some of them, as far as both lists go.
abbrev pub put_regs : List ℕ → List ℕ → (ℕ → ℕ) → ℕ → ℕ
put_regs [] vs f = f
put_regs (r ∷ rs) [] f = f
put_regs (r ∷ rs) (v ∷ vs) f = put_regs rs vs (λ j. if r == j then v else f j)

put_regs-map :
    (f : ℕ → ℕ) (rs : List ℕ) (g : ℕ → ℕ) (j : ℕ)
    → put_regs rs (map f rs) g j ≡ (if is_among rs j then f j else g j)
put_regs-map f [] g j = refl
put_regs-map f (r ∷ rs) g j =
    ground (arith, put_regs-map f rs (λ i. if r == i then f r else g i) j, (==_iff r j).0, ap f)

module _ {T B : Type 0} ⦃t : DapTransport T⦄ ⦃u : Bus B⦄ (view : T → Target B) (h : IsTarget view t)
    (regs : B → ℕ → ℕ) (halted : B → Bool) (c : IsCore regs halted) where
  pub read_regs-ok :
      (rs : List ℕ) (a : ArmDebug T) (b : B)
      → all_below 128 rs ≡ true
      → halted b ≡ true
      → Holds view a b
      → (a' : ArmDebug T) × (b' : B) × (read_regs rs a ≡ (ok (map (regs b) rs), a'))
        × Holds view a' b'
        × ((j : ℕ) → regs b' j ≡ regs b j)
        × (halted b' ≡ true)
  unfolding read_regs ◌>>=◌
  read_regs-ok [] a b small stopped held = (a, b, refl, held, (λ j. refl), stopped)
  read_regs-ok (r ∷ rs) a b small stopped held =
      let (a1, b1, e1, held1, k1, s1) =
        read_core_reg-ok view h regs halted c r a b (both r rs small).0 stopped held in
      let (a2, b2, e2, held2, k2, s2) = read_regs-ok rs a1 b1 (both r rs small).1 s1 held1 in
      (
        a2,
        b2,
        ground (arith, e1, e2, ap (λ f. map f rs) (fun_ext k1)),
        held2,
        (λ j. k2 j ∙ k1 j),
        s2,
      )

  -- What is written is there, and the other registers are as they were.
  pub write_regs-put :
      (rs vs : List ℕ) (a : ArmDebug T) (b : B)
      → all_below 128 rs ≡ true
      → halted b ≡ true
      → Holds view a b
      → (a' : ArmDebug T) × (b' : B) × (write_regs rs vs a ≡ (ok tt, a'))
        × Holds view a' b'
        × ((j : ℕ) → regs b' j ≡ put_regs rs vs (regs b) j)
        × (halted b' ≡ true)
  unfolding write_regs ◌>>=◌
  write_regs-put [] vs a b small stopped held = (a, b, refl, held, (λ j. refl), stopped)
  write_regs-put (r ∷ rs) [] a b small stopped held = (a, b, refl, held, (λ j. refl), stopped)
  write_regs-put (r ∷ rs) (v ∷ vs) a b small stopped held =
      let (a1, b1, e1, held1, k1, s1) =
        write_core_reg-ok view h regs halted c r v a b (both r rs small).0 stopped held in
      let (a2, b2, e2, held2, k2, s2) = write_regs-put rs vs a1 b1 (both r rs small).1 s1 held1 in
      (
        a2,
        b2,
        ground (arith, e1, e2),
        held2,
        (λ j. k2 j ∙ ap (λ f. put_regs rs vs f j) (fun_ext k1)),
        s2,
      )

  -- Registers that are all written from one function have its values.
  pub write_regs-ok :
      (f : ℕ → ℕ) (rs : List ℕ) (a : ArmDebug T) (b : B)
      → all_below 128 rs ≡ true
      → halted b ≡ true
      → Holds view a b
      → (a' : ArmDebug T) × (b' : B) × (write_regs rs (map f rs) a ≡ (ok tt, a'))
        × Holds view a' b'
        × ((j : ℕ) → regs b' j ≡ (if is_among rs j then f j else regs b j))
        × (halted b' ≡ true)
  write_regs-ok f rs a b small stopped held =
      let (a', b', e, held', k, s) = write_regs-put rs (map f rs) a b small stopped held in
      (a', b', e, held', (λ j. k j ∙ put_regs-map f rs (regs b) j), s)
