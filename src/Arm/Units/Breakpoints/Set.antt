-- ===== src/Arm/Units/Breakpoints/Set.antt =====
-- Setting a hardware breakpoint (arm-debug/src/lib.rs).
use rust_dap.Base.{
  ℕ, zero, suc, ◌+◌, ◌*◌, ◌≡◌, refl, sym, ap, subst, ◌∙◌, bit_or, Bool, Bool-cases, true, false,
  ◌==◌, ==_iff, if◌then◌else◌, Option, none, some, ◌⊎◌, inl, inr, ok, ◌>>=◌, arith,
}
use rust_dap.Base.Bits.{low_bit}
use rust_dap.Transport.{DapTransport}
use rust_dap.Arm.Port.{ArmDebug}
use rust_dap.Arm.Target.{Bus, Target, IsTarget, Holds}
use rust_dap.Arm.Memory.Refines.{write_word-ok}
use rust_dap.Arm.Units.{
  ctrl_key, ctrl_enable, fp_ctrl, fp_comp0, num_comps, fpb_comp_value, is_free, scan_comps,
  take_comp, set_comp, hw_breakpoint_set, hw_breakpoint_at,
}
use rust_dap.Arm.Units.Breakpoints.{
  IsCompValue, IsFpb, FreeBefore, FreeBefore-next, ScanDone, ScanDone-more, SetDone, SetDone-none,
  comp-ok, ctrl-ok, hw_breakpoint_at-ok,
}

module _ {T B : Type 0} ⦃t : DapTransport T⦄ ⦃u : Bus B⦄ (view : T → Target B) (h : IsTarget view t)
    (rev n : ℕ) (comp : B → ℕ → ℕ) (f : IsFpb u rev n comp) where
  scan_comps-ok :
      (value left i : ℕ) (free : Option ℕ) (a : ArmDebug T) (b : B)
      → i + left ≡ n
      → FreeBefore n comp b i free
      → Holds view a b
      → (a' : ArmDebug T) × (r : Bool ⊎ Option ℕ) × (scan_comps value left i free a ≡ (ok r, a'))
        × Holds view a' b
        × ScanDone n comp b i value r
  unfolding scan_comps ScanDone ◌>>=◌
  scan_comps-ok value zero i free a b e before held = (
    a,
    inr free,
    refl,
    held,
    (
      subst (λ k. FreeBefore n comp b k free) (omega (arith, e)) before,
      λ j p q. absurd (omega arith),
    ),
  )
  scan_comps-ok value (suc left) i free a b e before held =
      let (a1, e1, held1) = comp-ok view h rev n comp f i a b (omega (arith, e)) held in
      elim (Bool-cases (comp b i == value)) [
        | inl here ↦ (
          a1,
          inl true,
          ground (arith, e1, here),
          held1,
          (refl, (i, omega arith, omega (arith, e), (==_iff (comp b i) value).0 here)),
        )
        | inr there ↦
            let free' = if is_free free (comp b i) then some i else free in
            let (a2, r, e2, held2, s) =
              scan_comps-ok value left (i + 1) free' a1 b (omega (arith, e))
                (FreeBefore-next n comp b i free (omega (arith, e)) before) held1 in
            (a2, r, ground (arith, e1, e2, there), held2, ScanDone-more n comp b i value r there s)
      ]

  take_comp-ok :
      (value : ℕ) (r : Bool ⊎ Option ℕ) (a : ArmDebug T) (b b1 : B)
      → IsCompValue rev value
      → ((j : ℕ) → comp b1 j ≡ comp b j)
      → ScanDone n comp b1 0 value r
      → Holds view a b1
      → (a' : ArmDebug T) × (b' : B) × (done : Bool) × (take_comp value r a ≡ (ok done, a'))
        × Holds view a' b'
        × SetDone n comp b b' value done
  unfolding take_comp ScanDone FreeBefore SetDone ◌>>=◌
  take_comp-ok value (inl true) a b b1 v same (e, (j, p, q, here)) held =
      (a, b1, true, refl, held, (j, q, here, inl (sym (same j) ∙ here), λ k apart. same k))
  take_comp-ok value (inl false) a b b1 v same (e, has) held = cc
  take_comp-ok value (inr none) a b b1 v same (used, lacks) held = (
    a,
    b1,
    false,
    refl,
    held,
    (
      λ j p. (
        subst (λ x. low_bit x ≡ true) (same j) (used j p),
        λ here. lacks j (omega arith) p (same j ∙ here),
      ),
      same,
    ),
  )
  take_comp-ok value (inr (some i)) a b b1 v same ((small, open_), lacks) held =
      let (a', e, held') = write_word-ok view h (fp_comp0 + 4 * i) value a b1 (omega arith) held in
      (
        a',
        u.store (fp_comp0 + 4 * i) value b1,
        true,
        ground (arith, e),
        held',
        (
          i,
          small,
          ground (arith, f.comp_store i value i b1 small v),
          inr (subst (λ x. low_bit x ≡ false) (same i) open_),
          λ j apart. ground (arith, f.comp_store i value j b1 small v, apart, same j),
        ),
      )

  set_comp-ok :
      (ctrl value : ℕ) (a : ArmDebug T) (b : B)
      → num_comps ctrl ≡ n
      → IsCompValue rev value
      → Holds view a b
      → (a' : ArmDebug T) × (b' : B) × (done : Bool) × (set_comp ctrl value a ≡ (ok done, a'))
        × Holds view a' b'
        × SetDone n comp b b' value done
  unfolding set_comp FreeBefore ◌>>=◌
  set_comp-ok ctrl value a b e v held = elim (Bool-cases (num_comps ctrl == 0)) [
    | inl no_comps ↦ (
      a,
      b,
      false,
      ground (arith, no_comps),
      held,
      SetDone-none n comp b value (ground (arith, e, no_comps)),
    )
    | inr comps ↦
        let word = bit_or (bit_or ctrl ctrl_key) ctrl_enable in
        let (a1, e1, held1) = write_word-ok view h fp_ctrl word a b refl held in
        let b1 = u.store fp_ctrl word b in
        let (a2, r, e2, held2, s) =
          scan_comps-ok value n 0 none a1 b1 (omega arith) (λ j p. absurd (omega arith)) held1 in
        let (a3, b3, done, e3, held3, d) =
          take_comp-ok value r a2 b b1 v (λ j. f.ctrl_store word j b) s held2 in
        (a3, b3, done, ground (arith, comps, e, e1, e2, e3), held3, d)
  ]

  -- For an address at which a breakpoint can be, hw_breakpoint_set answers Ok. It answers true when
  -- a comparator holds the value of the address, one that was free or held it already, and then no
  -- other comparator has changed; it answers false only when every comparator is in use for another
  -- value, and then none has changed.
  pub hw_breakpoint_set-ok :
      (addr value : ℕ) (a : ArmDebug T) (b : B)
      → fpb_comp_value addr rev ≡ some value
      → Holds view a b
      → (a' : ArmDebug T) × (b' : B) × (done : Bool) × (hw_breakpoint_set addr a ≡ (ok done, a'))
        × Holds view a' b'
        × SetDone n comp b b' value done
  unfolding hw_breakpoint_set ◌>>=◌
  hw_breakpoint_set-ok addr value a b v held =
      let (a1, ctrl, e1, held1, r, m) = ctrl-ok view h rev n comp f a b held in
      let (a2, b2, done, e2, held2, d) = set_comp-ok ctrl value a1 b m (inr (addr, v)) held1 in
      (a2, b2, done, ground (arith, e1, e2, ap (fpb_comp_value addr) r ∙ v), held2, d)

  SetDone-at :
      (addr value : ℕ) (done : Bool) (a : ArmDebug T) (b0 b : B)
      → fpb_comp_value addr rev ≡ some value
      → Holds view a b
      → SetDone n comp b0 b value done
      → done ≡ true
      → (a2 : ArmDebug T) × (hw_breakpoint_at addr a ≡ (ok true, a2))
  unfolding SetDone
  SetDone-at addr value false a b0 b v held d e = cc
  SetDone-at addr value true a b0 b v held (i, small, here, from, others) e =
      let (a2, found, e2, held2, s) =
        hw_breakpoint_at-ok view h rev n comp f addr value a b v held in
      elim s [
        | inl (yes_found, has) ↦ (a2, e2 ∙ ap (λ r. (ok r, a2)) yes_found)
        | inr (not_found, lacks) ↦ absurd (lacks i (omega arith) small here)
      ]

  -- A breakpoint that hw_breakpoint_set has set is found by hw_breakpoint_at.
  pub hw_breakpoint_at-set :
      (addr value : ℕ) (a a' : ArmDebug T) (b : B)
      → fpb_comp_value addr rev ≡ some value
      → Holds view a b
      → hw_breakpoint_set addr a ≡ (ok true, a')
      → (a2 : ArmDebug T) × (hw_breakpoint_at addr a' ≡ (ok true, a2))
  hw_breakpoint_at-set addr value a a' b v held e =
      let (a1, b1, done, e1, held1, d) = hw_breakpoint_set-ok addr value a b v held in
      let same = sym e1 ∙ e in
      subst (λ x. (a2 : ArmDebug T) × (hw_breakpoint_at addr x ≡ (ok true, a2)))
        (ap (λ x. x.1) same) (SetDone-at addr value done a1 b b1 v held1 d (cc same))
