-- ===== src/Arm/Units/Breakpoints.antt =====
-- Hardware breakpoints on a target with an FPB unit (arm-debug/src/lib.rs).
pub mod Set
use rust_dap.Base.{
  ℕ, zero, suc, ◌+◌, ◌*◌, ◌%◌, ◌≡◌, ◌≢◌, ◌≤◌, ◌<◌, refl, sym, ap, subst, ◌∙◌, bit_or, Bool,
  Bool-cases, true, false, not, ◌==◌, ==_iff, if◌then◌else◌, Option, none, some, ◌⊎◌, inl, inr, ok,
  ◌>>=◌, arith,
}
use rust_dap.Base.Bits.{low_bit}
use rust_dap.Transport.{DapTransport}
use rust_dap.Arm.Port.{ArmDebug}
use rust_dap.Arm.Target.{Bus, Target, IsTarget, Holds}
use rust_dap.Arm.Memory.{read_word, write_word}
use rust_dap.Arm.Memory.Refines.{read_word-ok, write_word-ok}
use rust_dap.Arm.Units.{
  ctrl_key, ctrl_enable, fp_ctrl, fp_comp0, num_comps, revision, fpb_comp_value, is_free,
  fpb_num_comps, fpb_rev, scan_comps, take_comp, set_comp, or_false, hw_breakpoint_set, find_loop,
  hw_breakpoint_at, clear_loop, hw_breakpoint_clear,
}

-- A value that the code writes into a comparator.
abbrev pub IsCompValue : ℕ → ℕ → Type 0
IsCompValue rev v = (v ≡ 0) ⊎ ((addr : ℕ) × (fpb_comp_value addr rev ≡ some v))

-- An FPB unit with `n` comparators on the bus: FP_CTRL tells the revision and the number, and a
-- comparator keeps what the code writes into it.
pub record IsFpb {B : Type 0} (u : Bus B) (rev n : ℕ) (comp : B → ℕ → ℕ) : Type 0 where
  pub ctrl_load :
      (b : B)
      → (ctrl : ℕ) × (u.load fp_ctrl b ≡ (ctrl, b)) × (revision ctrl ≡ rev) × (num_comps ctrl ≡ n)
  pub ctrl_store : (v i : ℕ) (b : B) → comp (u.store fp_ctrl v b) i ≡ comp b i
  pub comp_load : (i : ℕ) (b : B) → i < n → u.load (fp_comp0 + 4 * i) b ≡ (comp b i, b)
  pub comp_store :
      (i v j : ℕ) (b : B)
      → i < n
      → IsCompValue rev v
      → comp (u.store (fp_comp0 + 4 * i) v b) j ≡ (if i == j then v else comp b j)

module _ {B : Type 0} (n : ℕ) (comp : B → ℕ → ℕ) where
  -- Some comparator from the `i`-th on has the value.
  abbrev pub Has : B → ℕ → ℕ → Type 0
  Has b i v = (j : ℕ) × (i ≤ j) × (j < n) × (comp b j ≡ v)

  abbrev pub Lacks : B → ℕ → ℕ → Type 0
  Lacks b i v = (j : ℕ) → i ≤ j → j < n → comp b j ≢ v

  -- Whether a search from the `i`-th comparator on has found the value.
  abbrev pub Searched : B → ℕ → ℕ → Bool → Type 0
  Searched b i v found = ((found ≡ true) × Has b i v) ⊎ ((found ≡ false) × Lacks b i v)

  pub Searched-more :
      (b : B) (i v : ℕ) (found : Bool)
      → (comp b i == v) ≡ false
      → Searched b (i + 1) v found
      → Searched b i v found
  Searched-more b i v found there (inl (e, (j, p, q, here))) =
      inl (e, (j, omega (arith, p), q, here))
  Searched-more b i v found there (inr (e, lacks)) = inr (
    e,
    λ j p q. elim (Bool-cases (i == j)) [
      | inl same ↦ λ here. ground (arith, ap (comp b) ((==_iff i j).0 same), here, there)
      | inr apart ↦ lacks j (ground (arith, apart)) q
    ],
  )

  -- What the search for a free comparator has found before the `i`-th.
  pub FreeBefore : B → ℕ → Option ℕ → Type 0
  FreeBefore b i none = (j : ℕ) → j < i → low_bit (comp b j) ≡ true
  FreeBefore b i (some k) = (k < n) × (low_bit (comp b k) ≡ false)

  pub FreeBefore-next :
      (b : B) (i : ℕ) (free : Option ℕ)
      → i < n
      → FreeBefore b i free
      → FreeBefore b (i + 1) (if is_free free (comp b i) then some i else free)
  unfolding FreeBefore
  FreeBefore-next b i (some k) small h = h
  FreeBefore-next b i none small h = elim (Bool-cases (low_bit (comp b i))) [
    | inl used ↦ rw used (λ j p. elim (Bool-cases (i == j)) [
      | inl same ↦ subst (λ k. low_bit (comp b k) ≡ true) ((==_iff i j).0 same) used
      | inr apart ↦ h j (ground (arith, apart))
    ])
    | inr open_ ↦ rw open_ (small, open_)
  ]

  pub ScanDone : B → ℕ → ℕ → Bool ⊎ Option ℕ → Type 0
  ScanDone b i v (inl found) = (found ≡ true) × Has b i v
  ScanDone b i v (inr free) = FreeBefore b n free × Lacks b i v

  pub ScanDone-more :
      (b : B) (i v : ℕ) (r : Bool ⊎ Option ℕ)
      → (comp b i == v) ≡ false
      → ScanDone b (i + 1) v r
      → ScanDone b i v r
  unfolding ScanDone
  ScanDone-more b i v (inl found) there (e, (j, p, q, here)) = (e, (j, omega (arith, p), q, here))
  ScanDone-more b i v (inr free) there (e, lacks) = (
    e,
    λ j p q. elim (Bool-cases (i == j)) [
      | inl same ↦ λ here. ground (arith, ap (comp b) ((==_iff i j).0 same), here, there)
      | inr apart ↦ lacks j (ground (arith, apart)) q
    ],
  )

  -- What setting a breakpoint has done: a comparator with the value, which was free or had it, and
  -- no other comparator changed; or nothing, when each is in use for another value.
  pub SetDone : B → B → ℕ → Bool → Type 0
  SetDone b b' v true =
      (i : ℕ) × (i < n)
      × (comp b' i ≡ v)
      × ((comp b i ≡ v) ⊎ (low_bit (comp b i) ≡ false))
      × ((j : ℕ) → j ≢ i → comp b' j ≡ comp b j)
  SetDone b b' v false =
      ((j : ℕ) → j < n → (low_bit (comp b j) ≡ true) × (comp b j ≢ v))
      × ((j : ℕ) → comp b' j ≡ comp b j)

  pub SetDone-none : (b : B) (v : ℕ) → n ≡ 0 → SetDone b b v false
  unfolding SetDone
  SetDone-none b v e = (λ j p. absurd (omega (arith, e)), λ j. refl)

module _ {T B : Type 0} ⦃t : DapTransport T⦄ ⦃u : Bus B⦄ (view : T → Target B) (h : IsTarget view t)
    (rev n : ℕ) (comp : B → ℕ → ℕ) (f : IsFpb u rev n comp) where
  pub comp-ok :
      (i : ℕ) (a : ArmDebug T) (b : B)
      → i < n
      → Holds view a b
      → (a' : ArmDebug T) × (read_word (fp_comp0 + 4 * i) a ≡ (ok (comp b i), a')) × Holds view a' b
  comp-ok i a b small held =
      let (a', e, held') = read_word-ok view h (fp_comp0 + 4 * i) a b (omega arith) held in
      (
        a',
        e ∙ ap (λ (x : ℕ × B). (ok x.0, a')) (f.comp_load i b small),
        subst (λ (x : ℕ × B). Holds view a' x.1) (f.comp_load i b small) held',
      )

  pub find_loop-ok :
      (value left i : ℕ) (a : ArmDebug T) (b : B)
      → i + left ≡ n
      → Holds view a b
      → (a' : ArmDebug T) × (found : Bool) × (find_loop value left i a ≡ (ok found, a'))
        × Holds view a' b
        × Searched n comp b i value found
  unfolding find_loop ◌>>=◌
  find_loop-ok value zero i a b e held =
      (a, false, refl, held, inr (refl, λ j p q. absurd (omega arith)))
  find_loop-ok value (suc left) i a b e held =
      let (a1, e1, held1) = comp-ok i a b (omega (arith, e)) held in
      elim (Bool-cases (comp b i == value)) [
        | inl here ↦ (
          a1,
          true,
          ground (arith, e1, here),
          held1,
          inl (refl, (i, omega arith, omega (arith, e), (==_iff (comp b i) value).0 here)),
        )
        | inr there ↦
            let (a2, found, e2, held2, r) =
              find_loop-ok value left (i + 1) a1 b (omega (arith, e)) held1 in
            (
              a2,
              found,
              ground (arith, e1, e2, there),
              held2,
              Searched-more n comp b i value found there r,
            )
      ]

  pub ctrl-ok :
      (a : ArmDebug T) (b : B)
      → Holds view a b
      → (a' : ArmDebug T) × (ctrl : ℕ) × (read_word fp_ctrl a ≡ (ok ctrl, a'))
        × Holds view a' b
        × (revision ctrl ≡ rev)
        × (num_comps ctrl ≡ n)
  ctrl-ok a b held =
      let (ctrl, e, r, m) = f.ctrl_load b in
      let (a', e', held') = read_word-ok view h fp_ctrl a b refl held in
      (
        a',
        ctrl,
        e' ∙ ap (λ (x : ℕ × B). (ok x.0, a')) e,
        subst (λ (x : ℕ × B). Holds view a' x.1) e held',
        r,
        m,
      )

  -- For an address at which a breakpoint can be, hw_breakpoint_at answers Ok, and true exactly where
  -- a comparator has its value; the bus stays.
  pub hw_breakpoint_at-ok :
      (addr value : ℕ) (a : ArmDebug T) (b : B)
      → fpb_comp_value addr rev ≡ some value
      → Holds view a b
      → (a' : ArmDebug T) × (found : Bool) × (hw_breakpoint_at addr a ≡ (ok found, a'))
        × Holds view a' b
        × Searched n comp b 0 value found
  unfolding hw_breakpoint_at fpb_rev fpb_num_comps ◌>>=◌
  hw_breakpoint_at-ok addr value a b v held =
      let (a1, c1, e1, held1, r1, m1) = ctrl-ok a b held in
      let (a2, c2, e2, held2, r2, m2) = ctrl-ok a1 b held1 in
      let (a3, found, e3, held3, s) = find_loop-ok value n 0 a2 b (omega arith) held2 in
      let v1 = ap (fpb_comp_value addr) r1 ∙ v in
      (a3, found, ground (arith, e1, e2, e3, m2, v1), held3, s)
