-- ===== src/Arm/Call/Setup.antt =====
-- The registers when a call on the target starts (arm-debug/src/lib.rs, `call_function`).
use rust_dap.Base.{
  M, pure, ◌>>◌, ◌<◌, ℕ, ◌-◌, ◌%◌, ◌≡◌, refl, ap, ◌∙◌, Bool, true, bit_or, if◌then◌else◌, ◌==◌,
  List, [], ◌∷◌, map, ◌>>=◌, arith,
}
use mathlib.Core.Path.{fun_ext}
use rust_dap.Transport.{DapTransport}
use rust_dap.Arm.Port.{ArmDebug, ArmError}
use rust_dap.Arm.Target.{Bus, Target, IsTarget, Holds}
use rust_dap.Arm.Memory.Refines.{write_word-ok}
use rust_dap.Arm.Core.{read_core_reg, write_core_reg}
use rust_dap.Arm.Core.Registers.{IsCore, write_core_reg-ok}
use rust_dap.Arm.Call.{
  core_sp, core_lr, core_pc, core_xpsr, clobbered, write_regs, settle, run_masked, call_function,
}
use rust_dap.Arm.Call.Saved.{put_regs, read_regs-ok, write_regs-put}

-- The registers when the function starts: its arguments, as many as there are up to four, the stack
-- and the return address with the Thumb bit, the function, and the Thumb state.
abbrev pub started : ℕ → List ℕ → ℕ → ℕ → (ℕ → ℕ) → ℕ → ℕ
started fn_addr args sp trampoline before =
    put_regs (core_sp ∷ core_lr ∷ core_pc ∷ core_xpsr ∷ [])
      (sp ∷ bit_or trampoline 1 ∷ fn_addr ∷ 0x0100_0000 ∷ [])
      (put_regs (0 ∷ 1 ∷ 2 ∷ 3 ∷ []) args before)

module _ {T B : Type 0} ⦃t : DapTransport T⦄ ⦃u : Bus B⦄ (view : T → Target B) (h : IsTarget view t)
    (regs : B → ℕ → ℕ) (halted : B → Bool) (c : IsCore regs halted) where
  -- The call behind the writes of the registers that are no arguments.
  abbrev pub run_saved : ℕ → (ℕ → ℕ) → M (ArmDebug T) ArmError ℕ
  run_saved polls before = do
    waited ← run_masked polls
    settle waited
    result ← read_core_reg 0
    write_regs clobbered (map before clobbered)
    pure result

  abbrev run_from : ℕ → ℕ → ℕ → ℕ → (ℕ → ℕ) → M (ArmDebug T) ArmError ℕ
  run_from fn_addr sp trampoline polls before = do
    write_core_reg core_sp sp
    write_core_reg core_lr (bit_or trampoline 1)
    write_core_reg core_pc fn_addr
    write_core_reg core_xpsr 0x0100_0000
    run_saved polls before

  store-keeps :
      (addr v : ℕ) (b : B) → addr < 0xe000_0000 → halted b ≡ true → regs (u.store addr v b) ≡ regs b
  store-keeps addr v b low stopped = fun_ext (λ j. c.store_keeps addr v j b low stopped)

  arguments-ok :
      (fn_addr : ℕ) (args : List ℕ) (sp trampoline polls : ℕ) (a : ArmDebug T) (b : B)
      → trampoline < 0xe000_0000
      → halted b ≡ true
      → Holds view a b
      → (a' : ArmDebug T) × (b' : B) × (call_function fn_addr args sp trampoline polls a
          ≡ run_from fn_addr sp trampoline polls (regs b) a')
        × Holds view a' b'
        × ((j : ℕ) → regs b' j ≡ put_regs (0 ∷ 1 ∷ 2 ∷ 3 ∷ []) args (regs b) j)
        × (halted b' ≡ true)
  unfolding call_function ◌>>=◌
  arguments-ok fn_addr args sp trampoline polls a b low stopped held =
      let (a1, b1, e1, held1, k1, s1) =
        read_regs-ok view h regs halted c clobbered a b refl stopped held in
      let code = trampoline - trampoline % 4 in
      let below : code < 0xe000_0000 = omega (arith, low) in
      let (a2, e2, held2) = write_word-ok view h code 0xbe00_be00 a1 b1 (omega arith) held1 in
      let b2 = u.store code 0xbe00_be00 b1 in
      let same : regs b2 ≡ regs b = store-keeps code 0xbe00_be00 b1 below s1 ∙ fun_ext k1 in
      let (a3, b3, e3, held3, k3, s3) =
        write_regs-put view h regs halted c (0 ∷ 1 ∷ 2 ∷ 3 ∷ []) args a2 b2 refl
          (c.store_halted code 0xbe00_be00 b1 below s1) held2 in
      (
        a3,
        b3,
        ground (arith, e1, e2, e3),
        held3,
        (λ j. k3 j ∙ ap (λ f. put_regs (0 ∷ 1 ∷ 2 ∷ 3 ∷ []) args f j) same),
        s3,
      )

  last_four :
      (v1 v2 v3 v4 j : ℕ) (f f1 f2 f3 f4 : ℕ → ℕ)
      → f1 j ≡ (if core_sp == j then v1 else f j)
      → f2 j ≡ (if core_lr == j then v2 else f1 j)
      → f3 j ≡ (if core_pc == j then v3 else f2 j)
      → f4 j ≡ (if core_xpsr == j then v4 else f3 j)
      → f4 j ≡ put_regs (core_sp ∷ core_lr ∷ core_pc ∷ core_xpsr ∷ []) (v1 ∷ v2 ∷ v3 ∷ v4 ∷ []) f j
  last_four v1 v2 v3 v4 j f f1 f2 f3 f4 k1 k2 k3 k4 = cc

  run_from-ok :
      (fn_addr sp trampoline polls : ℕ) (before : ℕ → ℕ) (a : ArmDebug T) (b : B)
      → halted b ≡ true
      → Holds view a b
      → (a' : ArmDebug T) × (b' : B) × (run_from fn_addr sp trampoline polls before a
          ≡ run_saved polls before a')
        × Holds view a' b'
        × ((j : ℕ)
            → regs b' j
              ≡ put_regs
                  (core_sp ∷ core_lr ∷ core_pc ∷ core_xpsr ∷ [])
                  (sp ∷ bit_or trampoline 1 ∷ fn_addr ∷ 0x0100_0000 ∷ [])
                  (regs b)
                  j)
        × (halted b' ≡ true)
  unfolding ◌>>=◌
  run_from-ok fn_addr sp trampoline polls before a b stopped held =
      let lr = bit_or trampoline 1 in
      let (a1, b1, e1, held1, k1, s1) =
        write_core_reg-ok view h regs halted c core_sp sp a b (omega arith) stopped held in
      let (a2, b2, e2, held2, k2, s2) =
        write_core_reg-ok view h regs halted c core_lr lr a1 b1 (omega arith) s1 held1 in
      let (a3, b3, e3, held3, k3, s3) =
        write_core_reg-ok view h regs halted c core_pc fn_addr a2 b2 (omega arith) s2 held2 in
      let (a4, b4, e4, held4, k4, s4) =
        write_core_reg-ok view h regs halted c core_xpsr 0x0100_0000 a3 b3 (omega arith) s3 held3 in
      (
        a4,
        b4,
        ground (arith, e1, e2, e3, e4),
        held4,
        (λ j.
            last_four sp lr fn_addr 0x0100_0000 j (regs b) (regs b1) (regs b2) (regs b3) (regs b4)
              (k1 j) (k2 j) (k3 j) (k4 j)),
        s4,
      )

  -- The call behind its prologue, which starts with the registers saved.
  pub set_up-ok :
      (fn_addr : ℕ) (args : List ℕ) (sp trampoline polls : ℕ) (a : ArmDebug T) (b : B)
      → trampoline < 0xe000_0000
      → halted b ≡ true
      → Holds view a b
      → (a' : ArmDebug T) × (b' : B) × (call_function fn_addr args sp trampoline polls a
          ≡ run_saved polls (regs b) a')
        × Holds view a' b'
        × ((j : ℕ) → regs b' j ≡ started fn_addr args sp trampoline (regs b) j)
        × (halted b' ≡ true)
  set_up-ok fn_addr args sp trampoline polls a b low stopped held =
      let (a1, b1, e1, held1, k1, s1) =
        arguments-ok fn_addr args sp trampoline polls a b low stopped held in
      let (a2, b2, e2, held2, k2, s2) =
        run_from-ok fn_addr sp trampoline polls (regs b) a1 b1 s1 held1 in
      let registers =
        put_regs (core_sp ∷ core_lr ∷ core_pc ∷ core_xpsr ∷ [])
          (sp ∷ bit_or trampoline 1 ∷ fn_addr ∷ 0x0100_0000 ∷ []) in
      (a2, b2, e1 ∙ e2, held2, (λ j. k2 j ∙ ap (λ f. registers f j) (fun_ext k1)), s2)
