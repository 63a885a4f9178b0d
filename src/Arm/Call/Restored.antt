-- ===== src/Arm/Call/Restored.antt =====
-- The core registers behind a call on the target (arm-debug/src/lib.rs, `call_function`).
use rust_dap.Base.{
  ◌<◌, zero, suc, ℕ, ◌≡◌, refl, ◌∙◌, Bool, Bool-cases, true, false, bit_or, if◌then◌else◌, ◌⊎◌, inl,
  inr, List, map, ok, err, ◌>>=◌, arith,
}
use rust_dap.Base.Words.{contains}
use rust_dap.Transport.{DapTransport}
use rust_dap.Arm.Port.{ArmDebug, core_timeout}
use rust_dap.Arm.Target.{Bus, Target, IsTarget, Holds}
use rust_dap.Arm.Memory.{write_word}
use rust_dap.Arm.Memory.Refines.{write_word-ok}
use rust_dap.Arm.Connect.Polls.{load_until}
use rust_dap.Arm.Core.{dhcsr, debug_on, wait_status_n, c_halt, c_maskints, s_halt}
use rust_dap.Arm.Core.Registers.{IsCore, is_halting, wait_status_n-ok, read_core_reg-ok}
use rust_dap.Arm.Call.{
  core_sp, core_lr, core_pc, core_xpsr, clobbered, settle, run_masked, call_function,
}
use rust_dap.Arm.Call.Setup.{started, set_up-ok}
use rust_dap.Arm.Call.Saved.{is_among, write_regs-ok}

-- Functions that agree on the registers of a call have the same values there.
map-clobbered :
    (f g rest : ℕ → ℕ)
    → ((j : ℕ) → f j ≡ (if is_among clobbered j then g j else rest j))
    → map f clobbered ≡ map g clobbered
map-clobbered f g rest k = cc (k 0, k 1, k 2, k 3, k core_sp, k core_lr, k core_pc, k core_xpsr)

module _ {B : Type 0} ⦃u : Bus B⦄ where
  -- The core is let go, with interrupts masked, and DHCSR is loaded at most `polls` times, up to the
  -- first time that it says that the core is halted: whether it did, and the bus.
  abbrev pub released : ℕ → B → Bool × B
  released polls b =
      load_until polls dhcsr (λ v. contains v s_halt)
        (u.store dhcsr (bit_or debug_on c_maskints)
          (u.store dhcsr (bit_or (bit_or debug_on c_maskints) c_halt) b))

  abbrev pub halted_again : B → B
  halted_again b =
      u.store dhcsr (bit_or debug_on c_halt)
        (u.store dhcsr (bit_or (bit_or debug_on c_maskints) c_halt) b)

masked_halts : is_halting (bit_or (bit_or debug_on c_maskints) c_halt) ≡ true
masked_halts = refl

module _ {T B : Type 0} ⦃t : DapTransport T⦄ ⦃u : Bus B⦄ (view : T → Target B) (h : IsTarget view t)
    (regs : B → ℕ → ℕ) (halted : B → Bool) (c : IsCore regs halted) where
  -- What the five steps of run_masked make together.
  run_masked-came :
      (polls : ℕ) (a a1 a2 a3 a4 a5 : ArmDebug T) (came : Bool)
      → write_word dhcsr (bit_or (bit_or debug_on c_maskints) c_halt) a ≡ (ok tt, a1)
      → write_word dhcsr (bit_or debug_on c_maskints) a1 ≡ (ok tt, a2)
      → wait_status_n s_halt polls a2 ≡ ((if came then ok tt else err core_timeout), a3)
      → write_word dhcsr (bit_or (bit_or debug_on c_maskints) c_halt) a3 ≡ (ok tt, a4)
      → write_word dhcsr (bit_or debug_on c_halt) a4 ≡ (ok tt, a5)
      → run_masked polls a ≡ (ok (if came then inr tt else inl core_timeout), a5)
  unfolding run_masked ◌>>=◌
  run_masked-came polls a a1 a2 a3 a4 a5 true e1 e2 e3 e4 e5 = ground (arith, e1, e2, e3, e4, e5)
  run_masked-came polls a a1 a2 a3 a4 a5 false e1 e2 e3 e4 e5 = ground (arith, e1, e2, e3, e4, e5)

  -- The core halts in time, or the wait is a timeout; both ways it is halted again.
  run_masked-ok :
      (polls : ℕ) (a : ArmDebug T) (b : B)
      → Holds view a b
      → (a' : ArmDebug T) × (run_masked polls a
          ≡ (ok (if (released polls b).0 then inr tt else inl core_timeout), a'))
        × Holds view a' (halted_again (released polls b).1)
  run_masked-ok polls a b held =
      let masked = bit_or debug_on c_maskints in
      let b1 = u.store dhcsr (bit_or masked c_halt) b in
      let b2 = u.store dhcsr masked b1 in
      let (a1, e1, held1) = write_word-ok view h dhcsr (bit_or masked c_halt) a b refl held in
      let (a2, e2, held2) = write_word-ok view h dhcsr masked a1 b1 refl held1 in
      let (a3, e3, held3) = wait_status_n-ok view h s_halt polls a2 b2 held2 in
      let w = released polls b in
      let b4 = u.store dhcsr (bit_or masked c_halt) w.1 in
      let (a4, e4, held4) = write_word-ok view h dhcsr (bit_or masked c_halt) a3 w.1 refl held3 in
      let (a5, e5, held5) = write_word-ok view h dhcsr (bit_or debug_on c_halt) a4 b4 refl held4 in
      (a5, run_masked-came polls a a1 a2 a3 a4 a5 w.0 e1 e2 e3 e4 e5, held5)

  load_until-halted :
      (n : ℕ) (b : B)
      → (load_until n dhcsr (λ v. contains v s_halt) b).0 ≡ true
      → halted (load_until n dhcsr (λ v. contains v s_halt) b).1 ≡ true
  unfolding load_until
  load_until-halted zero b e = cc
  load_until-halted (suc n) b e = elim (Bool-cases (contains (u.load dhcsr b).0 s_halt)) [
    | inl came ↦ ground (arith, came, c.status_halted b came)
    | inr more ↦ ground (arith, e, more, load_until-halted n (u.load dhcsr b).1)
  ]

  halted_again-keeps :
      (b : B)
      → halted b ≡ true
      → (halted (halted_again b) ≡ true) × ((j : ℕ) → regs (halted_again b) j ≡ regs b j)
  halted_again-keeps b stopped =
      let v = bit_or (bit_or debug_on c_maskints) c_halt in
      let v' = bit_or debug_on c_halt in
      let b1 = u.store dhcsr v b in
      let s1 = c.halt_halted v b masked_halts stopped in
      (
        c.halt_halted v' b1 refl s1,
        λ j. c.halt_keeps v' j b1 refl s1 ∙ c.halt_keeps v j b masked_halts stopped,
      )

  -- On a halted core, and with a trampoline below the system's own addresses, call_function starts the
  -- function with its arguments, its stack, the trampoline as its return address and the Thumb state,
  -- and lets the core go. Where DHCSR says within the polls that the core is halted, the answer is Ok
  -- with the value that R0 has then, and each register that was saved has the value from before the
  -- call, on a core that is halted. Where it does not, the answer is a timeout, behind two
  -- requests to halt. Either way the caches stay in order.
  pub call_function-ok :
      (fn_addr : ℕ) (args : List ℕ) (sp trampoline polls : ℕ) (a : ArmDebug T) (b : B)
      → trampoline < 0xe000_0000
      → halted b ≡ true
      → Holds view a b
      → (a' : ArmDebug T) × (b0 : B) × (b' : B) × Holds view a' b'
        × (halted b0 ≡ true)
        × ((j : ℕ) → regs b0 j ≡ started fn_addr args sp trampoline (regs b) j)
        × (let (came, b1) = released polls b0 in
            ((came ≡ true)
              × (call_function fn_addr args sp trampoline polls a ≡ (ok (regs b1 0), a'))
              × (map (regs b') clobbered ≡ map (regs b) clobbered)
              × (halted b' ≡ true))
            ⊎ ((came ≡ false)
                × (call_function fn_addr args sp trampoline polls a ≡ (err core_timeout, a'))
                × (b' ≡ halted_again b1)))
  unfolding settle ◌>>=◌
  call_function-ok fn_addr args sp trampoline polls a b low stopped held =
      let (a1, b0, e1, held1, k1, s1) =
        set_up-ok view h regs halted c fn_addr args sp trampoline polls a b low stopped held in
      let (a2, e2, held2) = run_masked-ok polls a1 b0 held1 in
      let w = released polls b0 in
      elim (Bool-cases w.0) [
        | inl came ↦
            let (s2, k2) = halted_again-keeps w.1 (load_until-halted polls _ came) in
            let (a3, b3, e3, held3, k3, s3) =
              read_core_reg-ok view h regs halted c 0 a2 (halted_again w.1) (omega arith) s2
                held2 in
            let (a4, b4, e4, held4, k4, s4) =
              write_regs-ok view h regs halted c (regs b) clobbered a3 b3 refl s3 held3 in
            (
              a4,
              b0,
              b4,
              held4,
              s1,
              k1,
              inl (
                came,
                ground (arith, e1, e2, came, e3, e4, k2 0),
                map-clobbered (regs b4) (regs b) (regs b3) k4,
                s4,
              ),
            )
        | inr late ↦ (
          a2,
          b0,
          halted_again w.1,
          held2,
          s1,
          k1,
          inr (late, ground (arith, e1, e2, late), refl),
        )
      ]
