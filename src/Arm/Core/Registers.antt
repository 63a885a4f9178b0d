-- ===== src/Arm/Core/Registers.antt =====
-- Core registers of a halted core (arm-debug/src/lib.rs).
use rust_dap.Base.{
  ℕ, ◌≡◌, ◌<◌, refl, Bool, true, bit_or, if◌then◌else◌, ◌==◌, ok, err, ◌>>=◌, arith,
}
use rust_dap.Base.Words.{contains}
use rust_dap.Transport.{DapTransport}
use rust_dap.Arm.Port.{ArmDebug, core_timeout}
use rust_dap.Arm.Target.{Bus, Target, IsTarget, Holds}
use rust_dap.Arm.Memory.Refines.{read_word-ok, write_word-ok}
use rust_dap.Arm.Connect.Polls.{load_until, poll_or-ok}
use rust_dap.Arm.Core.{
  dhcsr, debug_on, c_halt, s_halt, dcrsr, dcrdr, dcrsr_regwnr, s_regrdy, wait_status_n, wait_status,
  read_core_reg, write_core_reg,
}

-- The loads of `wait_status(S_REGRDY)`.
abbrev pub until_ready : {B : Type 0} ⦃u : Bus B⦄ → B → Bool × B
until_ready b = load_until 4096 dhcsr (λ v. contains v s_regrdy) b

-- A value of DHCSR that halts the core.
abbrev pub is_halting : ℕ → Bool
is_halting v = contains v (bit_or debug_on c_halt)

-- A core on the bus, with what the architecture says of it while it is halted. A write of DCRSR, whose
-- register number has seven bits, starts a transfer, which ends within the polls: a read brings the
-- register to DCRDR, and a write takes the value of DCRDR to the register and leaves the others
-- alone. Neither this, nor a write of DHCSR that halts, nor one below the system's own addresses
-- makes the core run. When DHCSR says that the core is halted, it is.
pub record IsCore {B : Type 0} ⦃u : Bus B⦄ (regs : B → ℕ → ℕ) (halted : B → Bool) : Type 0 where
  pub ready_read :
      (r : ℕ) (b : B) → r < 128 → halted b ≡ true → (until_ready (u.store dcrsr r b)).0 ≡ true
  pub core_read :
      (r : ℕ) (b : B)
      → r < 128
      → halted b ≡ true
      → (u.load dcrdr (until_ready (u.store dcrsr r b)).1).0 ≡ regs b r
  pub read_keeps :
      (r j : ℕ) (b : B)
      → r < 128
      → halted b ≡ true
      → regs (u.load dcrdr (until_ready (u.store dcrsr r b)).1).1 j ≡ regs b j
  pub read_halted :
      (r : ℕ) (b : B)
      → r < 128
      → halted b ≡ true
      → halted (u.load dcrdr (until_ready (u.store dcrsr r b)).1).1 ≡ true
  pub ready_write :
      (r v : ℕ) (b : B)
      → r < 128
      → halted b ≡ true
      → (until_ready (u.store dcrsr (bit_or r dcrsr_regwnr) (u.store dcrdr v b))).0 ≡ true
  pub core_write :
      (r v j : ℕ) (b : B)
      → r < 128
      → halted b ≡ true
      → regs (until_ready (u.store dcrsr (bit_or r dcrsr_regwnr) (u.store dcrdr v b))).1 j
        ≡ (if r == j then v else regs b j)
  pub write_halted :
      (r v : ℕ) (b : B)
      → r < 128
      → halted b ≡ true
      → halted (until_ready (u.store dcrsr (bit_or r dcrsr_regwnr) (u.store dcrdr v b))).1 ≡ true
  pub halt_keeps :
      (v j : ℕ) (b : B)
      → is_halting v ≡ true
      → halted b ≡ true
      → regs (u.store dhcsr v b) j ≡ regs b j
  pub halt_halted :
      (v : ℕ) (b : B) → is_halting v ≡ true → halted b ≡ true → halted (u.store dhcsr v b) ≡ true
  pub store_keeps :
      (addr v j : ℕ) (b : B)
      → addr < 0xe000_0000
      → halted b ≡ true
      → regs (u.store addr v b) j ≡ regs b j
  pub store_halted :
      (addr v : ℕ) (b : B) → addr < 0xe000_0000 → halted b ≡ true → halted (u.store addr v b) ≡ true
  pub status_halted :
      (b : B) → contains (u.load dhcsr b).0 s_halt ≡ true → halted (u.load dhcsr b).1 ≡ true

module _ {T B : Type 0} ⦃t : DapTransport T⦄ ⦃u : Bus B⦄ (view : T → Target B)
    (h : IsTarget view t) where
  pub wait_status_n-ok :
      (mask polls : ℕ) (a : ArmDebug T) (b : B)
      → Holds view a b
      → (a' : ArmDebug T) × (wait_status_n mask polls a ≡ (
        if (load_until polls dhcsr (λ v. contains v mask) b).0 then ok tt else err core_timeout,
        a',
      ))
        × Holds view a' (load_until polls dhcsr (λ v. contains v mask) b).1
  unfolding wait_status_n
  wait_status_n-ok mask polls a b held =
      poll_or-ok view h dhcsr refl (λ v. contains v mask) core_timeout polls a b held

  module _ (regs : B → ℕ → ℕ) (halted : B → Bool) (c : IsCore regs halted) where
    ready-ok :
        (a : ArmDebug T) (b : B)
        → (until_ready b).0 ≡ true
        → Holds view a b
        → (a' : ArmDebug T) × (wait_status s_regrdy a ≡ (ok tt, a'))
          × Holds view a' (until_ready b).1
    unfolding wait_status
    ready-ok a b ready held =
        let (a1, e, held1) = wait_status_n-ok s_regrdy 4096 a b held in
        (a1, ground (arith, e, ready), held1)

    pub read_core_reg-ok :
        (r : ℕ) (a : ArmDebug T) (b : B)
        → r < 128
        → halted b ≡ true
        → Holds view a b
        → (a' : ArmDebug T) × (b' : B) × (read_core_reg r a ≡ (ok (regs b r), a'))
          × Holds view a' b'
          × ((j : ℕ) → regs b' j ≡ regs b j)
          × (halted b' ≡ true)
    unfolding read_core_reg ◌>>=◌
    read_core_reg-ok r a b small stopped held =
        let (a1, e1, held1) = write_word-ok view h dcrsr r a b refl held in
        let b1 = u.store dcrsr r b in
        let (a2, e2, held2) = ready-ok a1 b1 (c.ready_read r b small stopped) held1 in
        let (a3, e3, held3) = read_word-ok view h dcrdr a2 (until_ready b1).1 refl held2 in
        (
          a3,
          (u.load dcrdr (until_ready b1).1).1,
          ground (arith, e1, e2, e3, c.core_read r b small stopped),
          held3,
          λ j. c.read_keeps r j b small stopped,
          c.read_halted r b small stopped,
        )

    pub write_core_reg-ok :
        (r v : ℕ) (a : ArmDebug T) (b : B)
        → r < 128
        → halted b ≡ true
        → Holds view a b
        → (a' : ArmDebug T) × (b' : B) × (write_core_reg r v a ≡ (ok tt, a'))
          × Holds view a' b'
          × ((j : ℕ) → regs b' j ≡ (if r == j then v else regs b j))
          × (halted b' ≡ true)
    unfolding write_core_reg ◌>>=◌
    write_core_reg-ok r v a b small stopped held =
        let (a1, e1, held1) = write_word-ok view h dcrdr v a b refl held in
        let b1 = u.store dcrdr v b in
        let (a2, e2, held2) = write_word-ok view h dcrsr (bit_or r dcrsr_regwnr) a1 b1 refl held1 in
        let b2 = u.store dcrsr (bit_or r dcrsr_regwnr) b1 in
        let (a3, e3, held3) = ready-ok a2 b2 (c.ready_write r v b small stopped) held2 in
        (
          a3,
          (until_ready b2).1,
          ground (arith, e1, e2, e3),
          held3,
          λ j. c.core_write r v j b small stopped,
          c.write_halted r v b small stopped,
        )
