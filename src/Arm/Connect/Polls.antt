-- ===== src/Arm/Connect/Polls.antt =====
-- Polling a word of target memory (arm-debug/src/lib.rs).
use rust_dap.Base.{
  ℕ, zero, suc, ◌%◌, ◌≡◌, refl, Bool, Bool-cases, true, false, if◌then◌else◌, inl, inr, ok, err,
  ◌>>=◌, arith,
}
use rust_dap.Transport.{DapTransport}
use rust_dap.Arm.Port.{ArmDebug, ArmError}
use rust_dap.Arm.Target.{Bus, Target, IsTarget, Holds}
use rust_dap.Arm.Memory.{read_word}
use rust_dap.Arm.Memory.Refines.{read_word-ok}
use rust_dap.Arm.Connect.{poll, poll_or}

-- At most `n` loads, up to the first that gives a value that is waited for: whether it came, and
-- the bus.
unfoldable pub load_until : {B : Type 0} ⦃u : Bus B⦄ → ℕ → ℕ → (ℕ → Bool) → B → Bool × B
load_until zero addr done b = (false, b)
load_until ⦃u⦄ (suc n) addr done b =
    let rest = load_until n addr done (u.load addr b).1 in
    if done (u.load addr b).0 then (true, (u.load addr b).1) else rest

module _ {T B : Type 0} ⦃t : DapTransport T⦄ ⦃u : Bus B⦄ (view : T → Target B) (h : IsTarget view t)
    (addr : ℕ) (aligned : addr % 4 ≡ 0) (done : ℕ → Bool) where
  pub poll-ok :
      (n : ℕ) (a : ArmDebug T) (b : B)
      → Holds view a b
      → (a' : ArmDebug T) × (poll n (read_word addr) done a ≡ (ok (load_until n addr done b).0, a'))
        × Holds view a' (load_until n addr done b).1
  unfolding poll load_until ◌>>=◌
  poll-ok zero a b held = (a, refl, held)
  poll-ok (suc n) a b held =
      let (a1, e1, held1) = read_word-ok view h addr a b aligned held in
      elim (Bool-cases (done (u.load addr b).0)) [
        | inl came ↦ (a1, ground (arith, e1, came), rw came held1)
        | inr more ↦
            let (a2, e2, held2) = poll-ok n a1 (u.load addr b).1 held1 in
            (a2, ground (arith, e1, e2, more), rw more held2)
      ]

  -- The value came, or it did not within `n` reads, and the error says so.
  pub poll_or-ok :
      (e : ArmError) (n : ℕ) (a : ArmDebug T) (b : B)
      → Holds view a b
      → (a' : ArmDebug T) × (poll_or e n (read_word addr) done a
          ≡ (if (load_until n addr done b).0 then ok tt else err e, a'))
        × Holds view a' (load_until n addr done b).1
  unfolding poll_or ◌>>=◌
  poll_or-ok e n a b held =
      let (a1, e1, held1) = poll-ok n a b held in (a1, ground (arith, e1), held1)
