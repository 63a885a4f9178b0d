-- ===== src/Arm/Nordic/Runs.antt =====
-- The runs in which words are programmed (arm-debug/src/lib.rs, `nrf52_program`, `nrf54_program`).
use rust_dap.Base.{
  ℕ, zero, suc, ◌+◌, ◌*◌, ◌%◌, ◌^◌, ◌≡◌, ◌≤◌, ◌<◌, refl, ap, subst, ◌∙◌, List, [], ◌∷◌, length,
  take, drop, Bool, Bool-cases, if◌then◌else◌, inl, inr, ok, err, pure, ◌>>=◌, arith, length-take,
  length-drop,
}
use rust_dap.Transport.{DapTransport}
use rust_dap.Arm.Port.{ArmDebug, core_timeout}
use rust_dap.Arm.Target.{Bus, Target, IsTarget, Holds}
use rust_dap.Arm.Memory.{tar_run}
use rust_dap.Arm.Memory.Blocks.{InBlock, store_words, write_words-ok}
use rust_dap.Arm.Bytes.{advance}
use rust_dap.Arm.Nordic.{
  write_runs, rramc_ready, rramc_config, rramc_commit, rramc_config_wen, nrf54_rramc_wait,
  nrf54_program,
}
use rust_dap.Arm.Connect.Polls.{load_until, poll_or-ok}
use rust_dap.Arm.Memory.Refines.{write_word-ok}
use rust_dap.Base.Bits.{low_bit}

module _ {B : Type 0} ⦃u : Bus B⦄ where
  -- Words that are stored in two parts.
  store_words-take-drop :
      (n addr : ℕ) (ws : List ℕ) (b : B)
      → n ≤ length ws
      → store_words (addr + n * 4) (drop n ws) (store_words addr (take n ws) b)
        ≡ store_words addr ws b
  unfolding store_words
  store_words-take-drop zero addr ws b h = ap (λ a. store_words a ws b) (omega arith)
  store_words-take-drop (suc n) addr [] b h = absurd (omega arith)
  store_words-take-drop (suc n) addr (w ∷ ws) b h =
      let e : addr + suc n * 4 ≡ addr + 4 + n * 4 = omega arith in
      ap (λ a. store_words a (drop n ws) (store_words (addr + 4) (take n ws) (u.store addr w b))) e
      ∙ store_words-take-drop n (addr + 4) ws (u.store addr w b) (omega arith)

  -- The bus after `nrf54_program` but for its last write, and whether RRAMC was ready in time.
  abbrev pub programmed : ℕ → List ℕ → ℕ → B → Bool × B
  programmed addr ws polls b =
      load_until polls rramc_ready low_bit
        (u.store rramc_commit 1 (store_words addr ws (u.store rramc_config rramc_config_wen b)))

tar_run_bounds :
    (addr n : ℕ)
    → addr % 4 ≡ 0
    → (1 ≤ tar_run addr (suc n))
      × (tar_run addr (suc n) ≤ suc n)
      × InBlock addr (tar_run addr (suc n))
unfolding tar_run
tar_run_bounds addr n aligned = omega arith

module _ {T B : Type 0} ⦃t : DapTransport T⦄ ⦃u : Bus B⦄ (view : T → Target B)
    (h : IsTarget view t) where
  -- From an aligned address, and below the end of the address space, the runs end within a run for
  -- each word, and leave the bus as if each word had been stored in turn, wherever the blocks end in
  -- which TAR counts on.
  pub write_runs-ok :
      (fuel addr : ℕ) (ws : List ℕ) (a : ArmDebug T) (b : B)
      → addr % 4 ≡ 0
      → addr + 4 * length ws < 2 ^ 32
      → length ws ≤ fuel
      → Holds view a b
      → (a' : ArmDebug T) × (write_runs (pure tt) fuel addr ws a ≡ (ok tt, a'))
        × Holds view a' (store_words addr ws b)
  unfolding write_runs ◌>>=◌ store_words
  write_runs-ok fuel addr [] a b aligned fits enough held = (a, refl, held)
  write_runs-ok zero addr (w ∷ ws) a b aligned fits enough held = absurd (omega arith)
  write_runs-ok (suc fuel) addr (w ∷ ws) a b aligned fits enough held =
      let all = w ∷ ws in
      let run = tar_run addr (length all) in
      let (some_word, inside, block) = tar_run_bounds addr (length ws) aligned in
      let size = length-take run all in
      let (a1, e1, held1) =
        write_words-ok view h addr (take run all) a b aligned (omega (arith, size, block, inside))
          held in
      let b1 = store_words addr (take run all) b in
      let rest = length-drop run all in
      let (a2, e2, held2) =
        write_runs-ok fuel (addr + run * 4) (drop run all) a1 b1 (omega (arith, aligned))
          (omega (arith, rest, fits, inside)) (omega (arith, rest, enough, some_word)) held1 in
      let next : advance addr (run * 4) ≡ addr + run * 4 = omega (arith, inside, fits) in
      (
        a2,
        ground (arith, e1, e2, ap (λ x. write_runs (pure tt) fuel x (drop run all) a1) next),
        subst (Holds view a2) (store_words-take-drop run addr all b inside) held2,
      )

  -- From an aligned address, and below the end of the address space, nrf54_program enables writing,
  -- stores each word in turn, commits, and waits. When RRAMC is ready within the polls, it disables
  -- writing and answers Ok; when it is not, the answer is a timeout, and writing stays enabled.
  pub nrf54_program-ok :
      (addr w : ℕ) (ws : List ℕ) (polls : ℕ) (a : ArmDebug T) (b : B)
      → addr % 4 ≡ 0
      → addr + 4 * length (w ∷ ws) < 2 ^ 32
      → Holds view a b
      → (a' : ArmDebug T) × (nrf54_program addr (w ∷ ws) polls a
          ≡ (if (programmed addr (w ∷ ws) polls b).0 then ok tt else err core_timeout, a'))
        × Holds view a' (
            if (programmed addr (w ∷ ws) polls b).0
            then u.store rramc_config 0 (programmed addr (w ∷ ws) polls b).1
            else (programmed addr (w ∷ ws) polls b).1)
  unfolding nrf54_program nrf54_rramc_wait ◌>>=◌
  nrf54_program-ok addr w ws polls a b aligned fits held =
      let all = w ∷ ws in
      let (a1, e1, held1) = write_word-ok view h rramc_config rramc_config_wen a b refl held in
      let b1 = u.store rramc_config rramc_config_wen b in
      let (a2, e2, held2) =
        write_runs-ok (length all) addr all a1 b1 aligned fits (omega arith) held1 in
      let b2 = store_words addr all b1 in
      let (a3, e3, held3) = write_word-ok view h rramc_commit 1 a2 b2 refl held2 in
      let b3 = u.store rramc_commit 1 b2 in
      let (a4, e4, held4) =
        poll_or-ok view h rramc_ready refl low_bit core_timeout polls a3 b3 held3 in
      let (a5, e5, held5) =
        write_word-ok view h rramc_config 0 a4 (load_until polls rramc_ready low_bit b3).1 refl
          held4 in
      elim (Bool-cases (programmed addr all polls b).0) [
        | inl in_time ↦ (a5, ground (arith, e1, e2, e3, e4, e5, in_time), rw in_time held5)
        | inr late ↦ (a4, ground (arith, e1, e2, e3, e4, late), rw late held4)
      ]
