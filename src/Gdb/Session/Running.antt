-- ===== src/Gdb/Session/Running.antt =====
-- What stops and resumes the cores (boards/rpi_pico/src/bin/gdb_server.rs, `RpTarget`).
pub mod Stops
pub mod Connects
use rust_dap.Base.{
  ℕ, zero, suc, ◌+◌, Bool, true, false, not, ◌&&◌, ◌||◌, Option, none, some, List, [], ◌∷◌,
  replicate, overwrite, ◌==◌, if◌then◌else◌, M, pure, gets, modify, index, inl, inr, ◌>>=◌, ◌>>◌,
}
use rust_dap.Transport.{DapTransport}
use rust_dap.Arm.Port.{ArmError}
use rust_dap.Arm.Core.{halt, resume, step, is_halted, read_core_reg}
use rust_dap.Arm.Call.{core_pc}
use rust_dap.Arm.Units.{WatchAccess, HaltReason, watchpoint, hw_breakpoint_at, halt_reason}
use rust_dap.Gdb.Session.Control.{
  SwBpKind, SwBp, CoreAction, RpTarget, is_ok, unwrap_or, set_running, arm_step, tried, ignored,
  cores, select_core, finish_flash,
}

-- The stop reasons of gdbstub that the server makes, each with the core of its thread.
pub data StopReason : Type 0 where
  done_step : StopReason
  watch : ℕ → WatchAccess → ℕ → StopReason
  hw_break : ℕ → StopReason
  sw_break : ℕ → StopReason
  sigtrap : ℕ → StopReason

-- `Some(core) == except`
abbrev pub is_it : Option ℕ → ℕ → Bool
is_it none core = false
is_it (some c) core = c == core

-- `self.breakpoints.iter().any(..)`, of a breakpoint that was promoted
unfoldable pub promoted_at : List SwBp → ℕ → Bool
promoted_at [] pc = false
promoted_at (bp ∷ bps) pc =
    bp.at == pc && elim bp.kind [ SwBpKind.ram orig ↦ false | SwBpKind.fpb ↦ true ]
    || promoted_at bps pc

-- What an action comes to: the default is to stay halted where the scheduler is locked.
abbrev pub effective : Bool → CoreAction → CoreAction
effective locked CoreAction.default = if locked then CoreAction.default else CoreAction.continue
effective locked CoreAction.continue = CoreAction.continue
effective locked CoreAction.step_once = CoreAction.step_once

module _ {T : Type 0} ⦃t : DapTransport T⦄ where
  unfoldable pub break_reason : ℕ → M (RpTarget T) ArmError StopReason
  break_reason core = do
    read ← tried (arm_step (read_core_reg core_pc))
    let pc = unwrap_or 0 read
    points ← gets (λ (x : RpTarget T). x.breakpoints)
    if promoted_at points pc then pure (StopReason.sw_break core) else (do
      found ← tried (arm_step (hw_breakpoint_at pc))
      pure (if unwrap_or false found then StopReason.hw_break core else StopReason.sw_break core))

  unfoldable pub stop_reason : ℕ → M (RpTarget T) ArmError StopReason
  stop_reason core = do
    stepped ← gets (λ (x : RpTarget T). x.stepped)
    if is_it stepped core then pure StopReason.done_step else (do
      why ← tried (arm_step halt_reason)
      elim why [
        | inl e ↦ pure (StopReason.sigtrap core)
        | inr (watchpoint addr access) ↦ pure (StopReason.watch core access addr)
        | inr HaltReason.breakpoint ↦ break_reason core
        | inr other ↦ pure (StopReason.sigtrap core)
      ])

  unfoldable pub halt_loop : Option ℕ → ℕ → ℕ → M (RpTarget T) ArmError (Unit {0})
  halt_loop except zero core = pure tt
  halt_loop except (suc left) core = do
    flags ← gets (λ (x : RpTarget T). x.running)
    flag ← index flags core
    if not (is_it except core) && flag
        then (do
          selected ← tried (select_core core)
          if is_ok selected then ignored (arm_step halt) else pure tt)
        else pure tt
    halt_loop except left (core + 1)

  unfoldable pub halt_running : Option ℕ → M (RpTarget T) ArmError (Unit {0})
  halt_running except = do n ← cores; halt_loop except n 0; modify (set_running (replicate 2 false))

  -- Whether a core that runs has halted.
  unfoldable pub has_halted : ℕ → M (RpTarget T) ArmError Bool
  has_halted core = do
    flags ← gets (λ (x : RpTarget T). x.running)
    flag ← index flags core
    if flag
        then (do
          selected ← tried (select_core core)
          if is_ok selected
              then (do halted ← tried (arm_step is_halted); pure (unwrap_or false halted))
              else pure false)
        else pure false

  -- The first core that has.
  unfoldable pub find_halted : ℕ → ℕ → M (RpTarget T) ArmError (Option ℕ)
  find_halted zero core = pure none
  find_halted (suc left) core = do
    halted ← has_halted core
    if halted then pure (some core) else find_halted left (core + 1)

  unfoldable pub poll_running : M (RpTarget T) ArmError (Option StopReason)
  poll_running = do
    n ← cores
    stopped ← find_halted n 0
    elim stopped [
      | none ↦ pure none
      | some core ↦ do
        halt_running (some core)
        ignored (select_core core)
        why ← stop_reason core
        pure (some why)
    ]

  unfoldable pub poll_stopped : M (RpTarget T) ArmError (Option StopReason)
  poll_stopped = do
    stepped ← gets (λ (x : RpTarget T). x.stepped)
    elim stepped [
      | none ↦ poll_running
      | some core ↦ do
        modify (λ (x : RpTarget T). record x { stepped = none })
        halt_running none
        ignored (select_core core)
        pure (some (StopReason.sigtrap core))
    ]

  -- `clear_resume_actions`
  abbrev pub clear_resume_actions : RpTarget T → RpTarget T
  clear_resume_actions x = record x { actions = replicate 2 CoreAction.default; sched_lock = false }

  unfoldable pub run_core : CoreAction → ℕ → M (RpTarget T) ArmError (Unit {0})
  run_core CoreAction.default core = pure tt
  run_core CoreAction.step_once core = do
    selected ← tried (select_core core)
    if is_ok selected
        then (do
          modify (λ (x : RpTarget T). record x { stepped = some core })
          ignored (arm_step step))
        else pure tt
  run_core CoreAction.continue core = do
    selected ← tried (select_core core)
    if is_ok selected
        then (do
          resumed ← tried (arm_step resume)
          if is_ok resumed
              then modify (λ (x : RpTarget T). set_running (overwrite core (true ∷ []) x.running) x)
              else pure tt)
        else pure tt

  unfoldable pub resume_loop : ℕ → ℕ → M (RpTarget T) ArmError (Unit {0})
  resume_loop zero core = pure tt
  resume_loop (suc left) core = do
    actions ← gets (λ (x : RpTarget T). x.actions)
    locked ← gets (λ (x : RpTarget T). x.sched_lock)
    action ← index actions core
    run_core (effective locked action) core
    resume_loop left (core + 1)

  unfoldable pub resume_target : M (RpTarget T) ArmError (Unit {0})
  resume_target = do
    finish_flash
    modify (λ (x : RpTarget T). record x { stepped = none })
    n ← cores
    resume_loop n 0
