-- ===== src/Gdb/Access.antt =====
-- Registers and memory of the target, as GDB sees them (boards/rpi_pico/src/bin/gdb_server.rs).
pub mod Registers
use rust_dap.Base.{
  ℕ, ◌+◌, ◌-◌, ◌*◌, ◌%◌, ◌^◌, min, Bool, true, ◌&&◌, List, [], ◌∷◌, ◌++◌, length, take, drop,
  overwrite, leb, ltb, if◌then◌else◌, M, pure, throw, gets, modify, index, inl, inr, ◌>>=◌, ◌>>◌,
}
use rust_dap.Base.Words.{le_bytes4}
use rust_dap.Transport.{DapTransport}
use rust_dap.Arm.Port.{ArmError}
use rust_dap.Arm.Bytes.{filled, read_mem, write_mem}
use rust_dap.Arm.Call.{core_sp, core_lr, core_pc, core_xpsr, read_regs, write_regs}
use rust_dap.Gdb.Session.{flash_base, flash_size, in_flash_mode, write_on, finish_on, on_family}
use rust_dap.Gdb.Session.Control.{
  CoreAction, RpTarget, set_diag, on_linked, arm_step, tried, ignored, select_core,
}

abbrev pub diag_base : ℕ
diag_base = 0xf000_0000

-- `tid_core` of a thread's number
abbrev pub tid_core : ℕ → ℕ
tid_core tid = min (tid - 1) 1

-- `r`, `sp`, `lr`, `pc` and `cpsr` of `ArmCoreRegs`, in the order in which they are transferred
abbrev pub gdb_regs : List ℕ
gdb_regs =
    0 ∷ 1 ∷ 2 ∷ 3 ∷ 4 ∷ 5 ∷ 6 ∷ 7 ∷ 8 ∷ 9 ∷ 10 ∷ 11 ∷ 12 ∷ core_sp ∷ core_lr ∷ core_pc ∷ core_xpsr
    ∷ []

unfoldable pub diag_bytes : List ℕ → List ℕ
diag_bytes [] = []
diag_bytes (w ∷ ws) = le_bytes4 w ++ diag_bytes ws

module _ {T : Type 0} ⦃t : DapTransport T⦄ where
  -- `diag_err`
  unfoldable pub diag_err : {A : Type 0} → M (RpTarget T) ArmError A → M (RpTarget T) ArmError A
  diag_err m = do
    r ← tried m
    elim r [
      | inr a ↦ pure a
      | inl e ↦ do
        diag ← gets (λ (x : RpTarget T). x.diag)
        count ← index diag 5
        modify (set_diag 5 ((count + 1) % 2 ^ 32))
        throw e
    ]

  unfoldable pub read_registers : ℕ → M (RpTarget T) ArmError (List ℕ)
  read_registers tid = do select_core (tid_core tid); arm_step (read_regs gdb_regs)

  unfoldable pub write_registers : List ℕ → ℕ → M (RpTarget T) ArmError (Unit {0})
  write_registers values tid = do select_core (tid_core tid); arm_step (write_regs gdb_regs values)

  -- Whether an address is in the flash window.
  abbrev pub in_window : RpTarget T → ℕ → Bool
  in_window x start =
      let family = x.linked.state in
      leb (flash_base family) start && ltb start (flash_base family + flash_size family)

  -- The number of bytes read, and the buffer with them.
  unfoldable pub read_addrs : ℕ → List ℕ → M (RpTarget T) ArmError (ℕ × List ℕ)
  read_addrs start buf = do
    diag ← gets (λ (x : RpTarget T). x.diag)
    if leb diag_base start && ltb (start - diag_base) (4 * length diag)
        then (do
          let off = start - diag_base
          let n = min (length buf) (4 * length diag - off)
          pure (n, overwrite 0 (take n (drop off (diag_bytes diag))) buf))
        else (do
          leave ← gets (λ (x : RpTarget T). in_flash_mode x.linked.state && in_window x start)
          if leave then (do ignored (select_core 0); on_linked (on_family finish_on)) else pure tt
          read ← diag_err (arm_step (λ a. filled (read_mem start (a, buf))))
          pure (length buf, read))

  unfoldable pub write_addrs : ℕ → List ℕ → M (RpTarget T) ArmError (Unit {0})
  write_addrs start [] = pure tt
  write_addrs start (b ∷ bs) = do
    flash ← gets (λ (x : RpTarget T). in_window x start)
    if flash
        then diag_err (do select_core 0; on_linked (on_family (write_on start (b ∷ bs))))
        else diag_err (arm_step (write_mem start (b ∷ bs)))

module _ {T : Type 0} where
  -- `set_resume_action_continue` and `set_resume_action_step`
  abbrev pub set_resume_action : CoreAction → ℕ → RpTarget T → RpTarget T
  set_resume_action action tid x = record x {
    actions = overwrite (tid_core tid) (action ∷ []) x.actions;
  }

  abbrev pub set_resume_action_scheduler_lock : RpTarget T → RpTarget T
  set_resume_action_scheduler_lock x = record x { sched_lock = true }
