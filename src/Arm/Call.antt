-- ===== src/Arm/Call.antt =====
-- Functions of the target: the bootrom table, and calls (arm-debug/src/lib.rs).
pub mod Saved
pub mod Setup
pub mod Restored
use rust_dap.Base.{
  ℕ, zero, suc, ◌-◌, ◌%◌, ◌^◌, bit_or, Option, none, some, List, [], ◌∷◌, take, drop, replicate,
  ◌==◌, if◌then◌else◌, ◌⊎◌, inl, inr, M, pure, throw, attempt, ◌>>=◌, ◌>>◌,
}
use rust_dap.Base.Words.{from_le}
use rust_dap.Transport.{DapTransport}
use rust_dap.Arm.Port.{ArmDebug, ArmError}
use rust_dap.Arm.Memory.{read_word, write_word}
use rust_dap.Arm.Bytes.{filled, read_mem, advance}
use rust_dap.Arm.Core.{
  dhcsr, debug_on, c_halt, c_maskints, s_halt, wait_status_n, read_core_reg, write_core_reg,
}

-- `rp2040::ROM_TABLE_PTRS`
abbrev pub rom_table_ptrs : ℕ
rom_table_ptrs = 0x14

abbrev pub core_sp : ℕ
core_sp = 13

abbrev pub core_lr : ℕ
core_lr = 14

abbrev pub core_pc : ℕ
core_pc = 15

abbrev pub core_xpsr : ℕ
core_xpsr = 16

-- The registers that a call saves and restores.
abbrev pub clobbered : List ℕ
clobbered = 0 ∷ 1 ∷ 2 ∷ 3 ∷ core_sp ∷ core_lr ∷ core_pc ∷ core_xpsr ∷ []

module _ {T : Type 0} ⦃t : DapTransport T⦄ where
  -- `let mut bytes = [0u8; 4]; self.read_mem(entry, &mut bytes)?`
  unfoldable pub read_entry : ℕ → M (ArmDebug T) ArmError (List ℕ)
  read_entry entry a = filled (read_mem entry (a, replicate 4 0))

  -- `none` when the fuel has run out.
  unfoldable pub lookup_loop : ℕ → ℕ → ℕ → M (ArmDebug T) ArmError (Option (Option ℕ))
  lookup_loop zero want entry = pure none
  lookup_loop (suc fuel) want entry = do
    bytes ← read_entry entry
    let tag = from_le (take 2 bytes)
    let rest = lookup_loop fuel want (advance entry 4)
    if tag == 0
        then pure (some none)
        else if tag == want
        then pure (some (some (from_le (drop 2 bytes))))
        else rest

  unfoldable pub rom_func_lookup : ℕ → List ℕ → M (ArmDebug T) ArmError (Option (Option ℕ))
  rom_func_lookup fuel code = do
    ptrs ← read_word rom_table_ptrs
    lookup_loop fuel (from_le code) (ptrs % 2 ^ 16)

  unfoldable pub read_regs : List ℕ → M (ArmDebug T) ArmError (List ℕ)
  read_regs [] = pure []
  read_regs (reg ∷ regs) = do
    value ← read_core_reg reg
    values ← read_regs regs
    pure (value ∷ values)

  -- Registers with their values, as far as both lists go.
  unfoldable pub write_regs : List ℕ → List ℕ → M (ArmDebug T) ArmError (Unit {0})
  write_regs [] values = pure tt
  write_regs (reg ∷ regs) [] = pure tt
  write_regs (reg ∷ regs) (value ∷ values) = do write_core_reg reg value; write_regs regs values

  -- The `?` on a result that was kept.
  unfoldable pub settle : ArmError ⊎ Unit {0} → M (ArmDebug T) ArmError (Unit {0})
  settle (inl e) = throw e
  settle (inr u) = pure tt

  -- The run of a function between two halts; what became of the wait is the result.
  unfoldable pub run_masked : ℕ → M (ArmDebug T) ArmError (ArmError ⊎ Unit {0})
  run_masked polls = do
    let masked = bit_or debug_on c_maskints
    write_word dhcsr (bit_or masked c_halt)
    write_word dhcsr masked
    waited ← attempt (wait_status_n s_halt polls)
    write_word dhcsr (bit_or masked c_halt)
    write_word dhcsr (bit_or debug_on c_halt)
    pure waited

  unfoldable pub call_function : ℕ → List ℕ → ℕ → ℕ → ℕ → M (ArmDebug T) ArmError ℕ
  call_function fn_addr args sp trampoline polls = do
    saved ← read_regs clobbered
    write_word (trampoline - trampoline % 4) 0xbe00_be00
    write_regs (0 ∷ 1 ∷ 2 ∷ 3 ∷ []) args
    write_core_reg core_sp sp
    write_core_reg core_lr (bit_or trampoline 1)
    write_core_reg core_pc fn_addr
    write_core_reg core_xpsr 0x0100_0000
    waited ← run_masked polls
    settle waited
    result ← read_core_reg 0
    write_regs clobbered saved
    pure result
