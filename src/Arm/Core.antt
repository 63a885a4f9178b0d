-- ===== src/Arm/Core.antt =====
-- Core debug of ARMv6-M and ARMv7-M: halt, step and core registers (arm-debug/src/lib.rs).
pub mod Registers
use rust_dap.Base.{ℕ, ◌^◌, Bool, bit_or, M, pure, ◌>>=◌, ◌>>◌}
use rust_dap.Base.Words.{contains}
use rust_dap.Transport.{DapTransport}
use rust_dap.Arm.Port.{ArmDebug, ArmError, core_timeout}
use rust_dap.Arm.Memory.{read_word, write_word}
use rust_dap.Arm.Connect.{poll_or}

abbrev pub dhcsr : ℕ
dhcsr = 0xe000_edf0

abbrev pub dcrsr : ℕ
dcrsr = 0xe000_edf4

abbrev pub dcrdr : ℕ
dcrdr = 0xe000_edf8

abbrev pub demcr : ℕ
demcr = 0xe000_edfc

abbrev pub dfsr : ℕ
dfsr = 0xe000_ed30

abbrev pub dbgkey : ℕ
dbgkey = 0xa05f_0000

abbrev pub c_debugen : ℕ
c_debugen = 2 ^ 0

abbrev pub c_halt : ℕ
c_halt = 2 ^ 1

abbrev pub c_step : ℕ
c_step = 2 ^ 2

abbrev pub c_maskints : ℕ
c_maskints = 2 ^ 3

abbrev pub s_regrdy : ℕ
s_regrdy = 2 ^ 16

abbrev pub s_halt : ℕ
s_halt = 2 ^ 17

abbrev pub dcrsr_regwnr : ℕ
dcrsr_regwnr = 2 ^ 16

-- `DBGKEY | C_DEBUGEN`
abbrev pub debug_on : ℕ
debug_on = bit_or dbgkey c_debugen

module _ {T : Type 0} ⦃t : DapTransport T⦄ where
  unfoldable pub wait_status_n : ℕ → ℕ → M (ArmDebug T) ArmError (Unit {0})
  wait_status_n mask polls = poll_or core_timeout polls (read_word dhcsr) (λ v. contains v mask)

  unfoldable pub wait_status : ℕ → M (ArmDebug T) ArmError (Unit {0})
  wait_status mask = wait_status_n mask 4096

  unfoldable pub debug_enable : M (ArmDebug T) ArmError (Unit {0})
  debug_enable = write_word dhcsr debug_on

  unfoldable pub halt : M (ArmDebug T) ArmError (Unit {0})
  halt = do write_word dhcsr (bit_or debug_on c_halt); wait_status s_halt

  unfoldable pub resume : M (ArmDebug T) ArmError (Unit {0})
  resume = write_word dhcsr debug_on

  unfoldable pub step : M (ArmDebug T) ArmError (Unit {0})
  step = do write_word dhcsr (bit_or (bit_or debug_on c_maskints) c_step); wait_status s_halt

  unfoldable pub is_halted : M (ArmDebug T) ArmError Bool
  is_halted = do v ← read_word dhcsr; pure (contains v s_halt)

  unfoldable pub read_core_reg : ℕ → M (ArmDebug T) ArmError ℕ
  read_core_reg reg = do write_word dcrsr reg; wait_status s_regrdy; read_word dcrdr

  unfoldable pub write_core_reg : ℕ → ℕ → M (ArmDebug T) ArmError (Unit {0})
  write_core_reg reg value = do
    write_word dcrdr value
    write_word dcrsr (bit_or reg dcrsr_regwnr)
    wait_status s_regrdy
