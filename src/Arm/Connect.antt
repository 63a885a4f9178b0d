-- ===== src/Arm/Connect.antt =====
-- The connection of `ArmDebug` to a target (arm-debug/src/lib.rs).
pub mod Polls
use rust_dap.Base.{
  ℕ, zero, suc, ◌+◌, ◌*◌, ◌%◌, ◌/◌, ◌^◌, Bool, true, false, ◌||◌, bit_or, bit_xor, List, [], ◌∷◌,
  replicate, ◌==◌, if◌then◌else◌, M, pure, throw, throw_if, modify, ◌>>=◌, ◌>>◌,
}
use rust_dap.Base.Words.{contains, le_bytes2, le_bytes4}
use rust_dap.Base.Bits.{of_bit}
use rust_dap.CmsisDap.{n_reset}
use rust_dap.Transport.{DapTransport, ConnectPort}
use rust_dap.Arm.Port.{
  ArmDebug, ArmError, no_target, power_up_timeout, on_link, dp_read, dp_write, dp_dpidr, dp_abort,
  dp_ctrl_stat, dp_select, dp_targetsel, abort_clear_all, no_select, set_select, set_csw_valid,
}

-- `CDBGPWRUPREQ | CSYSPWRUPREQ`
abbrev pub power_up_request : ℕ
power_up_request = bit_or (2 ^ 28) (2 ^ 30)

-- `CDBGPWRUPACK | CSYSPWRUPACK`
abbrev pub power_up_ack : ℕ
power_up_ack = bit_or (2 ^ 29) (2 ^ 31)

-- Reads up to `n` times, until a value is the one waited for, and says whether it came.
unfoldable pub poll : {S E : Type 0} → ℕ → M S E ℕ → (ℕ → Bool) → M S E Bool
poll zero step done = pure false
poll (suc n) step done = do
  value ← step
  let rest = poll n step done
  if done value then pure true else rest

-- `Err(e)` behind a loop that did not return.
unfoldable pub poll_or : {S E : Type 0} → E → ℕ → M S E ℕ → (ℕ → Bool) → M S E (Unit {0})
poll_or e n step done = do came ← poll n step done; if came then pure tt else throw e

-- `count_ones() & 1`
unfoldable pub ones_parity : ℕ → ℕ → ℕ
ones_parity zero value = 0
ones_parity (suc n) value = (value % 2 + ones_parity n (value / 2)) % 2

-- `0x81`, and the flags APnDP, RnW, A2, A3 and their parity
abbrev pub targetsel_request : ℕ
targetsel_request =
    let a2 = of_bit (contains dp_targetsel 4) in
    let a3 = of_bit (contains dp_targetsel 8) in
    bit_or (bit_or (bit_or 0x81 (a2 * 2 ^ 3)) (a3 * 2 ^ 4)) (bit_xor a2 a3 * 2 ^ 5)

abbrev pub selection_alert : List ℕ
selection_alert =
    0x92 ∷ 0xf3 ∷ 0x09 ∷ 0x62 ∷ 0x95 ∷ 0x2d ∷ 0x85 ∷ 0x86 ∷ 0xe9 ∷ 0xaf ∷ 0xdd ∷ 0xe3 ∷ 0xa2 ∷ 0x0e
    ∷ 0xbc ∷ 0x19 ∷ []

module _ {T : Type 0} ⦃t : DapTransport T⦄ where
  unfoldable pub swj_bits : ℕ → List ℕ → M (ArmDebug T) ArmError (Unit {0})
  unfolding on_link
  swj_bits count bytes = on_link (λ c. t.swj_sequence c count bytes)

  unfoldable pub swd_line_reset : M (ArmDebug T) ArmError (Unit {0})
  swd_line_reset = do swj_bits 51 (replicate 8 0xff); swj_bits 2 (0 ∷ [])

  unfoldable pub swd_to_dormant : M (ArmDebug T) ArmError (Unit {0})
  swd_to_dormant = swj_bits 16 (le_bytes2 0xe3bc)

  unfoldable pub dormant_to_swd : M (ArmDebug T) ArmError (Unit {0})
  dormant_to_swd = do
    swj_bits 8 (0xff ∷ [])
    swj_bits 128 selection_alert
    swj_bits 4 (0 ∷ [])
    swj_bits 8 (0x1a ∷ [])

  unfoldable pub jtag_to_swd : M (ArmDebug T) ArmError (Unit {0})
  jtag_to_swd = swj_bits 16 (le_bytes2 0xe79e)

  unfoldable pub swd_bits : ℕ → List ℕ → M (ArmDebug T) ArmError (Unit {0})
  unfolding on_link
  swd_bits count bytes = on_link (λ c. t.swd_write_bits c count bytes)

  unfoldable pub write_targetsel : ℕ → M (ArmDebug T) ArmError (Unit {0})
  write_targetsel value = do
    on_link (λ c. t.swd_output_enable true)
    swd_bits 8 (targetsel_request ∷ [])
    swd_bits 5 (0 ∷ [])
    swd_bits 32 (le_bytes4 value)
    swd_bits 1 (ones_parity 32 value ∷ [])

  unfoldable pub power_up : M (ArmDebug T) ArmError (Unit {0})
  power_up = do
    dp_write dp_ctrl_stat power_up_request
    poll_or power_up_timeout 1024 (dp_read dp_ctrl_stat) (λ v. contains v power_up_ack)

  -- `DPIDR`, if there is a target.
  unfoldable pub read_dpidr : M (ArmDebug T) ArmError ℕ
  read_dpidr = do
    dpidr ← dp_read dp_dpidr
    throw_if (dpidr == 0 || dpidr == 0xffff_ffff) no_target
    pure dpidr

  -- What every way to connect ends with, when the caches are dropped.
  unfoldable pub clear_and_power_up : M (ArmDebug T) ArmError (Unit {0})
  clear_and_power_up = do
    dp_write dp_abort abort_clear_all
    dp_write dp_select 0
    modify (set_select 0)
    power_up

  abbrev pub drop_caches : ArmDebug T → ArmDebug T
  drop_caches a = set_csw_valid false (set_select no_select a)

  unfoldable pub connect_multidrop : ℕ → M (ArmDebug T) ArmError ℕ
  connect_multidrop targetsel = do
    on_link (t.connect ConnectPort.swd)
    swd_line_reset
    swd_to_dormant
    dormant_to_swd
    swd_line_reset
    write_targetsel targetsel
    dpidr ← read_dpidr
    modify drop_caches
    clear_and_power_up
    pure dpidr

  unfoldable pub connect_swd : M (ArmDebug T) ArmError ℕ
  connect_swd = do
    on_link (t.connect ConnectPort.swd)
    swd_line_reset
    jtag_to_swd
    swd_line_reset
    dpidr ← read_dpidr
    modify (λ (a : ArmDebug T). record (drop_caches a) { apsel = 0 })
    clear_and_power_up
    pure dpidr

  unfoldable pub reset_pulse : ℕ → M (ArmDebug T) ArmError (Unit {0})
  reset_pulse wait_us = do on_link (λ c. t.swj_pins c 0 n_reset wait_us); pure tt

  unfoldable pub reselect : ℕ → M (ArmDebug T) ArmError ℕ
  reselect targetsel = do
    swd_line_reset
    write_targetsel targetsel
    dpidr ← read_dpidr
    modify drop_caches
    clear_and_power_up
    pure dpidr
