-- ===== src/Gdb/Session.antt =====
-- The state of the GDB server, and how a session starts and stops the target
-- (boards/rpi_pico/src/bin/gdb_server.rs, `Family` and `RpTarget`).
pub mod Control
pub mod Running
use rust_dap.Base.{
  ℕ, zero, suc, ◌+◌, ◌-◌, ◌*◌, ◌%◌, ◌^◌, min, Bool, true, false, bit_and, bit_or, Option, none,
  some, List, [], ◌∷◌, ltb, ◌==◌, if◌then◌else◌, ok, err, panic, M, pure, throw, gets, modify,
  attempt, zoom, ◌⊎◌, inl, inr, ◌>>=◌, ◌>>◌,
}
use rust_dap.Transport.{DapTransport}
use rust_dap.Arm.Port.{
  ArmDebug, ArmError, transfer_failed, still_waiting, unsupported_operation, power_up_timeout,
  core_timeout, no_target, broken_invariant,
}
use rust_dap.Arm.Connect.{connect_multidrop, connect_swd}
use rust_dap.Gdb.Family.{
  Family, rp2040, nrf52, nrf54, core0_targetsel, nrf52_dpidr, nrf54_dpidr, rp2040_flash_base,
  rp2040_flash_size, nrf52_flash_size, rram_size, new_rp2040, new_nrf52, Rp2040Family, Nrf52Family,
  Linked, on_arm, set_state,
}
use rust_dap.Gdb.Family.Rp2040
use rust_dap.Gdb.Family.Nordic.{nrf52_flash_write, nrf54_flash_write}

abbrev pub max_cores : ℕ
max_cores = 2

abbrev pub diag_ok : ℕ
diag_ok = 0x0a11_600d

-- Error codes for the diagnostic window; `0x100 | ack`, for an `ack` of three bits
abbrev pub err_code : ArmError → ℕ
err_code (transfer_failed ack) = bit_or 0x100 ack
err_code ArmError.still_waiting = 1
err_code ArmError.unsupported_operation = 2
err_code ArmError.power_up_timeout = 3
err_code ArmError.core_timeout = 4
err_code ArmError.no_target = 5
err_code ArmError.broken_invariant = 6

-- `Family` with the associated constants of `TargetFamily`.
abbrev pub num_cores : Family → ℕ
num_cores (rp2040 s) = 2
num_cores (nrf52 s) = 1
num_cores nrf54 = 1

abbrev pub flash_base : Family → ℕ
flash_base (rp2040 s) = rp2040_flash_base
flash_base (nrf52 s) = 0
flash_base nrf54 = 0

abbrev pub flash_size : Family → ℕ
flash_size (rp2040 s) = rp2040_flash_size
flash_size (nrf52 s) = nrf52_flash_size
flash_size nrf54 = rram_size

abbrev pub in_flash_mode : Family → Bool
in_flash_mode (rp2040 s) = s.flash_mode
in_flash_mode (nrf52 s) = false
in_flash_mode nrf54 = false

abbrev pub forget_core : Family → Family
forget_core (rp2040 s) = rp2040 (record s { cur_core = none })
forget_core (nrf52 s) = nrf52 s
forget_core nrf54 = nrf54

abbrev pub reset_flash_state : Family → Family
reset_flash_state (rp2040 s) = rp2040 (record s { flash_mode = false })
reset_flash_state (nrf52 s) = nrf52 new_nrf52
reset_flash_state nrf54 = nrf54

module _ {T : Type 0} ⦃t : DapTransport T⦄ where
  -- A step of one family's own, on the family that it is.
  unfoldable pub as_rp2040 :
      {A : Type 0}
      → M (Linked Rp2040Family T) ArmError A
      → Rp2040Family
      → M (Linked Family T) ArmError A
  as_rp2040 step s l =
      let (r, after) = step (record { state = s; link = l.link }) in
      (r, record { state = rp2040 after.state; link = after.link })

  unfoldable pub as_nrf52 :
      {A : Type 0}
      → M (Linked Nrf52Family T) ArmError A
      → Nrf52Family
      → M (Linked Family T) ArmError A
  as_nrf52 step s l =
      let (r, after) = step (record { state = s; link = l.link }) in
      (r, record { state = nrf52 after.state; link = after.link })

  unfoldable pub select_on : ℕ → Family → M (Linked Family T) ArmError (Unit {0})
  unfolding as_rp2040 Rp2040.select_core
  select_on core (rp2040 s) = as_rp2040 (Rp2040.select_core core) s
  select_on core (nrf52 s) = pure tt
  select_on core nrf54 = pure tt

  unfoldable pub write_on : ℕ → List ℕ → Family → M (Linked Family T) ArmError (Unit {0})
  unfolding as_rp2040 as_nrf52 Rp2040.flash_write nrf52_flash_write nrf54_flash_write
  write_on addr bytes (rp2040 s) = as_rp2040 (Rp2040.flash_write addr bytes) s
  write_on addr bytes (nrf52 s) = as_nrf52 (nrf52_flash_write addr bytes) s
  write_on addr bytes nrf54 = on_arm (nrf54_flash_write addr bytes)

  unfoldable pub finish_on : Family → M (Linked Family T) ArmError (Unit {0})
  unfolding as_rp2040 Rp2040.flash_finish
  finish_on (rp2040 s) = as_rp2040 Rp2040.flash_finish s
  finish_on (nrf52 s) = pure tt
  finish_on nrf54 = pure tt

  abbrev pub on_family :
      {A : Type 0} → (Family → M (Linked Family T) ArmError A) → M (Linked Family T) ArmError A
  on_family step l = step l.state l

  -- The multidrop connection, which only an RP2040 answers.
  unfoldable pub detect_rp2040 : M (Linked Family T) ArmError ℕ
  detect_rp2040 = do
    answer ← attempt {F = ArmError} (on_arm (connect_multidrop core0_targetsel))
    elim answer [
      | inl e ↦ throw no_target
      | inr id ↦ do set_state (λ f. rp2040 (record new_rp2040 { cur_core = some 0 })); pure id
    ]

  unfoldable pub connect_detect : M (Linked Family T) ArmError ℕ
  connect_detect = do
    answer ← attempt {F = ArmError} (on_arm connect_swd)
    elim answer [
      | inl e ↦ detect_rp2040
      | inr id ↦
          if id == nrf52_dpidr
          then (do set_state (λ f. nrf52 new_nrf52); pure id)
          else if id == nrf54_dpidr
          then (do set_state (λ f. nrf54); pure id)
          else detect_rp2040
    ]
