-- ===== src/Gdb/Session/Control.antt =====
-- The target of the GDB server (boards/rpi_pico/src/bin/gdb_server.rs, `RpTarget`): connection,
-- reset, and what stops and resumes its cores. A step that drops its errors has still the type of one
-- that can fail.
use rust_dap.Base.{
  ℕ, zero, suc, ◌+◌, ◌-◌, ◌%◌, ◌^◌, Bool, true, false, ◌&&◌, bit_or, Option, List, [], ◌∷◌,
  replicate, overwrite, leb, ◌==◌, if◌then◌else◌, M, pure, throw, gets, modify, attempt, index,
  zoom, ◌⊎◌, inl, inr, ◌>>=◌, ◌>>◌,
}
use rust_dap.Transport.{DapTransport}
use rust_dap.Arm.Port.{ArmDebug, ArmError, no_target}
use rust_dap.Arm.Memory.{read_word, write_word}
use rust_dap.Arm.Connect.{reset_pulse}
use rust_dap.Arm.Core.{dhcsr, demcr, halt, read_core_reg}
use rust_dap.Arm.Call.{core_pc}
use rust_dap.Arm.Units.{demcr_dwtena, debug_units_clear}
use rust_dap.Gdb.Family.{Family, Linked, on_arm, set_state}
use rust_dap.Gdb.Session.{
  diag_ok, err_code, num_cores, in_flash_mode, forget_core, reset_flash_state, select_on, finish_on,
  on_family, connect_detect,
}

-- `cm::AIRCR`, `cm::AIRCR_SYSRESETREQ`
abbrev pub aircr : ℕ
aircr = 0xe000_ed0c

abbrev pub aircr_sysresetreq : ℕ
aircr_sysresetreq = 0x05fa_0004

pub data SwBpKind : Type 0 where
  ram : ℕ → SwBpKind
  fpb : SwBpKind

pub record SwBp : Type 0 where
  pub at : ℕ
  pub kind : SwBpKind

pub data CoreAction : Type 0 where
  default : CoreAction
  continue : CoreAction
  step_once : CoreAction

pub record RttState : Type 0 where
  pub cb : Option ℕ
  pub channel : ℕ
  pub up_desc : Option ℕ
  pub down_desc : Option ℕ

-- `linked` is `arm` and `family`.
pub record RpTarget (T : Type 0) : Type 0 where
  pub linked : Linked Family T
  pub breakpoints : List SwBp
  pub actions : List CoreAction
  pub running : List Bool
  pub stepped : Option ℕ
  pub sched_lock : Bool
  pub diag : List ℕ
  pub rtt : RttState

abbrev pub is_ok : {E A : Type 0} → E ⊎ A → Bool
is_ok (inl e) = false
is_ok (inr a) = true

-- `unwrap_or(value)`
abbrev pub unwrap_or : {E A : Type 0} → A → E ⊎ A → A
unwrap_or value (inl e) = value
unwrap_or value (inr a) = a

abbrev pub code_of : {A : Type 0} → ArmError ⊎ A → ℕ
code_of (inl e) = err_code e
code_of (inr a) = diag_ok

module _ {T : Type 0} where
  abbrev pub set_diag : ℕ → ℕ → RpTarget T → RpTarget T
  set_diag i v x = record x { diag = overwrite i (v ∷ []) x.diag }

  abbrev pub set_running : List Bool → RpTarget T → RpTarget T
  set_running flags x = record x { running = flags }

  abbrev pub on_linked : {A : Type 0} → M (Linked Family T) ArmError A → M (RpTarget T) ArmError A
  on_linked = zoom (λ x. x.linked) (λ l x. record x { linked = l })

  abbrev pub arm_step : {A : Type 0} → M (ArmDebug T) ArmError A → M (RpTarget T) ArmError A
  arm_step m = on_linked (on_arm m)

  -- A step whose result is a value, for `is_ok`, `unwrap_or` and `match`.
  abbrev pub tried :
      {A : Type 0} → M (RpTarget T) ArmError A → M (RpTarget T) ArmError (ArmError ⊎ A)
  tried = attempt

  -- `let _ = ...`
  abbrev pub ignored : {A : Type 0} → M (RpTarget T) ArmError A → M (RpTarget T) ArmError (Unit {0})
  ignored m = do r ← tried m; pure tt

  abbrev pub cores : M (RpTarget T) ArmError ℕ
  cores = gets (λ (x : RpTarget T). num_cores x.linked.state)

module _ {T : Type 0} ⦃t : DapTransport T⦄ where
  unfoldable pub select_core : ℕ → M (RpTarget T) ArmError (Unit {0})
  unfolding select_on
  select_core core = on_linked (on_family (select_on core))

  unfoldable pub finish_flash : M (RpTarget T) ArmError (Unit {0})
  unfolding finish_on
  finish_flash = do
    mode ← gets (λ (x : RpTarget T). in_flash_mode x.linked.state)
    if mode then ignored (select_core 0) else pure tt
    on_linked (on_family finish_on)

  -- The other cores, `left` of them from `core` on, are brought to the same state.
  unfoldable pub halt_others : ℕ → ℕ → M (RpTarget T) ArmError (Unit {0})
  halt_others zero core = pure tt
  halt_others (suc left) core = do
    selected ← tried (select_core core)
    if is_ok selected
        then (do ignored (arm_step halt); ignored (arm_step debug_units_clear))
        else pure tt
    halt_others left (core + 1)

  -- One attempt: to connect, to halt, and to read DHCSR. What became of them goes to `diag`.
  unfoldable pub try_connect : ℕ → M (RpTarget T) ArmError Bool
  try_connect number = do
    if leb 3 number then ignored (arm_step (reset_pulse 2000)) else pure tt
    on_linked (set_state forget_core)
    connected ← tried (on_linked connect_detect)
    elim connected [ inl e ↦ pure tt | inr dpidr ↦ modify (set_diag 6 dpidr) ]
    modify (set_diag 2 (code_of connected))
    halted ← tried (arm_step halt)
    modify (set_diag 3 (code_of halted))
    verified ← tried (arm_step (read_word dhcsr))
    modify (set_diag 4 (code_of verified))
    pure (code_of connected == diag_ok && code_of halted == diag_ok && code_of verified == diag_ok)

  unfoldable pub connect_loop : ℕ → ℕ → M (RpTarget T) ArmError (Unit {0})
  connect_loop zero number = modify (set_diag 1 0xdead)
  connect_loop (suc left) number = do
    usable ← try_connect number
    if usable
        then (do
          modify (set_diag 1 number)
          ignored (arm_step debug_units_clear)
          n ← cores
          halt_others (n - 1) 1
          ignored (select_core 0))
        else connect_loop left (number + 1)

  unfoldable pub connect_and_halt : M (RpTarget T) ArmError (Unit {0})
  connect_and_halt = do
    diag ← gets (λ (x : RpTarget T). x.diag)
    count ← index diag 0
    modify (set_diag 0 ((count + 1) % 2 ^ 32))
    modify (set_diag 5 0)
    on_linked (set_state reset_flash_state)
    modify (set_running (replicate 2 false))
    connect_loop 4 1

  -- `demcr & !DEMCR_VC_CORERESET` clears its lowest bit.
  unfoldable pub target_reset : Bool → M (RpTarget T) ArmError ℕ
  target_reset halting = do
    finish_flash
    select_core 0
    word ← arm_step (read_word demcr)
    let word = bit_or (word - word % 2) demcr_dwtena
    arm_step (write_word demcr (bit_or word (if halting then 1 else 0)))
    ignored (arm_step (write_word aircr aircr_sysresetreq))
    connect_and_halt
    diag ← gets (λ (x : RpTarget T). x.diag)
    used ← index diag 1
    if used == 0xdead then throw no_target else pure tt
    if halting then ignored (arm_step (write_word demcr demcr_dwtena)) else pure tt
    select_core 0
    arm_step (read_core_reg core_pc)
