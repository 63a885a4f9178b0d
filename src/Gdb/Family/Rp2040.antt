-- ===== src/Gdb/Family/Rp2040.antt =====
-- The RP2040 family (boards/rpi_pico/src/bin/gdb_server.rs, `Rp2040Family`): flash by the routines of
-- the target's bootrom.
use rust_dap.Base.{
  ℕ, zero, suc, ◌+◌, ◌-◌, ◌*◌, ◌/◌, ◌%◌, ◌^◌, min, Bool, true, false, not, Option, none, some, List,
  [], ◌∷◌, length, replicate, ltb, ◌==◌, if◌then◌else◌, M, pure, panicking, throw_if, gets,
  from_option, attempt, index, inl, inr, ◌>>=◌, ◌>>◌,
}
use rust_dap.Transport.{DapTransport}
use rust_dap.Arm.Port.{ArmError, broken_invariant}
use rust_dap.Arm.Bytes.{write_mem}
use rust_dap.Arm.Connect.{connect_multidrop, reselect}
use rust_dap.Arm.Call.{rom_func_lookup, call_function}
use rust_dap.Gdb.Family.{
  core_targetsel, core0_targetsel, rp2040_flash_base, rp2040_flash_size, rp2040_flash_sector,
  target_stage, target_call_sp, target_trampoline, polls_call, polls_erase, table_fuel, minus,
  RomFlashFns, Rp2040Family, Linked, padded_bytes, on_arm, set_state, erase_pages,
}

-- The codes of the bootrom's functions: `IF`, `EX`, `RE`, `RP`, `FC`, `CX`.
abbrev pub code_connect : List ℕ
code_connect = 0x49 ∷ 0x46 ∷ []

abbrev pub code_exit_xip : List ℕ
code_exit_xip = 0x45 ∷ 0x58 ∷ []

abbrev pub code_erase : List ℕ
code_erase = 0x52 ∷ 0x45 ∷ []

abbrev pub code_program : List ℕ
code_program = 0x52 ∷ 0x50 ∷ []

abbrev pub code_flush : List ℕ
code_flush = 0x46 ∷ 0x43 ∷ []

abbrev pub code_enter_xip : List ℕ
code_enter_xip = 0x43 ∷ 0x58 ∷ []

abbrev pub is_core : Option ℕ → ℕ → Bool
is_core none wanted = false
is_core (some c) wanted = c == wanted

module _ {T : Type 0} ⦃t : DapTransport T⦄ where
  -- `get`; a panic stands for a search that does not end.
  unfoldable pub get_fn : List ℕ → M (Linked Rp2040Family T) ArmError ℕ
  get_fn code = do
    found ← on_arm (rom_func_lookup table_fuel code)
    elim found [ none ↦ panicking | some entry ↦ from_option broken_invariant entry ]

  unfoldable pub look_up : M (Linked Rp2040Family T) ArmError RomFlashFns
  look_up = do
    f ← get_fn code_connect
    x ← get_fn code_exit_xip
    e ← get_fn code_erase
    p ← get_fn code_program
    c ← get_fn code_flush
    n ← get_fn code_enter_xip
    pure (record {
      connect_fn = f;
      exit_xip = x;
      erase_fn = e;
      program_fn = p;
      flush = c;
      enter_xip = n;
    })

  unfoldable pub rom_flash_fns : M (Linked Rp2040Family T) ArmError RomFlashFns
  rom_flash_fns = do
    known ← gets (λ (l : Linked Rp2040Family T). l.state.flash_fns)
    elim known [
      | some f ↦ pure f
      | none ↦ do fns ← look_up; set_state (λ s. record s { flash_fns = some fns }); pure fns
    ]

  unfoldable pub select_core : ℕ → M (Linked Rp2040Family T) ArmError (Unit {0})
  select_core core = do
    current ← gets (λ (l : Linked Rp2040Family T). l.state.cur_core)
    if is_core current core then pure tt else (do
      set_state (λ s. record s { cur_core = none })
      targetsel ← index core_targetsel core
      on_arm (reselect targetsel)
      set_state (λ s. record s { cur_core = some core }))

  unfoldable pub rom_call : ℕ → List ℕ → ℕ → M (Linked Rp2040Family T) ArmError ℕ
  rom_call fn_addr args polls = do
    select_core 0
    on_arm (call_function fn_addr args target_call_sp target_trampoline polls)

  unfoldable pub flash_enter : M (Linked Rp2040Family T) ArmError (Unit {0})
  flash_enter = do
    mode ← gets (λ (l : Linked Rp2040Family T). l.state.flash_mode)
    if mode then pure tt else (do
      select_core 0
      f ← rom_flash_fns
      rom_call f.connect_fn (replicate 4 0) polls_call
      rom_call f.exit_xip (replicate 4 0) polls_call
      set_state (λ s. record s { sectors = replicate 16 0; flash_mode = true }))

  unfoldable pub connect : M (Linked Rp2040Family T) ArmError ℕ
  connect = do
    dpidr ← on_arm (connect_multidrop core0_targetsel)
    set_state (λ s. record s { cur_core = some 0 })
    pure dpidr

  unfoldable pub erase_sector : ℕ → ℕ → M (Linked Rp2040Family T) ArmError (Unit {0})
  erase_sector erase sector = do
    rom_call erase (sector * rp2040_flash_sector ∷ rp2040_flash_sector ∷ 2 ^ 16 ∷ 0xd8 ∷ [])
        polls_erase
    pure tt

  -- Blocks of up to 1024 bytes. Each has a byte at least, so that fuel for each byte is enough.
  unfoldable pub program_loop :
      ℕ → ℕ → List ℕ → ℕ → ℕ → ℕ → M (Linked Rp2040Family T) ArmError (Unit {0})
  program_loop program off bytes span_end zero pos = pure tt
  program_loop program off bytes span_end (suc fuel) pos = do
    let n = min 1024 (span_end - pos)
    let rest = program_loop program off bytes span_end fuel (pos + n)
    if ltb pos span_end
        then (do
          on_arm (write_mem target_stage (padded_bytes off bytes pos n))
          rom_call program (pos ∷ target_stage ∷ n ∷ 0 ∷ []) polls_erase
          rest)
        else pure tt

  unfoldable pub flash_write : ℕ → List ℕ → M (Linked Rp2040Family T) ArmError (Unit {0})
  flash_write addr bytes = do
    let off = minus addr rp2040_flash_base
    let end = (off + length bytes) % 2 ^ 32
    throw_if (ltb rp2040_flash_size end) broken_invariant
    flash_enter
    f ← rom_flash_fns
    let first = off / rp2040_flash_sector
    let last = minus end 1 / rp2040_flash_sector
    erase_pages (λ s. s.sectors) (λ ws s. record s { sectors = ws }) (erase_sector f.erase_fn)
        (last + 1 - first) first
    let pos = off - off % 256
    let span_end = (end + 255) - (end + 255) % 256
    program_loop f.program_fn off bytes span_end (span_end - pos) pos

  -- The two calls are made whatever becomes of them.
  unfoldable pub flash_leave : RomFlashFns → M (Linked Rp2040Family T) ArmError (Unit {0})
  flash_leave f = do
    flushed ← attempt {F = ArmError} (rom_call f.flush (replicate 4 0) polls_call)
    left ← attempt {F = ArmError} (rom_call f.enter_xip (replicate 4 0) polls_call)
    pure tt

  unfoldable pub flash_finish : M (Linked Rp2040Family T) ArmError (Unit {0})
  flash_finish = do
    mode ← gets (λ (l : Linked Rp2040Family T). l.state.flash_mode)
    if not mode then pure tt else (do
      selected ← attempt {F = ArmError} (select_core 0)
      elim selected [
        | inl e ↦ pure tt
        | inr u ↦ do
          found ← attempt {F = ArmError} rom_flash_fns
          elim found [ inl e ↦ pure tt | inr f ↦ flash_leave f ]
      ]
      set_state (λ s. record s { flash_mode = false }))
