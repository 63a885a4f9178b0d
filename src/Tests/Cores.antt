-- ===== src/Tests/Cores.antt =====
-- The laws of calls on a target with a halted core, and of the accesses that they are made of.
use rust_dap.Base.{
  Bool, ℕ, suc, ◌+◌, ◌-◌, ◌*◌, ◌≡◌, ◌<◌, refl, ap, ◌∙◌, if◌then◌else◌, ◌==◌, ltb, true, false, ◌⊎◌,
  [], ◌∷◌, map, bit_or, ok, err, arith,
}
use rust_dap.Base.Words.{contains}
use rust_dap.Base.Bits.{bit_or_pow}
use rust_dap.Arm.Port.{ArmDebug, new, core_timeout, Port, transfer, access_request}
use rust_dap.Arm.Port.Policy.{IsAccess, transfer-IsAccess}
use rust_dap.Arm.Target.{Bus, Target, Holds}
use rust_dap.Arm.Connect.Polls.{load_until}
use rust_dap.Arm.Core.{dhcsr, dcrsr, dcrdr, dcrsr_regwnr, s_regrdy}
use rust_dap.Arm.Core.Registers.{IsCore, is_halting, until_ready}
use rust_dap.Arm.Call.{clobbered, call_function}
use rust_dap.Arm.Call.Setup.{started}
use rust_dap.Arm.Call.Restored.{released, halted_again, call_function-ok}
use rust_dap.Tests.Simulated.{simulated, itself, simulated-IsTarget}
use rust_dap.Tests.Board.{config}

pub record Halted : Type 0 where
  pub held_regs : ℕ → ℕ
  pub latch : ℕ
  pub stopped : Bool

-- A function ends as soon as DHCSR is read.
abbrev load_core : ℕ → Halted → ℕ × Halted
load_core addr b =
    if addr == dhcsr
    then (0x30000, record b { stopped = true })
    else if addr == dcrdr
    then (b.latch, b)
    else (0, b)

abbrev select_reg : ℕ → Halted → Halted
select_reg v b =
    if ltb v 0x10000
    then record b { latch = b.held_regs v }
    else record b { held_regs = λ j. if v - 0x10000 == j then b.latch else b.held_regs j }

abbrev store_core : ℕ → ℕ → Halted → Halted
store_core addr v b =
    if addr == dcrsr
    then select_reg v b
    else if addr == dcrdr
    then record b { latch = v }
    else if addr == dhcsr
    then record b { stopped = is_halting v }
    else b

instance abbrev pub halted_bus : Bus Halted
halted_bus = record { load = load_core; store = store_core }

abbrev pub regs : Halted → ℕ → ℕ
regs b = b.held_regs

abbrev pub halted : Halted → Bool
halted b = b.stopped

load_until_now :
    (n : ℕ) (b : Halted)
    → load_until (suc n) dhcsr (λ v. contains v s_regrdy) b ≡ (true, record b { stopped = true })
unfolding load_until
load_until_now n b = refl

ready : (b : Halted) → until_ready b ≡ (true, record b { stopped = true })
ready b = load_until_now 4095 b

reading : (r : ℕ) (b : Halted) → r < 128 → select_reg r b ≡ record b { latch = b.held_regs r }
reading r b small = ground arith

above : (r : ℕ) → r < 128 → bit_or r dcrsr_regwnr ≡ r + 0x10000
above r small = bit_or_pow 16 r (omega arith)

not_below : (r : ℕ) → ltb (r + 0x10000) 0x10000 ≡ false
not_below r = ground arith

back : (r : ℕ) → r + 0x10000 - 0x10000 ≡ r
back r = omega arith

writing :
    (r : ℕ) (b : Halted)
    → r < 128
    → select_reg (bit_or r dcrsr_regwnr) b
      ≡ record b { held_regs = λ j. if r == j then b.latch else b.held_regs j }
writing r b small = rw (above r small) (rw (not_below r) (rw (back r) refl))

store_memory : (addr v : ℕ) (b : Halted) → addr < 0xe000_0000 → store_core addr v b ≡ b
store_memory addr v b low = ground arith

pub halted_bus-IsCore : IsCore regs halted
halted_bus-IsCore = record {
  ready_read = λ r b small s. ap (λ x. x.0) (ready (select_reg r b));
  core_read = λ r b small s.
      ap (λ x. x.1.latch) (ready (select_reg r b)) ∙ ap (λ x. x.latch) (reading r b small);
  read_keeps = λ r j b small s.
      ap (λ x. x.1.held_regs j) (ready (select_reg r b))
      ∙ ap (λ x. x.held_regs j) (reading r b small);
  read_halted = λ r b small s. ap (λ x. x.1.stopped) (ready (select_reg r b));
  ready_write = λ r v b small s.
      ap (λ x. x.0) (ready (select_reg (bit_or r dcrsr_regwnr) (record b { latch = v })));
  core_write = λ r v j b small s.
      ap (λ x. x.1.held_regs j)
        (ready (select_reg (bit_or r dcrsr_regwnr) (record b { latch = v })))
      ∙ ap (λ x. x.held_regs j) (writing r (record b { latch = v }) small);
  write_halted = λ r v b small s.
      ap (λ x. x.1.stopped) (ready (select_reg (bit_or r dcrsr_regwnr) (record b { latch = v })));
  halt_keeps = λ v j b h s. refl;
  halt_halted = λ v b h s. h;
  store_keeps = λ addr v j b low s. ap (λ x. x.held_regs j) (store_memory addr v b low);
  store_halted = λ addr v b low s. ap (λ x. x.stopped) (store_memory addr v b low) ∙ s;
  status_halted = λ b h. refl;
}

abbrev pub core : Halted
core = record { held_regs = λ j. j * 17; latch = 0; stopped = true }

abbrev pub probe : ArmDebug (Target Halted)
probe = new (record { select = 7; csw = 0; tar = 0; posted = 0; bus = core }) config

pub probe-Holds : Holds itself probe core
probe-Holds = record {
  held_synced = (refl, λ e. absurd (omega arith));
  held_csw = λ e. cc;
  held_bus = refl;
}

call_function-ok_example :
    (a' : ArmDebug (Target Halted)) × (b0 : Halted) × (b' : Halted) × Holds itself a' b'
    × (halted b0 ≡ true)
    × ((j : ℕ) → regs b0 j ≡ started 0x1234 (5 ∷ 6 ∷ []) 0x2000_8000 0x2000_7000 (regs core) j)
    × (let (came, b1) = released 10 b0 in
        ((came ≡ true)
          × (call_function 0x1234 (5 ∷ 6 ∷ []) 0x2000_8000 0x2000_7000 10 probe
              ≡ (ok (regs b1 0), a'))
          × (map (regs b') clobbered ≡ map (regs core) clobbered)
          × (halted b' ≡ true))
        ⊎ ((came ≡ false)
            × (call_function 0x1234 (5 ∷ 6 ∷ []) 0x2000_8000 0x2000_7000 10 probe
                ≡ (err core_timeout, a'))
            × (b' ≡ halted_again b1)))
call_function-ok_example =
    call_function-ok itself simulated-IsTarget regs halted halted_bus-IsCore 0x1234 (5 ∷ 6 ∷ [])
      0x2000_8000 0x2000_7000 10 probe core (omega arith) refl probe-Holds

transfer-IsAccess_example :
    IsAccess (access_request Port.access true 4) 0 64 probe (transfer Port.access true 4 0 probe)
transfer-IsAccess_example = transfer-IsAccess Port.access true 4 0 probe
