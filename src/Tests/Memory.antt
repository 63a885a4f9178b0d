-- ===== src/Tests/Memory.antt =====
-- The laws of memory access on a target with memory.
use rust_dap.Base.{ℕ, ◌≡◌, refl, if◌then◌else◌, [], ◌∷◌, ok, err, arith}
use rust_dap.Arm.Port.{ArmDebug, new}
use rust_dap.Arm.Target.{Target, Holds}
use rust_dap.Arm.Ram.{Ram, ram, bytes_at, byte_at}
use rust_dap.Arm.Port.{core_timeout}
use rust_dap.Arm.Nordic.{rramc_config, nrf54_program}
use rust_dap.Arm.Nordic.Runs.{programmed, nrf54_program-ok}
use rust_dap.Arm.Bytes.{read_mem, write_mem}
use rust_dap.Arm.Bytes.Patch.{patched}
use rust_dap.Arm.Bytes.Read.{read_mem-ok}
use rust_dap.Arm.Bytes.Write.{write_mem-ok}
use rust_dap.Arm.Bytes.RoundTrip.{read_mem-write_mem}
use rust_dap.Tests.Simulated.{simulated, itself, simulated-IsTarget}
use rust_dap.Tests.Board.{config}

abbrev target : Target Ram
target = record { select = 7; csw = 0; tar = 0; posted = 0; bus = λ addr. addr }

abbrev probe : ArmDebug (Target Ram)
probe = new target config

probe-Holds : Holds itself probe target.bus
probe-Holds = record {
  held_synced = (refl, λ e. absurd (omega arith));
  held_csw = λ e. cc;
  held_bus = refl;
}

-- Seven bytes across the end of a block.
read_mem-ok_example :
    (a' : ArmDebug (Target Ram)) × (read_mem 1021 (probe, 0 ∷ 0 ∷ 0 ∷ 0 ∷ 0 ∷ 0 ∷ 0 ∷ [])
      ≡ (ok tt, (a', bytes_at 1021 7 target.bus)))
    × Holds itself a' target.bus
read_mem-ok_example =
    read_mem-ok itself simulated-IsTarget 1021 probe (0 ∷ 0 ∷ 0 ∷ 0 ∷ 0 ∷ 0 ∷ 0 ∷ []) target.bus
      (omega arith) probe-Holds

write_mem-ok_example :
    (a' : ArmDebug (Target Ram)) × (m' : Ram) × (write_mem 1021
        (1 ∷ 2 ∷ 3 ∷ 4 ∷ 5 ∷ 6 ∷ 7 ∷ 8 ∷ [])
        probe
      ≡ (ok tt, a'))
    × Holds itself a' m'
    × ((i : ℕ) → byte_at m' i ≡ patched 1021 8 (1 ∷ 2 ∷ 3 ∷ 4 ∷ 5 ∷ 6 ∷ 7 ∷ 8 ∷ []) target.bus i)
write_mem-ok_example =
    write_mem-ok itself simulated-IsTarget 1021 (1 ∷ 2 ∷ 3 ∷ 4 ∷ 5 ∷ 6 ∷ 7 ∷ 8 ∷ []) probe
      target.bus (omega arith) (omega arith) probe-Holds

read_mem-write_mem_example :
    (a1 : ArmDebug (Target Ram)) × (a2 : ArmDebug (Target Ram)) × (write_mem 1022
        (9 ∷ 8 ∷ 7 ∷ 6 ∷ 5 ∷ 4 ∷ 3 ∷ [])
        probe
      ≡ (ok tt, a1))
    × (read_mem 1022 (a1, 0 ∷ 0 ∷ 0 ∷ 0 ∷ 0 ∷ 0 ∷ 0 ∷ [])
        ≡ (ok tt, (a2, 9 ∷ 8 ∷ 7 ∷ 6 ∷ 5 ∷ 4 ∷ 3 ∷ [])))
read_mem-write_mem_example =
    read_mem-write_mem itself simulated-IsTarget 1022 (9 ∷ 8 ∷ 7 ∷ 6 ∷ 5 ∷ 4 ∷ 3 ∷ [])
      (0 ∷ 0 ∷ 0 ∷ 0 ∷ 0 ∷ 0 ∷ 0 ∷ []) probe target.bus (omega arith) (omega arith) refl probe-Holds

-- Three words from the last of a block on.
nrf54_program-ok_example :
    (a' : ArmDebug (Target Ram)) × (nrf54_program 1020 (7 ∷ 8 ∷ 9 ∷ []) 5 probe
      ≡ (if (programmed 1020 (7 ∷ 8 ∷ 9 ∷ []) 5 target.bus).0 then ok tt else err core_timeout, a'))
    × Holds itself a' (
        if (programmed 1020 (7 ∷ 8 ∷ 9 ∷ []) 5 target.bus).0
        then ram.store rramc_config 0 (programmed 1020 (7 ∷ 8 ∷ 9 ∷ []) 5 target.bus).1
        else (programmed 1020 (7 ∷ 8 ∷ 9 ∷ []) 5 target.bus).1)
nrf54_program-ok_example =
    nrf54_program-ok itself simulated-IsTarget 1020 7 (8 ∷ 9 ∷ []) 5 probe target.bus refl
      (omega arith) probe-Holds
