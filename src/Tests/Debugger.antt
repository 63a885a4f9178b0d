-- ===== src/Tests/Debugger.antt =====
-- The laws of the GDB server on a target with memory.
use rust_dap.Base.{ℕ, ◌*◌, ◌≡◌, refl, true, false, none, List, [], ◌∷◌, map, replicate, ok, arith}
use rust_dap.Base.Quiet.{Ends}
use rust_dap.Base.Words.{le_bytes2}
use rust_dap.Arm.Port.{ArmDebug, new}
use rust_dap.Arm.Target.{Target, Holds}
use rust_dap.Arm.Ram.{Ram, ram, byte_at}
use rust_dap.Arm.Bytes.Patch.{patched}
use rust_dap.Gdb.Family.{nrf54}
use rust_dap.Gdb.Session.Control.{CoreAction, RpTarget, connect_and_halt}
use rust_dap.Gdb.Rtt.{strip_prefix, parse_hex}
use rust_dap.Gdb.Rtt.Hex.{spelled, IsBounded, parse_hex-spelled}
use rust_dap.Gdb.Session.Running.{poll_stopped}
use rust_dap.Gdb.Session.Running.Connects.{connect_and_halt-none}
use rust_dap.Gdb.Session.Running.Stops.{IsPolled, poll_stopped-IsPolled}
use rust_dap.Gdb.Access.{gdb_regs, read_registers, write_registers}
use rust_dap.Gdb.Access.Registers.{read_registers-write}
use rust_dap.Gdb.Points.{bkpt, position, add_sw_breakpoint, remove_sw_breakpoint}
use rust_dap.Gdb.Points.Restored.{remove_sw_breakpoint-add}
use rust_dap.Tests.Simulated.{simulated, itself, simulated-IsTarget}
use rust_dap.Tests.Board.{config}
use rust_dap.Tests.Cores.{
  Halted, halted_bus, halted_bus-IsCore, regs, halted, core, probe, probe-Holds,
}

abbrev memory : Ram
memory addr = addr

abbrev session : {B : Type 0} → ArmDebug (Target B) → RpTarget (Target B)
session a = record {
  linked = record { state = nrf54; link = a };
  breakpoints = [];
  actions = replicate 2 CoreAction.default;
  running = replicate 2 false;
  stepped = none;
  sched_lock = false;
  diag = replicate 11 0;
  rtt = record { cb = none; channel = 0; up_desc = none; down_desc = none };
}

abbrev server : RpTarget (Target Ram)
server = session (new (record { select = 7; csw = 0; tar = 0; posted = 0; bus = memory }) config)

server-Holds : Holds itself server.linked.link memory
server-Holds = record {
  held_synced = (refl, λ e. absurd (omega arith));
  held_csw = λ e. cc;
  held_bus = refl;
}

no_points : position server.breakpoints 0x2000_0002 0 ≡ none
unfolding position
no_points = refl

remove_sw_breakpoint-add_example :
    (x1 x2 : RpTarget (Target Ram)) × (m1 m2 : Ram) × (add_sw_breakpoint 0x2000_0002 server
      ≡ (ok true, x1))
    × Holds itself x1.linked.link m1
    × ((i : ℕ) → byte_at m1 i ≡ patched 0x2000_0002 2 (le_bytes2 bkpt) memory i)
    × (remove_sw_breakpoint 0x2000_0002 x1 ≡ (ok true, x2))
    × Holds itself x2.linked.link m2
    × ((i : ℕ) → byte_at m2 i ≡ byte_at memory i)
    × (x2.breakpoints ≡ [])
remove_sw_breakpoint-add_example =
    remove_sw_breakpoint-add itself simulated-IsTarget 0x2000_0002 server memory (omega arith)
      (omega arith) (omega arith) no_points server-Holds

-- A core that runs, on a target that never says that it has halted.
abbrev running_server : RpTarget (Target Ram)
running_server = record server { running = true ∷ false ∷ [] }

poll_stopped-IsPolled_example : IsPolled running_server (poll_stopped running_server)
poll_stopped-IsPolled_example = poll_stopped-IsPolled running_server

-- Each register is written with its number, squared.
read_registers-write_example :
    (x1 x2 : RpTarget (Target Halted)) × (write_registers
        (map (λ j. j * j) gdb_regs)
        1
        (session probe)
      ≡ (ok tt, x1))
    × (read_registers 1 x1 ≡ (ok (map (λ j. j * j) gdb_regs), x2))
read_registers-write_example =
    read_registers-write itself simulated-IsTarget regs halted halted_bus-IsCore (λ j. j * j) 1
      (session probe) core refl refl probe-Holds

-- `0x20aF`
abbrev argument : List ℕ
argument = 0x30 ∷ 0x78 ∷ 0x32 ∷ 0x30 ∷ 0x61 ∷ 0x46 ∷ []

parse_hex-spelled_example :
    (parse_hex argument ≡ spelled (strip_prefix argument)) × IsBounded (parse_hex argument)
parse_hex-spelled_example = parse_hex-spelled argument

connect_and_halt-none_example :
    Ends (λ u x'. x'.running ≡ replicate 2 false) (connect_and_halt running_server)
connect_and_halt-none_example = connect_and_halt-none running_server
