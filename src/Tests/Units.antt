-- ===== src/Tests/Units.antt =====
-- The laws of hardware breakpoints on an FPB unit with four comparators, of the first version.
use rust_dap.Base.{
  ℕ, ◌+◌, ◌-◌, ◌*◌, ◌/◌, ◌≡◌, refl, ap, ◌>>=◌, Bool, true, false, if◌then◌else◌, ◌==◌, some, ok,
  arith,
}
use rust_dap.Arm.Port.{
  ArmDebug, new, access_request, access_loop, transfer, dp_read, dp_write, select_ap_bank, ap_write,
  ap_read,
}
use rust_dap.Arm.Memory.{ensure_csw, read_word, write_word}
use rust_dap.Arm.Target.{Bus, Target, Holds}
use rust_dap.Arm.Units.{
  fp_ctrl, fp_comp0, fpb_comp_value, set_comp, scan_comps, take_comp, hw_breakpoint_set,
  hw_breakpoint_at,
}
use rust_dap.Arm.Units.Breakpoints.{IsFpb, Searched, SetDone, hw_breakpoint_at-ok}
use rust_dap.Arm.Units.Breakpoints.Set.{hw_breakpoint_set-ok, hw_breakpoint_at-set}
use rust_dap.Tests.Simulated.{simulated, itself, simulated-IsTarget}
use rust_dap.Tests.Board.{config}

pub record Fpb : Type 0 where
  pub comps : ℕ → ℕ

abbrev number : ℕ → ℕ
number addr = (addr - fp_comp0) / 4

abbrev load_unit : ℕ → Fpb → ℕ × Fpb
load_unit addr b = if addr == fp_ctrl then (0x40, b) else (b.comps (number addr), b)

abbrev store_unit : ℕ → ℕ → Fpb → Fpb
store_unit addr v b =
    if addr == fp_ctrl then b else record { comps = λ j. if number addr == j then v else b.comps j }

instance abbrev fpb_bus : Bus Fpb
fpb_bus = record { load = load_unit; store = store_unit }

abbrev comp : Fpb → ℕ → ℕ
comp b = b.comps

number_of : (i : ℕ) → number (fp_comp0 + 4 * i) ≡ i
number_of i = omega arith

apart : (i : ℕ) → (fp_comp0 + 4 * i == fp_ctrl) ≡ false
apart i = ground arith

fpb_bus-IsFpb : IsFpb fpb_bus 0 4 comp
fpb_bus-IsFpb = record {
  ctrl_load = λ b. (0x40, refl, refl, refl);
  ctrl_store = λ v i b. refl;
  comp_load = λ i b small. ground (arith, apart i, ap b.comps (number_of i));
  comp_store = λ i v j b small h. ground (arith, apart i, number_of i);
}

abbrev probe : ArmDebug (Target Fpb)
probe =
    new (record { select = 7; csw = 0; tar = 0; posted = 0; bus = record { comps = λ i. 0 } })
      config

abbrev unit_at_rest : Fpb
unit_at_rest = record { comps = λ i. 0 }

probe-Holds : Holds itself probe unit_at_rest
probe-Holds = record {
  held_synced = (refl, λ e. absurd (omega arith));
  held_csw = λ e. cc;
  held_bus = refl;
}

value_lem : fpb_comp_value 0x1000 0 ≡ some 0x4000_1001
unfolding fpb_comp_value
value_lem = refl

hw_breakpoint_set-ok_example :
    (a' : ArmDebug (Target Fpb)) × (b' : Fpb) × (done : Bool) × (hw_breakpoint_set 0x1000 probe
      ≡ (ok done, a'))
    × Holds itself a' b'
    × SetDone 4 comp unit_at_rest b' 0x4000_1001 done
hw_breakpoint_set-ok_example =
    hw_breakpoint_set-ok itself simulated-IsTarget 0 4 comp fpb_bus-IsFpb 0x1000 0x4000_1001 probe
      unit_at_rest value_lem probe-Holds

abbrev after_set : ArmDebug (Target Fpb)
after_set = (hw_breakpoint_set 0x1000 probe).1

set_run : hw_breakpoint_set 0x1000 probe ≡ (ok true, after_set)
unfolding hw_breakpoint_set ◌>>=◌ read_word ensure_csw ap_write select_ap_bank dp_write transfer
    access_loop access_request ap_read dp_read fpb_comp_value set_comp write_word scan_comps
    take_comp
set_run = refl

hw_breakpoint_at-set_example :
    (a2 : ArmDebug (Target Fpb)) × (hw_breakpoint_at 0x1000 after_set ≡ (ok true, a2))
hw_breakpoint_at-set_example =
    hw_breakpoint_at-set itself simulated-IsTarget 0 4 comp fpb_bus-IsFpb 0x1000 0x4000_1001 probe
      after_set unit_at_rest value_lem probe-Holds set_run

hw_breakpoint_at-ok_example :
    (a' : ArmDebug (Target Fpb)) × (found : Bool) × (hw_breakpoint_at 0x1000 probe ≡ (ok found, a'))
    × Holds itself a' unit_at_rest
    × Searched 4 comp unit_at_rest 0 0x4000_1001 found
hw_breakpoint_at-ok_example =
    hw_breakpoint_at-ok itself simulated-IsTarget 0 4 comp fpb_bus-IsFpb 0x1000 0x4000_1001 probe
      unit_at_rest value_lem probe-Holds
