-- ===== src/Gdb/Points.antt =====
-- Breakpoints and watchpoints of the GDB server (boards/rpi_pico/src/bin/gdb_server.rs).
pub mod Restored
use rust_dap.Base.{
  ℕ, zero, suc, ◌+◌, ◌-◌, ◌||◌, Bool, true, false, Option, none, some, List, [], ◌∷◌, ◌++◌, length,
  take, replicate, overwrite, get_elem?, leb, ltb, ◌==◌, if◌then◌else◌, M, pure, gets, modify,
  ◌>>=◌, ◌>>◌,
}
use rust_dap.Base.Words.{le_bytes2, from_le}
use rust_dap.Transport.{DapTransport}
use rust_dap.Arm.Port.{ArmError}
use rust_dap.Arm.Bytes.{filled, read_mem, write_mem}
use rust_dap.Arm.Units.{
  WatchAccess, hw_breakpoint_set, hw_breakpoint_clear, watchpoint_set, watchpoint_clear,
}
use rust_dap.Gdb.Session.Control.{SwBpKind, SwBp, RpTarget, arm_step, ignored, cores, select_core}

-- Thumb BKPT #0
abbrev pub bkpt : ℕ
bkpt = 0xbe00

-- `heapless::Vec<SwBp, 8>`
abbrev pub max_breakpoints : ℕ
max_breakpoints = 8

-- `iter().position(|b| b.addr == addr)`, from `i` on, with the breakpoint that is there
unfoldable pub position : List SwBp → ℕ → ℕ → Option (ℕ × SwBp)
position [] addr i = none
position (bp ∷ bps) addr i =
    let rest = position bps addr (i + 1) in if bp.at == addr then some (i, bp) else rest

-- `swap_remove(i)`: the last element takes the place of the `i`-th.
unfoldable pub swap_remove : {A : Type 0} → ℕ → List A → List A
swap_remove i xs = elim (get_elem? xs (length xs - 1)) [
  | none ↦ xs
  | some last ↦ take (length xs - 1) (overwrite i (last ∷ []) xs)
]

module _ {T : Type 0} ⦃t : DapTransport T⦄ where
  abbrev pub set_points : List SwBp → M (RpTarget T) ArmError (Unit {0})
  set_points bps = modify (λ (x : RpTarget T). record x { breakpoints = bps })

  -- A unit is armed on each core, `left` of them from `core` on. Where the second has none free, the
  -- first is disarmed again.
  unfoldable pub arm_each :
      M (RpTarget T) ArmError Bool
      → M (RpTarget T) ArmError Bool
      → ℕ
      → ℕ
      → M (RpTarget T) ArmError Bool
  arm_each arm disarm zero core = pure true
  arm_each arm disarm (suc left) core = do
    select_core core
    armed ← arm
    if armed then arm_each arm disarm left (core + 1) else (do
      if core == 1 then (do ignored (select_core 0); ignored disarm) else pure tt
      pure false)

  unfoldable pub disarm_each :
      M (RpTarget T) ArmError Bool → Bool → ℕ → ℕ → M (RpTarget T) ArmError Bool
  disarm_each disarm any zero core = pure any
  disarm_each disarm any (suc left) core = do
    select_core core
    disarmed ← disarm
    disarm_each disarm (any || disarmed) left (core + 1)

  -- `fpb_set_both`, and `add_hw_breakpoint`
  unfoldable pub fpb_set_both : ℕ → M (RpTarget T) ArmError Bool
  fpb_set_both addr = do
    n ← cores
    arm_each (arm_step (hw_breakpoint_set addr)) (arm_step (hw_breakpoint_clear addr)) n 0

  -- `fpb_clear_both`, and `remove_hw_breakpoint`
  unfoldable pub fpb_clear_both : ℕ → M (RpTarget T) ArmError Bool
  fpb_clear_both addr = do n ← cores; disarm_each (arm_step (hw_breakpoint_clear addr)) false n 0

  unfoldable pub add_hw_watchpoint : ℕ → ℕ → WatchAccess → M (RpTarget T) ArmError Bool
  add_hw_watchpoint addr len access = do
    n ← cores
    arm_each (arm_step (watchpoint_set addr len access))
        (arm_step (watchpoint_clear addr len access)) n 0

  unfoldable pub remove_hw_watchpoint : ℕ → ℕ → WatchAccess → M (RpTarget T) ArmError Bool
  remove_hw_watchpoint addr len access = do
    n ← cores
    disarm_each (arm_step (watchpoint_clear addr len access)) false n 0

  unfoldable pub push_point : ℕ → SwBpKind → M (RpTarget T) ArmError Bool
  push_point addr kind = do
    points ← gets (λ (x : RpTarget T). x.breakpoints)
    set_points (points ++ record { at = addr; kind = kind } ∷ [])
    pure true

  -- A halfword of RAM is saved, and BKPT takes its place.
  unfoldable pub patch_ram : ℕ → M (RpTarget T) ArmError Bool
  patch_ram addr = do
    orig ← arm_step (λ a. filled (read_mem addr (a, replicate 2 0)))
    arm_step (write_mem addr (le_bytes2 bkpt))
    push_point addr (SwBpKind.ram (from_le orig))

  unfoldable pub promote : ℕ → M (RpTarget T) ArmError Bool
  promote addr = do
    armed ← fpb_set_both addr
    if armed then push_point addr SwBpKind.fpb else pure false

  unfoldable pub add_sw_breakpoint : ℕ → M (RpTarget T) ArmError Bool
  add_sw_breakpoint addr = do
    points ← gets (λ (x : RpTarget T). x.breakpoints)
    if leb max_breakpoints (length points)
        then pure false
        else if ltb addr 0x2000_0000
        then promote addr
        else patch_ram addr

  unfoldable pub undo : ℕ → SwBpKind → M (RpTarget T) ArmError Bool
  undo addr (SwBpKind.ram orig) = do arm_step (write_mem addr (le_bytes2 orig)); pure true
  undo addr SwBpKind.fpb = fpb_clear_both addr

  unfoldable pub remove_sw_breakpoint : ℕ → M (RpTarget T) ArmError Bool
  remove_sw_breakpoint addr = do
    points ← gets (λ (x : RpTarget T). x.breakpoints)
    elim (position points addr 0) [
      | none ↦ pure false
      | some found ↦ do set_points (swap_remove found.0 points); undo addr found.1.kind
    ]
