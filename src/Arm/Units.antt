-- ===== src/Arm/Units.antt =====
-- Hardware breakpoints and watchpoints: FPB and DWT (arm-debug/src/lib.rs).
pub mod Breakpoints
use rust_dap.Base.{
  ℕ, zero, suc, ◌+◌, ◌-◌, ◌*◌, ◌/◌, ◌%◌, ◌^◌, Bool, true, false, not, ◌||◌, bit_and, bit_or, Option,
  none, some, ◌==◌, leb, if◌then◌else◌, ◌⊎◌, inl, inr, M, pure, ◌>>=◌, ◌>>◌,
}
use rust_dap.Base.Words.{contains}
use rust_dap.Base.Bits.{low_bit}
use rust_dap.Transport.{DapTransport}
use rust_dap.Arm.Port.{ArmDebug, ArmError}
use rust_dap.Arm.Memory.{read_word, write_word}
use rust_dap.Arm.Core.{demcr, dfsr}

abbrev pub fp_ctrl : ℕ
fp_ctrl = 0xe000_2000

abbrev pub fp_comp0 : ℕ
fp_comp0 = 0xe000_2008

abbrev pub ctrl_key : ℕ
ctrl_key = 2 ^ 1

abbrev pub ctrl_enable : ℕ
ctrl_enable = 2 ^ 0

abbrev pub dwt_ctrl : ℕ
dwt_ctrl = 0xe000_1000

abbrev pub dwt_comp0 : ℕ
dwt_comp0 = 0xe000_1020

abbrev pub dwt_mask0 : ℕ
dwt_mask0 = 0xe000_1024

abbrev pub dwt_function0 : ℕ
dwt_function0 = 0xe000_1028

abbrev pub func_matched : ℕ
func_matched = 2 ^ 24

abbrev pub demcr_dwtena : ℕ
demcr_dwtena = 2 ^ 24

pub data WatchAccess : Type 0 where
  read : WatchAccess
  write : WatchAccess
  read_write : WatchAccess

-- `WatchAccess::function`
abbrev pub function : WatchAccess → ℕ
function WatchAccess.read = 5
function WatchAccess.write = 6
function WatchAccess.read_write = 7

pub data HaltReason : Type 0 where
  breakpoint : HaltReason
  watchpoint : ℕ → WatchAccess → HaltReason
  halt_request : HaltReason
  vector_catch : HaltReason
  unknown : HaltReason

-- The fields of FP_CTRL: bits 14 to 12 and 7 to 4 are a number, and bits 31 to 28 the revision.
abbrev pub num_comps : ℕ → ℕ
num_comps ctrl = ctrl / 2 ^ 12 % 8 * 2 ^ 4 + ctrl / 2 ^ 4 % 16

abbrev pub revision : ℕ → ℕ
revision ctrl = ctrl / 2 ^ 28 % 16

-- The fields that the source joins by `|` have no bit in common, so that they are added:
-- `replace << 30`, `addr & 0x1FFF_FFFC` and COMP_ENABLE, or `addr & 0xFFFF_FFFE` and COMP_ENABLE.
unfoldable pub fpb_comp_value : ℕ → ℕ → Option ℕ
fpb_comp_value addr rev =
    if leb 1 rev
    then some (addr - addr % 2 + 1)
    else if leb 0x2000_0000 addr
    then none
    else some ((if addr / 2 % 2 == 0 then 1 else 2) * 2 ^ 30 + addr / 4 % 2 ^ 27 * 4 + 1)

-- `len.is_power_of_two()`, for a `len` that is not 0
abbrev pub is_power_of_two : ℕ → Bool
is_power_of_two len = bit_and len (len - 1) == 0

-- `len.trailing_zeros()`, of a word of `n` bits
unfoldable pub trailing_zeros : ℕ → ℕ → ℕ
trailing_zeros zero len = 0
trailing_zeros (suc n) len = if low_bit len then 0 else suc (trailing_zeros n (len / 2))

abbrev pub decoded_access : ℕ → WatchAccess
decoded_access found =
    if found % 16 == 5
    then WatchAccess.read
    else if found % 16 == 6
    then WatchAccess.write
    else WatchAccess.read_write

abbrev pub is_free : Option ℕ → ℕ → Bool
is_free none comp = not (low_bit comp)
is_free (some i) comp = false

module _ {T : Type 0} ⦃t : DapTransport T⦄ where
  unfoldable pub fpb_num_comps : M (ArmDebug T) ArmError ℕ
  fpb_num_comps = do ctrl ← read_word fp_ctrl; pure (num_comps ctrl)

  unfoldable pub fpb_rev : M (ArmDebug T) ArmError ℕ
  fpb_rev = do ctrl ← read_word fp_ctrl; pure (revision ctrl)

  -- The comparators from the `i`-th on: whether one of them holds `value`, and else the first that
  -- is free. `left` is `n - i`.
  unfoldable pub scan_comps : ℕ → ℕ → ℕ → Option ℕ → M (ArmDebug T) ArmError (Bool ⊎ Option ℕ)
  scan_comps value zero i free = pure (inr free)
  scan_comps value (suc left) i free = do
    comp ← read_word (fp_comp0 + 4 * i)
    let rest = scan_comps value left (i + 1) (if is_free free comp then some i else free)
    if comp == value then pure (inl true) else rest

  unfoldable pub take_comp : ℕ → Bool ⊎ Option ℕ → M (ArmDebug T) ArmError Bool
  take_comp value (inl found) = pure found
  take_comp value (inr none) = pure false
  take_comp value (inr (some i)) = do write_word (fp_comp0 + 4 * i) value; pure true

  unfoldable pub set_comp : ℕ → ℕ → M (ArmDebug T) ArmError Bool
  set_comp ctrl value = if num_comps ctrl == 0 then pure false else (do
    write_word fp_ctrl (bit_or (bit_or ctrl ctrl_key) ctrl_enable)
    free ← scan_comps value (num_comps ctrl) 0 none
    take_comp value free)

  -- The early return of `let Some(value) = ... else`
  abbrev pub or_false : Option ℕ → (ℕ → M (ArmDebug T) ArmError Bool) → M (ArmDebug T) ArmError Bool
  or_false none act = pure false
  or_false (some value) act = act value

  unfoldable pub hw_breakpoint_set : ℕ → M (ArmDebug T) ArmError Bool
  hw_breakpoint_set addr = do
    ctrl ← read_word fp_ctrl
    or_false (fpb_comp_value addr (revision ctrl)) (set_comp ctrl)

  unfoldable pub clear_loop : ℕ → ℕ → ℕ → M (ArmDebug T) ArmError Bool
  clear_loop value zero i = pure false
  clear_loop value (suc left) i = do
    comp ← read_word (fp_comp0 + 4 * i)
    let rest = clear_loop value left (i + 1)
    if comp == value then (do write_word (fp_comp0 + 4 * i) 0; pure true) else rest

  unfoldable pub hw_breakpoint_clear : ℕ → M (ArmDebug T) ArmError Bool
  hw_breakpoint_clear addr = do
    rev ← fpb_rev
    or_false (fpb_comp_value addr rev) (λ value. do n ← fpb_num_comps; clear_loop value n 0)

  unfoldable pub find_loop : ℕ → ℕ → ℕ → M (ArmDebug T) ArmError Bool
  find_loop value zero i = pure false
  find_loop value (suc left) i = do
    comp ← read_word (fp_comp0 + 4 * i)
    let rest = find_loop value left (i + 1)
    if comp == value then pure true else rest

  unfoldable pub hw_breakpoint_at : ℕ → M (ArmDebug T) ArmError Bool
  hw_breakpoint_at addr = do
    rev ← fpb_rev
    or_false (fpb_comp_value addr rev) (λ value. do n ← fpb_num_comps; find_loop value n 0)

  unfoldable pub dwt_num_comps : M (ArmDebug T) ArmError ℕ
  dwt_num_comps = do ctrl ← read_word dwt_ctrl; pure (ctrl / 2 ^ 28 % 16)

  unfoldable pub watch_loop : ℕ → ℕ → WatchAccess → ℕ → ℕ → M (ArmDebug T) ArmError Bool
  watch_loop addr len access zero i = pure false
  watch_loop addr len access (suc left) i = do
    found ← read_word (dwt_function0 + 0x10 * i)
    let rest = watch_loop addr len access left (i + 1)
    if found % 16 == 0
        then (do
          write_word (dwt_comp0 + 0x10 * i) addr
          write_word (dwt_mask0 + 0x10 * i) (trailing_zeros 32 len)
          write_word (dwt_function0 + 0x10 * i) (function access)
          pure true)
        else rest

  unfoldable pub enable_watch : ℕ → ℕ → WatchAccess → ℕ → M (ArmDebug T) ArmError Bool
  enable_watch addr len access n = if n == 0 then pure false else (do
    enabled ← read_word demcr
    write_word demcr (bit_or enabled demcr_dwtena)
    watch_loop addr len access n 0)

  unfoldable pub watchpoint_set : ℕ → ℕ → WatchAccess → M (ArmDebug T) ArmError Bool
  watchpoint_set addr len access =
      if len == 0 || not (is_power_of_two len) || not (bit_and addr (len - 1) == 0)
      then pure false
      else (do n ← dwt_num_comps; enable_watch addr len access n)

  -- The tests that `&&` joins, each made only where those before it hold.
  unfoldable pub watch_matches : ℕ → ℕ → WatchAccess → ℕ → M (ArmDebug T) ArmError Bool
  watch_matches addr len access i = do
    found ← read_word (dwt_function0 + 0x10 * i)
    if found % 16 == function access
        then (do
          comp ← read_word (dwt_comp0 + 0x10 * i)
          if comp == addr
              then (do
                mask ← read_word (dwt_mask0 + 0x10 * i)
                pure (mask == trailing_zeros 32 len))
              else pure false)
        else pure false

  unfoldable pub unwatch_loop : ℕ → ℕ → WatchAccess → ℕ → ℕ → M (ArmDebug T) ArmError Bool
  unwatch_loop addr len access zero i = pure false
  unwatch_loop addr len access (suc left) i = do
    found ← watch_matches addr len access i
    let rest = unwatch_loop addr len access left (i + 1)
    if found then (do write_word (dwt_function0 + 0x10 * i) 0; pure true) else rest

  unfoldable pub watchpoint_clear : ℕ → ℕ → WatchAccess → M (ArmDebug T) ArmError Bool
  watchpoint_clear addr len access =
      if len == 0 || not (is_power_of_two len)
      then pure false
      else (do n ← dwt_num_comps; unwatch_loop addr len access n 0)

  -- `for i in 0..n { self.write_word(base + stride * i, 0)?; }`
  unfoldable pub zero_loop : ℕ → ℕ → ℕ → ℕ → M (ArmDebug T) ArmError (Unit {0})
  zero_loop base stride zero i = pure tt
  zero_loop base stride (suc left) i = do
    write_word (base + stride * i) 0
    zero_loop base stride left (i + 1)

  unfoldable pub debug_units_clear : M (ArmDebug T) ArmError (Unit {0})
  debug_units_clear = do
    n ← fpb_num_comps
    zero_loop fp_comp0 4 n 0
    n ← dwt_num_comps
    zero_loop dwt_function0 0x10 n 0

  unfoldable pub matched_loop : ℕ → ℕ → M (ArmDebug T) ArmError HaltReason
  matched_loop zero i = pure (HaltReason.watchpoint 0 WatchAccess.read_write)
  matched_loop (suc left) i = do
    found ← read_word (dwt_function0 + 0x10 * i)
    let rest = matched_loop left (i + 1)
    if contains found func_matched
        then (do
          addr ← read_word (dwt_comp0 + 0x10 * i)
          pure (HaltReason.watchpoint addr (decoded_access found)))
        else rest

  unfoldable pub halt_reason : M (ArmDebug T) ArmError HaltReason
  halt_reason = do
    status ← read_word dfsr
    write_word dfsr status
    if contains status (2 ^ 2)
        then (do n ← dwt_num_comps; matched_loop n 0)
        else if contains status (2 ^ 1)
        then pure HaltReason.breakpoint
        else if contains status (2 ^ 3)
        then pure HaltReason.vector_catch
        else if contains status (2 ^ 0)
        then pure HaltReason.halt_request
        else pure HaltReason.unknown
