-- ===== src/Gdb/Family.antt =====
-- The families of targets, and their flash (boards/rpi_pico/src/bin/gdb_server.rs). Arithmetic on a
-- u32 wraps.
pub mod Rp2040
pub mod Nordic
use rust_dap.Base.{
  ℕ, zero, suc, ◌+◌, ◌-◌, ◌*◌, ◌/◌, ◌%◌, ◌^◌, min, Bool, true, false, not, ◌&&◌, bit_and, bit_or,
  Option, none, some, List, [], ◌∷◌, length, take, drop, replicate, overwrite, get_elem?, leb, ltb,
  ◌==◌, if◌then◌else◌, M, pure, throw, panicking, throw_if, gets, modify, from_option, attempt,
  index, zoom, ◌⊎◌, inl, inr, ◌>>=◌, ◌>>◌,
}
use rust_dap.Base.Words.{from_le, le_bytes4}
use rust_dap.Transport.{DapTransport}
use rust_dap.Arm.Port.{ArmDebug, ArmError, broken_invariant, no_target}
use rust_dap.Arm.Memory.{read_word}
use rust_dap.Arm.Bytes.{write_mem}
use rust_dap.Arm.Connect.{connect_multidrop, connect_swd, reselect}
use rust_dap.Arm.Nordic.{flash_page, nrf52_erase_page, nrf52_program, nrf54_program}
use rust_dap.Arm.Call.{rom_func_lookup, call_function}

-- `rp2040::CORE0_TARGETSEL`, `rp2040::CORE1_TARGETSEL`
abbrev pub core0_targetsel : ℕ
core0_targetsel = 0x0100_2927

abbrev pub core1_targetsel : ℕ
core1_targetsel = 0x1100_2927

-- `CORE_TARGETSEL`
abbrev pub core_targetsel : List ℕ
core_targetsel = core0_targetsel ∷ core1_targetsel ∷ []

-- `nrf52::DPIDR`, `nrf54::DPIDR`
abbrev pub nrf52_dpidr : ℕ
nrf52_dpidr = 0x2ba0_1477

abbrev pub nrf54_dpidr : ℕ
nrf54_dpidr = 0x6ba0_2477

abbrev pub rp2040_flash_base : ℕ
rp2040_flash_base = 0x1000_0000

abbrev pub rp2040_flash_size : ℕ
rp2040_flash_size = 2 * 1024 * 1024

abbrev pub rp2040_flash_sector : ℕ
rp2040_flash_sector = 4096

abbrev pub nrf52_flash_size : ℕ
nrf52_flash_size = 512 * 1024

-- `nrf54::RRAM_SIZE`
abbrev pub rram_size : ℕ
rram_size = 1524 * 1024

abbrev pub target_stage : ℕ
target_stage = 0x2001_0000

abbrev pub target_call_sp : ℕ
target_call_sp = 0x2000_8000

abbrev pub target_trampoline : ℕ
target_trampoline = 0x2000_7000

abbrev pub polls_call : ℕ
polls_call = 100000

abbrev pub polls_erase : ℕ
polls_erase = 400000

-- As many entries as fit the address space; a table has one of code 0 before.
abbrev pub table_fuel : ℕ
table_fuel = 2 ^ 30

-- `a - b` on u32
abbrev pub minus : ℕ → ℕ → ℕ
minus a b = (a + 2 ^ 32 - b) % 2 ^ 32

pub record RomFlashFns : Type 0 where
  pub connect_fn : ℕ
  pub exit_xip : ℕ
  pub erase_fn : ℕ
  pub program_fn : ℕ
  pub flush : ℕ
  pub enter_xip : ℕ

pub record Rp2040Family : Type 0 where
  pub cur_core : Option ℕ
  pub flash_fns : Option RomFlashFns
  pub flash_mode : Bool
  pub sectors : List ℕ

abbrev pub new_rp2040 : Rp2040Family
new_rp2040 = record {
  cur_core = none;
  flash_fns = none;
  flash_mode = false;
  sectors = replicate 16 0;
}

pub record Nrf52Family : Type 0 where
  pub pages : List ℕ

abbrev pub new_nrf52 : Nrf52Family
new_nrf52 = record { pages = replicate 4 0 }

pub data Family : Type 0 where
  rp2040 : Rp2040Family → Family
  nrf52 : Nrf52Family → Family
  nrf54 : Family

-- A family, with the link to its target.
pub record Linked (F T : Type 0) : Type 0 where
  pub state : F
  pub link : ArmDebug T

-- The byte of `data` for address `a`, where the write, which starts at `from`, covers it, and 0xFF
-- elsewhere: `a < end` says that the slice has the byte.
unfoldable pub padded : ℕ → List ℕ → ℕ → ℕ
padded from bytes a =
    if leb from a then (elim (get_elem? bytes (a - from)) [ none ↦ 0xff | some b ↦ b ]) else 0xff

unfoldable pub padded_bytes : ℕ → List ℕ → ℕ → ℕ → List ℕ
unfolding padded
padded_bytes from bytes a zero = []
padded_bytes from bytes a (suc n) = padded from bytes a ∷ padded_bytes from bytes (a + 1) n

-- The inner loop of `Nrf52Family::flash_write`, with room for `room` words.
unfoldable pub padded_words : ℕ → ℕ → List ℕ → ℕ → ℕ → List ℕ
unfolding padded_bytes
padded_words span_end from bytes a zero = []
padded_words span_end from bytes a (suc room) =
    let rest = padded_words span_end from bytes (a + 4) room in
    if ltb a span_end then from_le (padded_bytes from bytes a 4) ∷ rest else []

module _ {F T : Type 0} where
  abbrev pub on_arm : {A : Type 0} → M (ArmDebug T) ArmError A → M (Linked F T) ArmError A
  on_arm = zoom (λ l. l.link) (λ a l. record l { link = a })

  abbrev pub set_state : (F → F) → M (Linked F T) ArmError (Unit {0})
  set_state f = modify (λ l. record l { state = f l.state })

  -- The loop over pages, or sectors, of the two `flash_write`s that erase: a page whose bit in the
  -- words of `erased` is clear is erased, and then its bit is set. `left` pages are to go.
  unfoldable pub erase_pages :
      (F → List ℕ)
      → (List ℕ → F → F)
      → (ℕ → M (Linked F T) ArmError (Unit {0}))
      → ℕ
      → ℕ
      → M (Linked F T) ArmError (Unit {0})
  erase_pages erased mark erase zero page = pure tt
  erase_pages erased mark erase (suc left) page = do
    words ← gets (λ (l : Linked F T). erased l.state)
    word ← index words (page / 32)
    if bit_and word (2 ^ (page % 32)) == 0
        then (do
          erase page
          words ← gets (λ (l : Linked F T). erased l.state)
          word ← index words (page / 32)
          set_state (mark (overwrite (page / 32) (bit_or word (2 ^ (page % 32)) ∷ []) words)))
        else pure tt
    erase_pages erased mark erase left (page + 1)
