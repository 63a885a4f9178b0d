-- ===== src/CmsisDap/Laws.antt =====
-- The laws of the codecs (rust-dap/src/cmsis_dap.rs).
use rust_dap.Base.{
  ℕ, ◌+◌, ◌≤◌, ◌<◌, ◌≡◌, refl, List, length, take, drop, length-overwrite, true, passes_below,
  passes_below→passes, leb, ◌&&◌, arith, ok, panic,
}
use rust_dap.Base.Words.{IsByte, le_bytes4}
use rust_dap.Base.Hoare.{Keeps, keeps_rules}
use rust_dap.Cursor.{BufferCursor}
use rust_dap.Cursor.Laws.{read_enough, read_short}
use rust_dap.CmsisDap.Flags.{sequence_info_from}
use rust_dap.CmsisDap.Acc.{read_or_zero, read_swd_request, read_u16, read_u32, write_u32}

cycles_table :
    passes_below
      (λ b.
        leb 1 (sequence_info_from b).number_of_tck_cycles
        && leb (sequence_info_from b).number_of_tck_cycles 64)
      256
    ≡ true
unfolding passes_below sequence_info_from
cycles_table = refl

-- Every sequence byte asks for 1 to 64 clocks.
pub cycles_bounds :
    (b : ℕ)
    → IsByte b
    → (1 ≤ (sequence_info_from b).number_of_tck_cycles)
      × ((sequence_info_from b).number_of_tck_cycles ≤ 64)
cycles_bounds b h = ground (arith, passes_below→passes _ 256 cycles_table b h)

module _ (c : BufferCursor) where
  pub read_or_zero_enough :
      (n : ℕ)
      → c.position + n ≤ length c.buffer
      → read_or_zero n c
        ≡ (ok (take n (drop c.position c.buffer)), record c { position = c.position + n })
  unfolding read_or_zero
  read_or_zero_enough n h = ground (arith, read_enough n c h)

  pub read_or_zero_short :
      (n : ℕ) → length c.buffer < c.position + n → read_or_zero n c ≡ (panic, c)
  unfolding read_or_zero
  read_or_zero_short n h = ground (arith, read_short n c h)

-- A cursor that reads the buffer `b`, and one that writes a buffer of `m` bytes.
abbrev pub IsReading : List ℕ → BufferCursor → Type 0
IsReading b c = (c.buffer ≡ b) × (c.position ≤ length b)

abbrev pub IsWriting : ℕ → BufferCursor → Type 0
IsWriting m c = (length c.buffer ≡ m) × (c.position ≤ m)

module _ (b : List ℕ) where
  read_or_zero-IsReading : (n : ℕ) → Keeps (IsReading b) (read_or_zero n)
  unfolding read_or_zero
  read_or_zero-IsReading n = record { run = λ c h. ground arith }

  pub read_swd_request-IsReading : Keeps (IsReading b) read_swd_request
  unfolding read_swd_request
  read_swd_request-IsReading = search (keeps_rules, read_or_zero-IsReading)

  pub read_u16-IsReading : Keeps (IsReading b) read_u16
  unfolding read_u16
  read_u16-IsReading = search (keeps_rules, read_or_zero-IsReading)

  pub read_u32-IsReading : Keeps (IsReading b) read_u32
  unfolding read_u32
  read_u32-IsReading = search (keeps_rules, read_or_zero-IsReading)

pub write_u32-IsWriting : (m value : ℕ) → Keeps (IsWriting m) (write_u32 value)
unfolding write_u32
write_u32-IsWriting m value = record {
  run = λ c h. ground (arith, length-overwrite c.position (le_bytes4 value) c.buffer);
}
