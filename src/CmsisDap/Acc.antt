-- ===== src/CmsisDap/Acc.antt =====
-- Words and flags read from and written to a cursor (rust-dap/src/cmsis_dap.rs). `.ok()` drops an
-- error and leaves the zeroed buffer; a panic goes on.
use rust_dap.Base.{ℕ, List, replicate, M, ok, err, panic, pure, ◌>>=◌}
use rust_dap.Base.Words.{from_le, le_bytes4}
use rust_dap.Cursor.{BufferCursor, read, write}
use rust_dap.CmsisDap.Ids.{DapError}

-- `cursor.read(&mut buffer).ok()` on a zeroed buffer of `n` bytes
unfoldable pub read_or_zero : ℕ → M BufferCursor DapError (List ℕ)
unfolding read
read_or_zero n c =
    let (r, c') = read n c in
    elim r [ ok bytes ↦ (ok bytes, c') | err e ↦ (ok (replicate n 0), c') | panic ↦ (panic, c') ]

-- A read of one byte; the flags keep bits that no constant names (`from_bits_unchecked`).
unfoldable pub read_swd_request : M BufferCursor DapError ℕ
read_swd_request = do bytes ← read_or_zero 1; pure (from_le bytes)

unfoldable pub read_u16 : M BufferCursor DapError ℕ
read_u16 = do bytes ← read_or_zero 2; pure (from_le bytes)

unfoldable pub read_u32 : M BufferCursor DapError ℕ
read_u32 = do bytes ← read_or_zero 4; pure (from_le bytes)

unfoldable pub write_u32 : ℕ → M BufferCursor DapError (Unit {0})
unfolding write
write_u32 value c =
    let (r, c') = write (le_bytes4 value) c in
    elim r [ ok _ ↦ (ok tt, c') | err e ↦ (ok tt, c') | panic ↦ (panic, c') ]
