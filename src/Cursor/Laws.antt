-- ===== src/Cursor/Laws.antt =====
-- The laws of `BufferCursor` (rust-dap/src/cursor.rs).
use rust_dap.Base.{
  ℕ, ◌+◌, ◌≤◌, ◌<◌, ◌≡◌, ◌⊎◌, List, length, take, drop, length-overwrite, take-drop-overwrite,
  take-overwrite, ok, err, panic, arith,
}
use rust_dap.Cursor.{BufferCursor, insufficient_buffer, new_with_position, read, write}

-- The position lies in the buffer.
abbrev pub IsValid : BufferCursor → Type 0
IsValid c = c.position ≤ length c.buffer

-- A read with enough bytes left gives the next ones and moves past them.
pub read_enough :
    (n : ℕ) (c : BufferCursor)
    → c.position + n ≤ length c.buffer
    → read n c ≡ (ok (take n (drop c.position c.buffer)), record c { position = c.position + n })
unfolding read
read_enough n c h = ground arith

-- A read past the end panics, whatever is left.
pub read_short :
    (n : ℕ) (c : BufferCursor) → length c.buffer < c.position + n → read n c ≡ (panic, c)
unfolding read
read_short n c h = ground arith

-- From a valid cursor, a write that fits is read back from where it was written, the bytes before
-- it stay, the buffer keeps its length, and the position moves by what was written; a write that
-- does not fit is refused and changes nothing.
pub write-read :
    (new_bytes : List ℕ) (c : BufferCursor)
    → IsValid c
    → let (r, c') = write new_bytes c in
      ((r ≡ ok tt)
        × (c.position + length new_bytes ≤ length c.buffer)
        × (read (length new_bytes) (new_with_position c'.buffer c.position) ≡ (ok new_bytes, c'))
        × (take c.position c'.buffer ≡ take c.position c.buffer)
        × (length c'.buffer ≡ length c.buffer))
      ⊎ ((r ≡ err insufficient_buffer)
          × (length c.buffer < c.position + length new_bytes)
          × (c' ≡ c))
unfolding read write
write-read new_bytes c h = ground (
  arith,
  length-overwrite c.position new_bytes c.buffer,
  take-drop-overwrite c.position new_bytes c.buffer,
  take-overwrite c.position new_bytes c.buffer,
)
