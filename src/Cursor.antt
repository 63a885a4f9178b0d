-- ===== src/Cursor.antt =====
-- A position in a byte buffer that is read or written in order (rust-dap/src/cursor.rs).
pub mod Laws
use rust_dap.Base.{
  ℕ, ◌+◌, ◌-◌, min, List, length, take, drop, overwrite, ltb, ◌==◌, if◌then◌else◌, M, ok, err,
  panic,
}

pub data CursorError : Type 0 where
  insufficient_buffer not_enough_data : CursorError

-- The buffer is what `AsRef` and `AsMut` give.
pub record BufferCursor : Type 0 where
  pub buffer : List ℕ
  pub position : ℕ

abbrev pub new_with_position : List ℕ → ℕ → BufferCursor
new_with_position buffer position = record { buffer = buffer; position = position }

abbrev pub new : List ℕ → BufferCursor
new buffer = new_with_position buffer 0

abbrev pub reset : BufferCursor → BufferCursor
reset c = record c { position = 0 }

-- Fills a buffer of `n` bytes. `copy_from_slice` panics where fewer are left, and the difference
-- underflows where the position lies past the end.
unfoldable pub read : ℕ → M BufferCursor CursorError (List ℕ)
read n c =
    let remaining = length c.buffer - c.position in
    let bytes_to_read = min remaining n in
    if ltb (length c.buffer) c.position
    then (panic, c)
    else if bytes_to_read == n
    then (
      ok (take bytes_to_read (drop c.position c.buffer)),
      record c { position = c.position + bytes_to_read },
    )
    else (panic, c)

unfoldable pub write : List ℕ → M BufferCursor CursorError (Unit {0})
write new_bytes c =
    let bytes_to_write = length new_bytes in
    let remaining = length c.buffer - c.position in
    if ltb (length c.buffer) c.position
    then (panic, c)
    else if ltb remaining bytes_to_write
    then (err insufficient_buffer, c)
    else (
      ok tt,
      record {
        buffer = overwrite c.position new_bytes c.buffer;
        position = c.position + bytes_to_write;
      },
    )
