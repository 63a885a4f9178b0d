-- ===== src/Arm/Bytes.antt =====
-- Byte ranges of target memory: `read_mem` and `write_mem` (arm-debug/src/lib.rs). `addr & 3` is
-- `addr % 4`, and `addr & !3` is `addr - addr % 4`.
pub mod Patch
pub mod Write
pub mod RoundTrip
pub mod Read
use rust_dap.Base.{
  ℕ, zero, suc, ◌+◌, ◌-◌, ◌*◌, ◌/◌, ◌%◌, ◌^◌, min, ◌&&◌, List, [], ◌∷◌, ◌++◌, length, take, drop,
  replicate, overwrite, leb, ltb, ◌==◌, if◌then◌else◌, Result, ok, err, panic, M, pure, gets,
  modify, zoom, ◌>>=◌, ◌>>◌,
}
use rust_dap.Base.Words.{le_bytes4, from_le}
use rust_dap.Transport.{DapTransport}
use rust_dap.Arm.Port.{ArmDebug, ArmError}
use rust_dap.Arm.Memory.{read_word, write_word, read_words, write_words, tar_run}

-- `addr += n`
abbrev pub advance : ℕ → ℕ → ℕ
advance addr n = (addr + n) % 2 ^ 32

-- `[0u32; 16]` holds this many.
abbrev pub block_words : ℕ
block_words = 16

-- The words of a run from `addr`, with `remaining` bytes to go.
unfoldable pub run_words : ℕ → ℕ → ℕ
unfolding tar_run
run_words addr remaining = min (tar_run addr (remaining / 4)) block_words

-- The local variables of `read_mem`, with what it borrows.
pub record Reading (T : Type 0) : Type 0 where
  pub arm : ArmDebug T
  pub buf : List ℕ
  pub index : ℕ
  pub addr : ℕ

-- The local variables of `write_mem`.
pub record Writing (T : Type 0) : Type 0 where
  pub arm : ArmDebug T
  pub index : ℕ
  pub addr : ℕ

module _ {T : Type 0} where
  -- `buf[i..i + 4].copy_from_slice(&w.to_le_bytes())` for each word; they are in range.
  unfoldable pub copy_words : List ℕ → Reading T → Reading T
  copy_words [] r = r
  copy_words (w ∷ ws) r = copy_words ws (record r {
    buf = overwrite r.index (le_bytes4 w) r.buf;
    index = r.index + 4;
    addr = advance r.addr 4;
  })

  -- The bytes of a word, as far as there is room.
  unfoldable pub copy_bytes : List ℕ → Reading T → Reading T
  copy_bytes [] r = r
  copy_bytes (b ∷ bs) r =
      if leb (length r.buf) r.index
      then r
      else copy_bytes bs (record r {
        buf = overwrite r.index (b ∷ []) r.buf;
        index = r.index + 1;
        addr = advance r.addr 1;
      })

  -- A block read into a fresh array.
  abbrev pub filled :
      Result ArmError (Unit {0}) × (ArmDebug T × List ℕ) → Result ArmError (List ℕ) × ArmDebug T
  filled (ok u, x) = (ok x.1, x.0)
  filled (err e, x) = (err e, x.0)
  filled (panic, x) = (panic, x.0)

  abbrev pub reading_arm : {A : Type 0} → M (ArmDebug T) ArmError A → M (Reading T) ArmError A
  reading_arm = zoom (λ r. r.arm) (λ a r. record r { arm = a })

  abbrev pub writing_arm : {A : Type 0} → M (ArmDebug T) ArmError A → M (Writing T) ArmError A
  writing_arm = zoom (λ w. w.arm) (λ a w. record w { arm = a })

-- `n` words of a slice of bytes
unfoldable pub words_of : ℕ → List ℕ → List ℕ
words_of zero bytes = []
words_of (suc n) bytes = from_le (take 4 bytes) ∷ words_of n (drop 4 bytes)

-- The first bytes are replaced by those of the second list, as far as these go.
unfoldable pub patch : List ℕ → List ℕ → List ℕ
patch [] new = []
patch (b ∷ bs) [] = b ∷ bs
patch (b ∷ bs) (x ∷ xs) = x ∷ patch bs xs

module _ {T : Type 0} ⦃t : DapTransport T⦄ where
  unfoldable pub read_block : ℕ → ℕ → M (ArmDebug T) ArmError (List ℕ)
  read_block addr n a = filled (read_words addr (a, replicate n 0))

  unfoldable pub read_bulk : ℕ → ℕ → M (Reading T) ArmError (Unit {0})
  unfolding run_words
  read_bulk addr remaining = do
    words ← reading_arm (read_block addr (run_words addr remaining))
    modify (copy_words words)

  unfoldable pub read_ragged : ℕ → M (Reading T) ArmError (Unit {0})
  read_ragged addr = do
    word ← reading_arm (read_word (addr - addr % 4))
    modify (copy_bytes (drop (addr % 4) (le_bytes4 word)))

  unfoldable pub read_round : M (Reading T) ArmError (Unit {0})
  read_round = do
    addr ← gets (λ (r : Reading T). r.addr)
    remaining ← gets (λ (r : Reading T). length r.buf - r.index)
    if addr % 4 == 0 && leb 4 remaining then read_bulk addr remaining else read_ragged addr

  -- Each round reads a byte at least, so that the length of the buffer is fuel enough.
  unfoldable pub read_loop : ℕ → M (Reading T) ArmError (Unit {0})
  read_loop zero = pure tt
  read_loop (suc fuel) = do
    more ← gets (λ (r : Reading T). ltb r.index (length r.buf))
    if more then (do read_round; read_loop fuel) else pure tt

  unfoldable pub read_mem : ℕ → M (ArmDebug T × List ℕ) ArmError (Unit {0})
  read_mem addr x =
      let (r, after) =
        read_loop (length x.1) (record { arm = x.0; buf = x.1; index = 0; addr = addr }) in
      (r, (after.arm, after.buf))

  abbrev pub written : ℕ → Writing T → Writing T
  written n w = record w { index = w.index + n; addr = advance w.addr n }

  unfoldable pub write_bulk : ℕ → List ℕ → M (Writing T) ArmError (Unit {0})
  unfolding run_words
  write_bulk addr rest = do
    let n = run_words addr (length rest)
    writing_arm (write_words addr (words_of n rest))
    modify (written (4 * n))

  unfoldable pub write_ragged : ℕ → List ℕ → M (Writing T) ArmError (Unit {0})
  write_ragged addr rest = do
    word ← writing_arm (read_word (addr - addr % 4))
    let bytes = le_bytes4 word
    modify (written (min (4 - addr % 4) (length rest)))
    writing_arm (
        write_word (addr - addr % 4)
          (from_le (take (addr % 4) bytes ++ patch (drop (addr % 4) bytes) rest)))

  -- `rest` is `buf[i..]`.
  unfoldable pub write_round : List ℕ → M (Writing T) ArmError (Unit {0})
  write_round rest = do
    addr ← gets (λ (w : Writing T). w.addr)
    if addr % 4 == 0 && leb 4 (length rest) then write_bulk addr rest else write_ragged addr rest

  unfoldable pub write_loop : ℕ → List ℕ → M (Writing T) ArmError (Unit {0})
  write_loop zero buf = pure tt
  write_loop (suc fuel) buf = do
    i ← gets (λ (w : Writing T). w.index)
    if ltb i (length buf) then (do write_round (drop i buf); write_loop fuel buf) else pure tt

  unfoldable pub write_mem : ℕ → List ℕ → M (ArmDebug T) ArmError (Unit {0})
  write_mem addr buf a =
      let (r, after) = write_loop (length buf) buf (record { arm = a; index = 0; addr = addr }) in
      (r, after.arm)
