-- ===== src/Arm/Bytes/Read.antt =====
-- Byte ranges that `read_mem` reads (arm-debug/src/lib.rs).
use rust_dap.Base.{
  ℕ, zero, suc, ◌+◌, ◌-◌, ◌*◌, ◌%◌, ◌^◌, ◌≡◌, ◌≤◌, ◌<◌, min, refl, sym, ap, subst, ◌∙◌, Bool-cases,
  ◌&&◌, inl, inr, List, [], ◌∷◌, ◌++◌, length, take, drop, overwrite, leb, ltb, ◌==◌, replicate, ok,
  ◌>>=◌, arith, overwrite-append, overwrite-nil, length-overwrite, take_past-overwrite,
  length-replicate, take-all,
}
use rust_dap.Base.Words.{le_bytes4}
use rust_dap.Transport.{DapTransport}
use rust_dap.Arm.Port.{ArmDebug}
use rust_dap.Arm.Target.{Target, IsTarget, Holds}
use rust_dap.Arm.Memory.{tar_run}
use rust_dap.Arm.Memory.Blocks.{InBlock, load_words, read_words-ok}
use rust_dap.Arm.Memory.Refines.{read_word-ok}
use rust_dap.Arm.Ram.{
  Ram, ram, bytes_at, bytes_of, length-bytes_at, bytes_at-add, drop-bytes_at, take-bytes_at,
  le_bytes4-bytes_at, load_words-ram, length-load_words, bytes_of-load_words,
}
use rust_dap.Arm.Bytes.{
  Reading, copy_words, copy_bytes, run_words, filled, read_block, read_bulk, read_ragged,
  read_round, read_loop, read_mem,
}

pub run_words_bounds :
    (addr remaining : ℕ)
    → addr % 4 ≡ 0
    → 4 ≤ remaining
    → (1 ≤ run_words addr remaining)
      × (4 * run_words addr remaining ≤ remaining)
      × InBlock addr (run_words addr remaining)
unfolding run_words tar_run
run_words_bounds addr remaining aligned room = omega arith

-- The bytes of a word from an address in it on.
word_rest :
    (addr : ℕ) (m : Ram)
    → drop (addr % 4) (le_bytes4 (m (addr - addr % 4))) ≡ bytes_at addr (4 - addr % 4) m
word_rest addr m =
    ap (drop (addr % 4)) (le_bytes4-bytes_at (addr - addr % 4) m (omega arith))
    ∙ drop-bytes_at (addr % 4) (addr - addr % 4) 4 m
    ∙ ap (λ b. bytes_at b (4 - addr % 4) m) (omega arith)

module _ {T : Type 0} where
  copy_words-eq-overwrite :
      (ws : List ℕ) (r : Reading T)
      → r.addr + 4 * length ws < 2 ^ 32
      → copy_words ws r ≡ record r {
        buf = overwrite r.index (bytes_of ws) r.buf;
        index = r.index + 4 * length ws;
        addr = r.addr + 4 * length ws;
      }
  unfolding copy_words bytes_of
  copy_words-eq-overwrite [] r fits = ground (arith, overwrite-nil r.index r.buf)
  copy_words-eq-overwrite (w ∷ ws) r fits =
      let r1 : Reading T = record r {
        buf = overwrite r.index (le_bytes4 w) r.buf;
        index = r.index + 4;
        addr = r.addr + 4;
      } in
      ground (
        arith,
        copy_words-eq-overwrite ws r1,
        overwrite-append r.index (le_bytes4 w) (bytes_of ws) r.buf,
      )

  -- `room` is what is left of the buffer.
  copy_bytes-eq-overwrite :
      (bs : List ℕ) (room : ℕ) (r : Reading T)
      → length r.buf ≡ r.index + room
      → r.addr + room < 2 ^ 32
      → copy_bytes bs r ≡ record r {
        buf = overwrite r.index (take room bs) r.buf;
        index = r.index + min room (length bs);
        addr = r.addr + min room (length bs);
      }
  unfolding copy_bytes
  copy_bytes-eq-overwrite [] zero r e fits = ground (arith, overwrite-nil r.index r.buf)
  copy_bytes-eq-overwrite [] (suc room) r e fits = ground (arith, overwrite-nil r.index r.buf)
  copy_bytes-eq-overwrite (b ∷ bs) zero r e fits = ground (arith, overwrite-nil r.index r.buf)
  copy_bytes-eq-overwrite (b ∷ bs) (suc room) r e fits =
      let r1 : Reading T = record r {
        buf = overwrite r.index (b ∷ []) r.buf;
        index = r.index + 1;
        addr = r.addr + 1;
      } in
      ground (
        arith,
        copy_bytes-eq-overwrite bs room r1,
        length-overwrite r.index (b ∷ []) r.buf,
        overwrite-append r.index (b ∷ []) (take room bs) r.buf,
      )

module _ {T : Type 0} ⦃t : DapTransport T⦄ (view : T → Target Ram) (h : IsTarget view t) where
  read_block-ok :
      (n addr : ℕ) (a : ArmDebug T) (m : Ram)
      → addr % 4 ≡ 0
      → InBlock addr n
      → Holds view a m
      → (a' : ArmDebug T) × (read_block addr n a ≡ (ok (load_words n addr m).0, a'))
        × Holds view a' m
  unfolding read_block
  read_block-ok n addr a m aligned room held =
      let (a', e, held') =
        read_words-ok view h n addr a m (replicate n 0) (length-replicate n 0) aligned room held in
      (a', ap filled e, subst (Holds view a') (load_words-ram n addr m) held')

  -- What has been read is right, and the cursor stands behind it.
  record IsRead (start len : ℕ) (m : Ram) (r : Reading T) : Type 0 where
    read_held : Holds view r.arm m
    read_addr : r.addr ≡ start + r.index
    read_index : r.index ≤ len
    read_length : length r.buf ≡ len
    read_bytes : take r.index r.buf ≡ bytes_at start r.index m

  -- A piece more.
  IsRead-more :
      (start len n : ℕ) (m : Ram) (r : Reading T) (a : ArmDebug T) (new : List ℕ)
      → IsRead start len m r
      → Holds view a m
      → new ≡ bytes_at r.addr n m
      → r.index + n ≤ len
      → IsRead start len m (record r {
        arm = a;
        buf = overwrite r.index new r.buf;
        index = r.index + n;
        addr = r.addr + n;
      })
  IsRead-more start len n m r a new done held e fits =
      let size : length new ≡ n = ap length e ∙ length-bytes_at r.addr n m in
      record {
        read_held = held;
        read_addr = omega (arith, done.read_addr);
        read_index = fits;
        read_length = length-overwrite r.index new r.buf ∙ done.read_length;
        read_bytes =
            ap (λ k. take (r.index + k) (overwrite r.index new r.buf)) (sym size)
            ∙ take_past-overwrite r.index new r.buf (omega (arith, size, done.read_length))
            ∙ ap (λ l. l ++ new) done.read_bytes
            ∙ ap (λ l. bytes_at start r.index m ++ l) (e ∙ ap (λ a. bytes_at a n m) done.read_addr)
            ∙ bytes_at-add start r.index n m;
      }

  read_bulk-IsRead :
      (start len : ℕ) (m : Ram) (r : Reading T)
      → IsRead start len m r
      → start + len < 2 ^ 32
      → r.addr % 4 ≡ 0
      → 4 ≤ len - r.index
      → (r' : Reading T) × (read_bulk r.addr (len - r.index) r ≡ (ok tt, r'))
        × IsRead start len m r'
        × (r.index < r'.index)
  unfolding read_bulk ◌>>=◌
  read_bulk-IsRead start len m r done fits aligned room =
      let n = run_words r.addr (len - r.index) in
      let (some_word, inside, block) = run_words_bounds r.addr (len - r.index) aligned room in
      let (a, e, held) = read_block-ok n r.addr r.arm m aligned block done.read_held in
      let ws = (load_words n r.addr m).0 in
      let size : length ws ≡ n = length-load_words n r.addr m in
      (
        record r {
          arm = a;
          buf = overwrite r.index (bytes_of ws) r.buf;
          index = r.index + 4 * n;
          addr = r.addr + 4 * n;
        },
        ground (
          arith,
          e,
          size,
          copy_words-eq-overwrite ws (record r { arm = a })
              (omega (arith, size, inside, done.read_addr, done.read_index, fits)),
        ),
        IsRead-more start len (4 * n) m r a (bytes_of ws) done held
            (bytes_of-load_words n r.addr m aligned) (omega (arith, inside, done.read_index)),
        omega (arith, some_word),
      )

  read_ragged-IsRead :
      (start len : ℕ) (m : Ram) (r : Reading T)
      → IsRead start len m r
      → start + len < 2 ^ 32
      → r.index < len
      → (r' : Reading T) × (read_ragged r.addr r ≡ (ok tt, r'))
        × IsRead start len m r'
        × (r.index < r'.index)
  unfolding read_ragged ◌>>=◌
  read_ragged-IsRead start len m r done fits more =
      let base = r.addr - r.addr % 4 in
      let off = r.addr % 4 in
      let room = len - r.index in
      let (a, e, held) = read_word-ok view h base r.arm m (omega arith) done.read_held in
      let bs = drop off (le_bytes4 (m base)) in
      let rest : bs ≡ bytes_at r.addr (4 - off) m = word_rest r.addr m in
      let size : length bs ≡ 4 - off = ap length rest ∙ length-bytes_at r.addr (4 - off) m in
      (
        record r {
          arm = a;
          buf = overwrite r.index (take room bs) r.buf;
          index = r.index + min room (4 - off);
          addr = r.addr + min room (4 - off);
        },
        ground (
          arith,
          e,
          size,
          copy_bytes-eq-overwrite bs room (record r { arm = a })
              (omega (arith, done.read_length, more)) (omega (arith, done.read_addr, more, fits)),
        ),
        IsRead-more start len (min room (4 - off)) m r a (take room bs) done held
            (ap (take room) rest ∙ take-bytes_at room r.addr (4 - off) m) (omega (arith, more)),
        omega (arith, more),
      )

  read_round-IsRead :
      (start len : ℕ) (m : Ram) (r : Reading T)
      → IsRead start len m r
      → start + len < 2 ^ 32
      → r.index < len
      → (r' : Reading T) × (read_round r ≡ (ok tt, r'))
        × IsRead start len m r'
        × (r.index < r'.index)
  unfolding read_round ◌>>=◌
  read_round-IsRead start len m r done fits more =
      elim (Bool-cases (r.addr % 4 == 0 && leb 4 (len - r.index))) [
        | inl bulk ↦
            let (r', e, d, p) =
              read_bulk-IsRead start len m r done fits (ground (arith, bulk))
                (ground (arith, bulk)) in
            (r', ground (arith, e, bulk, done.read_length), d, p)
        | inr ragged ↦
            let (r', e, d, p) = read_ragged-IsRead start len m r done fits more in
            (r', ground (arith, e, ragged, done.read_length), d, p)
      ]

  read_loop-IsRead :
      (fuel start len : ℕ) (m : Ram) (r : Reading T)
      → IsRead start len m r
      → start + len < 2 ^ 32
      → len - r.index ≤ fuel
      → (r' : Reading T) × (read_loop fuel r ≡ (ok tt, r'))
        × IsRead start len m r'
        × (r'.index ≡ len)
  unfolding read_loop ◌>>=◌
  read_loop-IsRead zero start len m r done fits enough =
      (r, refl, done, omega (arith, done.read_index))
  read_loop-IsRead (suc fuel) start len m r done fits enough = elim (Bool-cases (ltb r.index len)) [
    | inl more ↦
        let (r1, e1, d1, p) = read_round-IsRead start len m r done fits (ground (arith, more)) in
        let (r2, e2, d2, full) =
          read_loop-IsRead fuel start len m r1 d1 fits (omega (arith, p, enough)) in
        (r2, ground (arith, e1, e2, more, done.read_length), d2, full)
    | inr stop ↦
        (r, ground (arith, stop, done.read_length), done, ground (arith, stop, done.read_index))
  ]

  -- From any address and of any length below the end of the address space, aligned or not, and
  -- across the blocks in which TAR counts on, read_mem answers Ok and fills the buffer with exactly
  -- the bytes of memory there; memory stays, and the caches stay in order.
  pub read_mem-ok :
      (addr : ℕ) (a : ArmDebug T) (buf : List ℕ) (m : Ram)
      → addr + length buf < 2 ^ 32
      → Holds view a m
      → (a' : ArmDebug T) × (read_mem addr (a, buf) ≡ (ok tt, (a', bytes_at addr (length buf) m)))
        × Holds view a' m
  unfolding read_mem bytes_at
  read_mem-ok addr a buf m fits held =
      let r : Reading T = record { arm = a; buf = buf; index = 0; addr = addr } in
      let start : IsRead addr (length buf) m r = record {
        read_held = held;
        read_addr = omega arith;
        read_index = omega arith;
        read_length = refl;
        read_bytes = refl;
      } in
      let (r', e, d, full) =
        read_loop-IsRead (length buf) addr (length buf) m r start fits (omega arith) in
      let bytes : r'.buf ≡ bytes_at addr (length buf) m =
        sym (take-all r'.buf)
        ∙ ap (λ k. take k r'.buf) (d.read_length ∙ sym full)
        ∙ d.read_bytes
        ∙ ap (λ k. bytes_at addr k m) full in
      (
        r'.arm,
        ap (λ x. (x.0, (x.1.arm, x.1.buf))) e ∙ ap (λ l. (ok tt, (r'.arm, l))) bytes,
        d.read_held,
      )
