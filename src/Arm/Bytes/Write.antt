-- ===== src/Arm/Bytes/Write.antt =====
-- Byte ranges that `write_mem` writes (arm-debug/src/lib.rs).
use rust_dap.Base.{
  ℕ, zero, suc, ◌+◌, ◌-◌, ◌*◌, ◌%◌, ◌^◌, ◌≡◌, ◌≤◌, ◌<◌, min, refl, sym, ap, ◌∙◌, Bool-cases, ◌&&◌,
  inl, inr, List, ◌++◌, length, take, drop, All, leb, ltb, ◌==◌, if◌then◌else◌, ok, ◌>>=◌, arith,
  length-drop, All-drop,
}
use rust_dap.Base.Words.{le_bytes4, from_le, IsByte}
use rust_dap.Transport.{DapTransport}
use rust_dap.Arm.Port.{ArmDebug}
use rust_dap.Arm.Target.{Target, IsTarget, Holds}
use rust_dap.Arm.Memory.Blocks.{store_words, write_words-ok}
use rust_dap.Arm.Memory.Refines.{read_word-ok, write_word-ok}
use rust_dap.Arm.Ram.{Ram, ram, update, element, byte_at}
use rust_dap.Arm.Bytes.{
  Writing, words_of, patch, run_words, write_bulk, write_ragged, write_round, write_loop, write_mem,
}
use rust_dap.Arm.Bytes.Patch.{
  patched, element-drop, element-take-patch, le_bytes4-patch, byte_at-update, byte_at-store_words,
}
use rust_dap.Arm.Bytes.Read.{run_words_bounds}

length-words_of : (n : ℕ) (rest : List ℕ) → length (words_of n rest) ≡ n
unfolding words_of
length-words_of zero rest = refl
length-words_of (suc n) rest = omega (arith, length-words_of n (drop 4 rest))

in_word :
    (f : ℕ → ℕ) (y z addr a len : ℕ)
    → (a - a % 4 ≡ addr - addr % 4 → y ≡ z)
    → (if a - a % 4 == addr - addr % 4
        then (if leb (addr % 4) (a % 4) && ltb (a % 4) (addr % 4 + min (4 - addr % 4) len)
            then f (a % 4 - addr % 4)
            else y)
        else z)
      ≡ (if leb addr a && ltb a (addr + min (4 - addr % 4) len) then f (a - addr) else z)
in_word f y z addr a len same = ground (arith, same)

-- The word of `addr` with bytes put into it.
byte_at-patch :
    (addr a : ℕ) (rest : List ℕ) (m : Ram)
    → All IsByte rest
    → byte_at
        (update
          (addr - addr % 4)
          (from_le (
            take (addr % 4) (le_bytes4 (m (addr - addr % 4)))
            ++ patch (drop (addr % 4) (le_bytes4 (m (addr - addr % 4)))) rest))
          m)
        a
      ≡ patched addr (min (4 - addr % 4) (length rest)) rest m a
byte_at-patch addr a rest m bytes =
    let base = addr - addr % 4 in
    let off = addr % 4 in
    let bs = le_bytes4 (m base) in
    let new = take off bs ++ patch (drop off bs) rest in
    byte_at-update base (from_le new) a m
    ∙ ap (λ (l : List ℕ). if a - a % 4 == base then element (a % 4) l else byte_at m a)
        (le_bytes4-patch off (m base) rest (omega arith) bytes)
    ∙ ap (λ (e : ℕ). if a - a % 4 == base then e else byte_at m a)
        (element-take-patch (a % 4) off bs rest (omega arith))
    ∙ in_word (λ i. element i rest) (element (a % 4) bs) (byte_at m a) addr a (length rest)
        (λ e. ap (λ b. element (a % 4) (le_bytes4 (m b))) (sym e))

two_ranges :
    (f : ℕ → ℕ) (z start i n a : ℕ)
    → (if leb (start + i) a && ltb a (start + i + n)
        then f (i + (a - (start + i)))
        else (if leb start a && ltb a (start + i) then f (a - start) else z))
      ≡ (if leb start a && ltb a (start + (i + n)) then f (a - start) else z)
two_ranges f z start i n a = ground arith

-- The next piece of a list is written behind the first.
patched-drop :
    (start i n : ℕ) (buf : List ℕ) (m0 m m' : Ram) (a : ℕ)
    → byte_at m a ≡ patched start i buf m0 a
    → byte_at m' a ≡ patched (start + i) n (drop i buf) m a
    → byte_at m' a ≡ patched start (i + n) buf m0 a
patched-drop start i n buf m0 m m' a old new =
    new
    ∙ ap
        (λ (z : ℕ).
          if leb (start + i) a && ltb a (start + i + n)
          then element (a - (start + i)) (drop i buf)
          else z)
        old
    ∙ ap
        (λ (e : ℕ).
          if leb (start + i) a && ltb a (start + i + n) then e else patched start i buf m0 a)
        (element-drop i (a - (start + i)) buf)
    ∙ two_ranges (λ j. element j buf) (byte_at m0 a) start i n a

module _ {T : Type 0} ⦃t : DapTransport T⦄ (view : T → Target Ram) (h : IsTarget view t) where
  -- The bytes before the cursor are in memory, and all else is as it was in `m0`.
  record IsWritten (start : ℕ) (buf : List ℕ) (m0 : Ram) (w : Writing T) (m : Ram) : Type 0 where
    written_held : Holds view w.arm m
    written_addr : w.addr ≡ start + w.index
    written_index : w.index ≤ length buf
    written_bytes : (a : ℕ) → byte_at m a ≡ patched start w.index buf m0 a

  IsWritten-more :
      (start n : ℕ) (buf : List ℕ) (m0 m m' : Ram) (w : Writing T) (arm : ArmDebug T)
      → IsWritten start buf m0 w m
      → Holds view arm m'
      → w.index + n ≤ length buf
      → ((a : ℕ) → byte_at m' a ≡ patched w.addr n (drop w.index buf) m a)
      → IsWritten start buf m0 (record w { arm = arm; index = w.index + n; addr = w.addr + n }) m'
  IsWritten-more start n buf m0 m m' w arm done held fits new = record {
    written_held = held;
    written_addr = omega (arith, done.written_addr);
    written_index = fits;
    written_bytes = λ a.
        patched-drop start w.index n buf m0 m m' a (done.written_bytes a)
          (new a ∙ ap (λ s. patched s n (drop w.index buf) m a) done.written_addr);
  }

  write_bulk-IsWritten :
      (start : ℕ) (buf : List ℕ) (m0 m : Ram) (w : Writing T)
      → IsWritten start buf m0 w m
      → All IsByte buf
      → start + length buf < 2 ^ 32
      → w.addr % 4 ≡ 0
      → 4 ≤ length (drop w.index buf)
      → (w' : Writing T) × (m' : Ram) × (write_bulk w.addr (drop w.index buf) w ≡ (ok tt, w'))
        × IsWritten start buf m0 w' m'
        × (w.index < w'.index)
  unfolding write_bulk ◌>>=◌
  write_bulk-IsWritten start buf m0 m w done bytes fits aligned room =
      let rest = drop w.index buf in
      let n = run_words w.addr (length rest) in
      let (some_word, inside, block) = run_words_bounds w.addr (length rest) aligned room in
      let ws = words_of n rest in
      let m' = store_words w.addr ws m in
      let (arm, e, held) =
        write_words-ok view h w.addr ws w.arm m aligned
          (omega (arith, length-words_of n rest, block)) done.written_held in
      let size = length-drop w.index buf in
      (
        record w { arm = arm; index = w.index + 4 * n; addr = w.addr + 4 * n },
        m',
        ground (arith, e, size, inside, done.written_addr, done.written_index, fits),
        IsWritten-more start (4 * n) buf m0 m m' w arm done held
            (omega (arith, size, inside, done.written_index))
            (λ a.
              byte_at-store_words n w.addr rest m a aligned inside
                (All-drop IsByte w.index buf bytes)),
        omega (arith, some_word),
      )

  write_ragged-IsWritten :
      (start : ℕ) (buf : List ℕ) (m0 m : Ram) (w : Writing T)
      → IsWritten start buf m0 w m
      → All IsByte buf
      → start + length buf < 2 ^ 32
      → w.index < length buf
      → (w' : Writing T) × (m' : Ram) × (write_ragged w.addr (drop w.index buf) w ≡ (ok tt, w'))
        × IsWritten start buf m0 w' m'
        × (w.index < w'.index)
  unfolding write_ragged ◌>>=◌
  write_ragged-IsWritten start buf m0 m w done bytes fits more =
      let rest = drop w.index buf in
      let base = w.addr - w.addr % 4 in
      let off = w.addr % 4 in
      let bs = le_bytes4 (m base) in
      let value = from_le (take off bs ++ patch (drop off bs) rest) in
      let n = min (4 - off) (length rest) in
      let (a1, e1, held1) = read_word-ok view h base w.arm m (omega arith) done.written_held in
      let (a2, e2, held2) = write_word-ok view h base value a1 m (omega arith) held1 in
      let size = length-drop w.index buf in
      (
        record w { arm = a2; index = w.index + n; addr = w.addr + n },
        update base value m,
        ground (arith, e1, e2, size, done.written_addr, fits, more),
        IsWritten-more start n buf m0 m (update base value m) w a2 done held2
            (omega (arith, size, more))
            (λ a. byte_at-patch w.addr a rest m (All-drop IsByte w.index buf bytes)),
        omega (arith, size, more),
      )

  write_round-IsWritten :
      (start : ℕ) (buf : List ℕ) (m0 m : Ram) (w : Writing T)
      → IsWritten start buf m0 w m
      → All IsByte buf
      → start + length buf < 2 ^ 32
      → w.index < length buf
      → (w' : Writing T) × (m' : Ram) × (write_round (drop w.index buf) w ≡ (ok tt, w'))
        × IsWritten start buf m0 w' m'
        × (w.index < w'.index)
  unfolding write_round ◌>>=◌
  write_round-IsWritten start buf m0 m w done bytes fits more =
      elim (Bool-cases (w.addr % 4 == 0 && leb 4 (length (drop w.index buf)))) [
        | inl bulk ↦
            let (w', m', e, d, p) =
              write_bulk-IsWritten start buf m0 m w done bytes fits (ground (arith, bulk))
                (ground (arith, bulk)) in
            (w', m', ground (arith, e, bulk), d, p)
        | inr ragged ↦
            let (w', m', e, d, p) = write_ragged-IsWritten start buf m0 m w done bytes fits more in
            (w', m', ground (arith, e, ragged), d, p)
      ]

  write_loop-IsWritten :
      (fuel start : ℕ) (buf : List ℕ) (m0 m : Ram) (w : Writing T)
      → IsWritten start buf m0 w m
      → All IsByte buf
      → start + length buf < 2 ^ 32
      → length buf - w.index ≤ fuel
      → (w' : Writing T) × (m' : Ram) × (write_loop fuel buf w ≡ (ok tt, w'))
        × IsWritten start buf m0 w' m'
        × (w'.index ≡ length buf)
  unfolding write_loop ◌>>=◌
  write_loop-IsWritten zero start buf m0 m w done bytes fits enough =
      (w, m, refl, done, omega (arith, done.written_index))
  write_loop-IsWritten (suc fuel) start buf m0 m w done bytes fits enough =
      elim (Bool-cases (ltb w.index (length buf))) [
        | inl more ↦
            let (w1, m1, e1, d1, p) =
              write_round-IsWritten start buf m0 m w done bytes fits (ground (arith, more)) in
            let (w2, m2, e2, d2, full) =
              write_loop-IsWritten fuel start buf m0 m1 w1 d1 bytes fits
                (omega (arith, p, enough)) in
            (w2, m2, ground (arith, e1, e2, more), d2, full)
        | inr stop ↦ (w, m, ground (arith, stop), done, ground (arith, stop, done.written_index))
      ]

  -- From any address and of any length below the end of the address space, aligned or not, and
  -- across the blocks in which TAR counts on, write_mem answers Ok and leaves a memory in which the
  -- bytes of the range are those of the buffer and every other byte is as it was; the caches stay
  -- in order. The buffer is a list of bytes.
  pub write_mem-ok :
      (addr : ℕ) (buf : List ℕ) (a : ArmDebug T) (m : Ram)
      → addr + length buf < 2 ^ 32
      → All IsByte buf
      → Holds view a m
      → (a' : ArmDebug T) × (m' : Ram) × (write_mem addr buf a ≡ (ok tt, a'))
        × Holds view a' m'
        × ((i : ℕ) → byte_at m' i ≡ patched addr (length buf) buf m i)
  unfolding write_mem
  write_mem-ok addr buf a m fits bytes held =
      let w : Writing T = record { arm = a; index = 0; addr = addr } in
      let start : IsWritten addr buf m w m = record {
        written_held = held;
        written_addr = omega arith;
        written_index = omega arith;
        written_bytes = λ i. ground arith;
      } in
      let (w', m', e, d, full) =
        write_loop-IsWritten (length buf) addr buf m m w start bytes fits (omega arith) in
      (
        w'.arm,
        m',
        ap (λ x. (x.0, x.1.arm)) e,
        d.written_held,
        λ i. d.written_bytes i ∙ ap (λ n. patched addr n buf m i) full,
      )
