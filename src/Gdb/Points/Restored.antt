-- ===== src/Gdb/Points/Restored.antt =====
-- A software breakpoint in RAM, set and removed (boards/rpi_pico/src/bin/gdb_server.rs).
use rust_dap.Base.{
  ℕ, zero, suc, ◌+◌, ◌-◌, ◌%◌, ◌^◌, ◌≡◌, ◌≤◌, ◌<◌, refl, ap, ◌∙◌, Bool, Bool-cases, true, false,
  ◌&&◌, none, some, ◌⊎◌, inl, inr, List, [], ◌∷◌, ◌++◌, length, get_elem?, replicate, All, leb, ltb,
  ◌==◌, ==_iff, if◌then◌else◌, ok, ◌>>=◌, arith, length-append, take-overwrite, take-length, ◌*◌,
  ◌/◌,
}
use rust_dap.Base.Words.{le_bytes2, le_bytes4, le_bytes4-IsByte, from_le, IsByte}
use rust_dap.Transport.{DapTransport}
use rust_dap.Arm.Port.{ArmDebug}
use rust_dap.Arm.Target.{IsTarget, Target, Holds}
use rust_dap.Arm.Ram.{Ram, ram, element, byte_at, bytes_at}
use rust_dap.Arm.Bytes.Patch.{patched}
use rust_dap.Arm.Bytes.Read.{read_mem-ok}
use rust_dap.Arm.Bytes.Write.{write_mem-ok}
use rust_dap.Gdb.Session.Control.{SwBpKind, SwBp, RpTarget}
use rust_dap.Gdb.Points.{
  bkpt, max_breakpoints, position, swap_remove, push_point, patch_ram, add_sw_breakpoint, undo,
  remove_sw_breakpoint,
}

position-append :
    (bps : List SwBp) (bp : SwBp) (i : ℕ)
    → position bps bp.at i ≡ none
    → position (bps ++ bp ∷ []) bp.at i ≡ some (i + length bps, bp)
unfolding position
position-append [] bp i free = ground (arith, (==_iff bp.at bp.at).1 refl)
position-append (b ∷ bps) bp i free = elim (Bool-cases (b.at == bp.at)) [
  | inl here ↦ absurd (ground (arith, free, here))
  | inr apart ↦
      let e : i + 1 + length bps ≡ i + length (b ∷ bps) = omega arith in
      ground (arith, apart, position-append bps bp (i + 1) (ground (arith, free, apart)), e)
]

get_last : {A : Type 0} (xs : List A) (x : A) → get_elem? (xs ++ x ∷ []) (length xs) ≡ some x
get_last [] x = refl
get_last (y ∷ xs) x = get_last xs x

swap_remove-append :
    {A : Type 0} (xs : List A) (x : A) → swap_remove (length xs) (xs ++ x ∷ []) ≡ xs
unfolding swap_remove
swap_remove-append xs x =
    let e : length (xs ++ x ∷ []) - 1 ≡ length xs = omega (arith, length-append xs (x ∷ [])) in
    rw (swap_remove, e, get_last xs x, e)
      (take-overwrite (length xs) (x ∷ []) (xs ++ x ∷ []) ∙ take-length xs (x ∷ []))

element-IsByte : (i : ℕ) (bs : List ℕ) → All IsByte bs → IsByte (element i bs)
element-IsByte i [] h = omega arith
element-IsByte zero (b ∷ bs) h = h.0
element-IsByte (suc i) (b ∷ bs) h = element-IsByte i bs h.1

byte_at-IsByte : (m : Ram) (i : ℕ) → IsByte (byte_at m i)
byte_at-IsByte m i =
    element-IsByte (i % 4) (le_bytes4 (m (i - i % 4))) (le_bytes4-IsByte (m (i - i % 4)))

halfword : (b c : ℕ) → IsByte b → IsByte c → le_bytes2 (from_le (b ∷ c ∷ [])) ≡ b ∷ c ∷ []
halfword b c hb hc =
    let lower : (b + 256 * (c + 256 * 0)) % 256 ≡ b = omega arith in
    let upper : (b + 256 * (c + 256 * 0)) / 256 % 256 ≡ c = omega arith in rw (lower, upper) refl

one_of_two : (addr i : ℕ) → addr ≤ i → i < addr + 2 → (i ≡ addr) ⊎ (i ≡ addr + 1)
one_of_two addr i low high = ground arith

abbrev inside : ℕ → ℕ → Bool
inside addr i = leb addr i && ltb i (addr + 2)

-- Two elements that were overwritten, put back.
put_back :
    (addr : ℕ) (new : List ℕ) (f f1 f2 : ℕ → ℕ)
    → ((i : ℕ) → f1 i ≡ (if inside addr i then element (i - addr) new else f i))
    → ((i : ℕ)
        → f2 i ≡ (if inside addr i then element (i - addr) (f addr ∷ f (addr + 1) ∷ []) else f1 i))
    → (i : ℕ) → f2 i ≡ f i
put_back addr new f f1 f2 there back i = elim (Bool-cases (inside addr i)) [
  | inr out ↦ ground (arith, there i, back i, out)
  | inl in_ ↦ elim (one_of_two addr i (ground (arith, in_)) (ground (arith, in_))) [
    | inl first ↦
        let e : i - addr ≡ 0 = omega (arith, first) in
        ground (arith, back i, in_, ap (λ j. element j (f addr ∷ f (addr + 1) ∷ [])) e, ap f first)
    | inr second ↦
        let e : i - addr ≡ 1 = omega (arith, second) in
        ground (arith, back i, in_, ap (λ j. element j (f addr ∷ f (addr + 1) ∷ [])) e, ap f second)
  ]
]

module _ {T : Type 0} ⦃t : DapTransport T⦄ (view : T → Target Ram) (h : IsTarget view t) where
  abbrev with_arm : ArmDebug T → List SwBp → RpTarget T → RpTarget T
  with_arm a bps x = record x { linked = record x.linked { link = a }; breakpoints = bps }

  abbrev point_of : ℕ → Ram → SwBp
  point_of addr m = record { at = addr; kind = SwBpKind.ram (from_le (bytes_at addr 2 m)) }

  patch_ram-ok :
      (addr : ℕ) (x : RpTarget T) (m : Ram)
      → addr + 2 < 2 ^ 32
      → Holds view x.linked.link m
      → (a1 : ArmDebug T) × (m1 : Ram) × (patch_ram addr x
          ≡ (ok true, with_arm a1 (x.breakpoints ++ point_of addr m ∷ []) x))
        × Holds view a1 m1
        × ((i : ℕ) → byte_at m1 i ≡ patched addr 2 (le_bytes2 bkpt) m i)
  unfolding patch_ram push_point ◌>>=◌
  patch_ram-ok addr x m fits held =
      let (a1, e1, held1) = read_mem-ok view h addr x.linked.link (replicate 2 0) m fits held in
      let (a2, m2, e2, held2, bytes) =
        write_mem-ok view h addr (le_bytes2 bkpt) a1 m fits (omega arith) held1 in
      (a2, m2, ground (arith, e1, e2), held2, bytes)

  remove-ok :
      (addr : ℕ) (bps : List SwBp) (x : RpTarget T) (m m1 : Ram) (a1 : ArmDebug T)
      → addr + 2 < 2 ^ 32
      → position bps addr 0 ≡ none
      → Holds view a1 m1
      → (a2 : ArmDebug T) × (m2 : Ram) × (remove_sw_breakpoint addr
            (with_arm a1 (bps ++ point_of addr m ∷ []) x)
          ≡ (ok true, with_arm a2 bps x))
        × Holds view a2 m2
        × ((i : ℕ) → byte_at m2 i ≡ patched addr 2 (le_bytes2 (from_le (bytes_at addr 2 m))) m1 i)
  unfolding remove_sw_breakpoint undo ◌>>=◌
  remove-ok addr bps x m m1 a1 fits free held =
      let (a2, m2, e2, held2, bytes) =
        write_mem-ok view h addr (le_bytes2 (from_le (bytes_at addr 2 m))) a1 m1 fits (omega arith)
          held in
      let found = position-append bps (point_of addr m) 0 free in
      (a2, m2, ground (arith, found, swap_remove-append bps (point_of addr m), e2), held2, bytes)

  -- A software breakpoint at an address of RAM that has none, while fewer than eight are set:
  -- add_sw_breakpoint answers true, and BKPT stands at the address and every other byte of memory is
  -- as it was; and remove_sw_breakpoint behind it answers true, and every byte of memory and the list
  -- of breakpoints are as they were before both. The address is below the end of the address space.
  pub remove_sw_breakpoint-add :
      (addr : ℕ) (x : RpTarget T) (m : Ram)
      → 0x2000_0000 ≤ addr
      → addr + 2 < 2 ^ 32
      → length x.breakpoints < max_breakpoints
      → position x.breakpoints addr 0 ≡ none
      → Holds view x.linked.link m
      → (x1 x2 : RpTarget T) × (m1 m2 : Ram) × (add_sw_breakpoint addr x ≡ (ok true, x1))
        × Holds view x1.linked.link m1
        × ((i : ℕ) → byte_at m1 i ≡ patched addr 2 (le_bytes2 bkpt) m i)
        × (remove_sw_breakpoint addr x1 ≡ (ok true, x2))
        × Holds view x2.linked.link m2
        × ((i : ℕ) → byte_at m2 i ≡ byte_at m i)
        × (x2.breakpoints ≡ x.breakpoints)
  unfolding add_sw_breakpoint ◌>>=◌ bytes_at
  remove_sw_breakpoint-add addr x m low fits room free held =
      let bps = x.breakpoints in
      let (a1, m1, e1, held1, bytes1) = patch_ram-ok addr x m fits held in
      let (a2, m2, e2, held2, bytes2) = remove-ok addr bps x m m1 a1 fits free held1 in
      let saved =
        halfword (byte_at m addr) (byte_at m (addr + 1)) (byte_at-IsByte m addr)
          (byte_at-IsByte m (addr + 1)) in
      let not_full : leb max_breakpoints (length bps) ≡ false = ground (arith, room) in
      let in_ram : ltb addr 0x2000_0000 ≡ false = ground (arith, low) in
      (
        with_arm a1 (bps ++ point_of addr m ∷ []) x,
        with_arm a2 bps x,
        m1,
        m2,
        ground (arith, not_full, in_ram, e1),
        held1,
        bytes1,
        e2,
        held2,
        put_back addr (le_bytes2 bkpt) (byte_at m) (byte_at m1) (byte_at m2) bytes1 (λ i.
            bytes2 i
            ∙ ap (λ l. if inside addr i then element (i - addr) l else byte_at m1 i) saved),
        refl,
      )
