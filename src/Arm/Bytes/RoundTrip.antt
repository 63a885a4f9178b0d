-- ===== src/Arm/Bytes/RoundTrip.antt =====
-- What `write_mem` wrote, `read_mem` reads (arm-debug/src/lib.rs).
use rust_dap.Base.{
  ℕ, suc, ◌+◌, ◌-◌, ◌^◌, ◌≡◌, ◌<◌, refl, ap, ◌∙◌, List, [], ◌∷◌, length, All, ok, arith,
}
use rust_dap.Base.Words.{IsByte}
use rust_dap.Transport.{DapTransport}
use rust_dap.Arm.Port.{ArmDebug}
use rust_dap.Arm.Target.{Target, IsTarget, Holds}
use rust_dap.Arm.Ram.{Ram, ram, element, byte_at, bytes_at}
use rust_dap.Arm.Bytes.{read_mem, write_mem}
use rust_dap.Arm.Bytes.Patch.{patched}
use rust_dap.Arm.Bytes.Read.{read_mem-ok}
use rust_dap.Arm.Bytes.Write.{write_mem-ok}

bytes_at-eq :
    (addr : ℕ) (xs : List ℕ) (m : Ram)
    → ((i : ℕ) → i < length xs → byte_at m (addr + i) ≡ element i xs)
    → bytes_at addr (length xs) m ≡ xs
unfolding bytes_at
bytes_at-eq addr [] m h = refl
bytes_at-eq addr (x ∷ xs) m h =
    let first : byte_at m addr ≡ x = ap (byte_at m) (omega arith) ∙ h 0 (omega arith) in
    let rest : bytes_at (addr + 1) (length xs) m ≡ xs =
      bytes_at-eq (addr + 1) xs m (λ i p. ap (byte_at m) (omega arith) ∙ h (suc i) (omega arith)) in
    ap (λ v. v ∷ bytes_at (addr + 1) (length xs) m) first ∙ ap (λ l. x ∷ l) rest

patched_inside :
    (addr i n : ℕ) (xs : List ℕ) (m : Ram) → i < n → patched addr n xs m (addr + i) ≡ element i xs
patched_inside addr i n xs m h = ground (arith, ap (λ j. element j xs) (offset addr i))
  where
    offset : (addr i : ℕ) → addr + i - addr ≡ i
    offset addr i = omega arith

module _ {T : Type 0} ⦃t : DapTransport T⦄ (view : T → Target Ram) (h : IsTarget view t) where
  -- Below the end of the address space, a list of bytes that is written to memory and read back into
  -- a buffer of its length comes back as it was, wherever it starts; both calls answer Ok.
  pub read_mem-write_mem :
      (addr : ℕ) (buf out : List ℕ) (a : ArmDebug T) (m : Ram)
      → addr + length buf < 2 ^ 32
      → All IsByte buf
      → length out ≡ length buf
      → Holds view a m
      → (a1 : ArmDebug T) × (a2 : ArmDebug T) × (write_mem addr buf a ≡ (ok tt, a1))
        × (read_mem addr (a1, out) ≡ (ok tt, (a2, buf)))
  read_mem-write_mem addr buf out a m fits bytes size held =
      let (a1, m1, e1, held1, new) = write_mem-ok view h addr buf a m fits bytes held in
      let (a2, e2, held2) = read_mem-ok view h addr a1 out m1 (omega (arith, size, fits)) held1 in
      let same =
        bytes_at-eq addr buf m1
          (λ i p. new (addr + i) ∙ patched_inside addr i (length buf) buf m p) in
      (a1, a2, e1, e2 ∙ ap (λ l. (ok tt, (a2, l))) (ap (λ n. bytes_at addr n m1) size ∙ same))
