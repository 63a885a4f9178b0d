-- ===== src/Arm/Memory/Blocks.antt =====
-- Blocks of words that `ArmDebug` reads and writes by counting on (arm-debug/src/lib.rs).
use rust_dap.Base.{
  ℕ, zero, suc, ◌+◌, ◌*◌, ◌<◌, ◌≤◌, ◌%◌, ◌≡◌, refl, sym, ap, List, [], ◌∷◌, ◌++◌, length, overwrite,
  ok, ◌>>=◌, arith, overwrite-append, overwrite-all, overwrite-nil, length-append,
}
use rust_dap.Transport.{DapTransport}
use rust_dap.Arm.Port.{ArmDebug, ap_drw}
use rust_dap.Arm.Target.{Bus, Target, IsTarget, IsOpen, Holds, IsOpen→Holds}
use rust_dap.Arm.Memory.{fill_head, read_posted, read_words, write_each, write_words}
use rust_dap.Arm.Memory.Registers.{select_open-ok, tar_write-ok}
use rust_dap.Arm.Memory.Refines.{IsAt, ensure_csw-ok, drw_read-ok, drw_write-ok, rdbuff-ok}

-- The words from `addr` on, one after the other.
unfoldable pub load_words : {B : Type 0} ⦃u : Bus B⦄ → ℕ → ℕ → B → List ℕ × B
load_words zero addr b = ([], b)
load_words ⦃u⦄ (suc n) addr b =
    let (ws, b') = load_words n (addr + 4) (u.load addr b).1 in ((u.load addr b).0 ∷ ws, b')

unfoldable pub store_words : {B : Type 0} ⦃u : Bus B⦄ → ℕ → List ℕ → B → B
store_words addr [] b = b
store_words ⦃u⦄ addr (w ∷ ws) b = store_words (addr + 4) ws (u.store addr w b)

-- `n` more words fit in the block of TAR.
abbrev pub InBlock : ℕ → ℕ → Type 0
InBlock addr n = addr % 1024 + 4 * n ≤ 1024

module _ {T B : Type 0} ⦃t : DapTransport T⦄ ⦃u : Bus B⦄ (view : T → Target B)
    (h : IsTarget view t) where
  write_each-ok :
      (addr : ℕ) (ws : List ℕ) (a : ArmDebug T) (b : B)
      → addr % 4 ≡ 0
      → InBlock addr (length ws)
      → IsOpen view a b
      → (0 < length ws → (view a.transport).tar ≡ addr)
      → (a' : ArmDebug T) × (write_each ws a ≡ (ok tt, a')) × IsOpen view a' (store_words addr ws b)
  unfolding write_each store_words ◌>>=◌
  write_each-ok addr [] a b aligned room o tar = (a, refl, o)
  write_each-ok addr (w ∷ ws) a b aligned room o tar =
      let (a1, v, e1, o1, counts) = drw_write-ok view h addr w a b aligned (o, tar (omega arith)) in
      let (a2, e2, o2) =
        write_each-ok (addr + 4) ws a1 (u.store addr w b) (omega arith) (omega (arith, room)) o1
          (λ m. counts (omega (arith, room, m))) in
      (a2, ground (arith, e1, e2), o2)

  -- The state of a block read: the posted word is the next one.
  abbrev IsPosted : ArmDebug T → ℕ → ℕ → ℕ → B → Type 0
  IsPosted a n word addr b =
      IsOpen view a b × ((view a.transport).posted ≡ word) × (0 < n → (view a.transport).tar ≡ addr)

  -- `vs` are the words that have been stored, and `v` is the one that is still posted.
  fill_head-ok :
      (i n word addr : ℕ) (a : ArmDebug T) (b : B) (out : List ℕ)
      → addr % 4 ≡ 0
      → InBlock addr n
      → IsPosted a n word addr b
      → (a' : ArmDebug T) × (vs : List ℕ) × (v : ℕ) × (fill_head i n (a, out)
          ≡ (ok tt, (a', overwrite i vs out)))
        × (length vs ≡ n)
        × (vs ++ v ∷ [] ≡ word ∷ (load_words n addr b).0)
        × IsOpen view a' (load_words n addr b).1
        × ((view a'.transport).posted ≡ v)
  unfolding fill_head load_words ◌>>=◌
  fill_head-ok i zero word addr a b out aligned room (o, posted, tar) =
      (a, [], word, ap (λ l. (ok tt, (a, l))) (sym (overwrite-nil i out)), refl, refl, o, posted)
  fill_head-ok i (suc n) word addr a b out aligned room (o, posted, tar) =
      let (a1, e1, o1, p1, counts) = drw_read-ok view h addr a b aligned (o, tar (omega arith)) in
      let (a2, vs, v, e2, len, all, o2, p2) =
        fill_head-ok (suc i) n (u.load addr b).0 (addr + 4) a1 (u.load addr b).1
          (overwrite i (word ∷ []) out) (omega arith) (omega (arith, room))
          (o1, p1, λ m. counts (omega (arith, room, m))) in
      (
        a2,
        word ∷ vs,
        v,
        ground (arith, e1, e2, posted, overwrite-append i (word ∷ []) vs out),
        omega (arith, len),
        ground (arith, all),
        o2,
        p2,
      )

  read_posted-ok :
      (n addr : ℕ) (a : ArmDebug T) (b : B) (out : List ℕ)
      → length out ≡ suc n
      → addr % 4 ≡ 0
      → InBlock addr (suc n)
      → IsAt view h a addr b
      → (a' : ArmDebug T) × (read_posted n (a, out) ≡ (ok tt, (a', (load_words (suc n) addr b).0)))
        × IsOpen view a' (load_words (suc n) addr b).1
  unfolding read_posted load_words ◌>>=◌
  read_posted-ok n addr a b out len aligned room (o, tar) =
      let (a1, e1, o1, p1, counts) = drw_read-ok view h addr a b aligned (o, tar) in
      let (a2, vs, v, e2, count, all, o2, p2) =
        fill_head-ok 0 n (u.load addr b).0 (addr + 4) a1 (u.load addr b).1 out (omega arith)
          (omega (arith, room)) (o1, p1, λ m. counts (omega (arith, room, m))) in
      let (a3, e3, o3) = rdbuff-ok view h a2 (load_words n (addr + 4) (u.load addr b).1).1 o2 in
      let full =
        overwrite-all (vs ++ v ∷ []) out
          (omega (arith, length-append {0} vs (v ∷ []), count, len)) in
      (
        a3,
        ground (
          arith,
          select_open-ok view h ap_drw a b refl o,
          e1,
          e2,
          e3,
          p2,
          count,
          overwrite-append 0 vs (v ∷ []) out,
          full,
          all,
        ),
        o3,
      )

  pub read_words-ok :
      (n addr : ℕ) (a : ArmDebug T) (b : B) (out : List ℕ)
      → length out ≡ n
      → addr % 4 ≡ 0
      → InBlock addr n
      → Holds view a b
      → (a' : ArmDebug T) × (read_words addr (a, out) ≡ (ok tt, (a', (load_words n addr b).0)))
        × Holds view a' (load_words n addr b).1
  unfolding read_words load_words ◌>>=◌
  read_words-ok zero addr a b [] len aligned room held =
      let (a1, e1, synced, csw, bus) = ensure_csw-ok view h a b held in
      let (a2, e2, o, tar) = tar_write-ok view h addr a1 b synced csw bus in
      (a2, ground (arith, e1, e2), IsOpen→Holds view a2 b o)
  read_words-ok (suc n) addr a b [] len aligned room held = absurd (omega (arith, len))
  read_words-ok zero addr a b (x ∷ out) len aligned room held = absurd (omega (arith, len))
  read_words-ok (suc n) addr a b (x ∷ out) len aligned room held =
      let (a1, e1, synced, csw, bus) = ensure_csw-ok view h a b held in
      let (a2, e2, o, tar) = tar_write-ok view h addr a1 b synced csw bus in
      let (a3, e3, o3) = read_posted-ok n addr a2 b (x ∷ out) len aligned room (o, tar) in
      let last : length out ≡ n = omega (arith, len) in
      (a3, ground (arith, e1, e2, e3, last), IsOpen→Holds view a3 (load_words (suc n) addr b).1 o3)

  pub write_words-ok :
      (addr : ℕ) (ws : List ℕ) (a : ArmDebug T) (b : B)
      → addr % 4 ≡ 0
      → InBlock addr (length ws)
      → Holds view a b
      → (a' : ArmDebug T) × (write_words addr ws a ≡ (ok tt, a'))
        × Holds view a' (store_words addr ws b)
  unfolding write_words store_words ◌>>=◌
  write_words-ok addr [] a b aligned room held = (a, refl, held)
  write_words-ok addr (w ∷ ws) a b aligned room held =
      let (a1, e1, synced, csw, bus) = ensure_csw-ok view h a b held in
      let (a2, e2, o, tar) = tar_write-ok view h addr a1 b synced csw bus in
      let (a3, e3, o3) = write_each-ok addr (w ∷ ws) a2 b aligned room o (λ m. tar) in
      let (a4, e4, o4) = rdbuff-ok view h a3 (store_words addr (w ∷ ws) b) o3 in
      (
        a4,
        ground (arith, e1, e2, select_open-ok view h ap_drw a2 b refl o, e3, e4),
        IsOpen→Holds view a4 (store_words addr (w ∷ ws) b) o4,
      )
