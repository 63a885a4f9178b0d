-- ===== src/Arm/Memory/Refines.antt =====
-- The words of target memory that `ArmDebug` reads and writes (arm-debug/src/lib.rs).
use rust_dap.Base.{ℕ, ◌%◌, ◌≡◌, refl, Bool-cases, true, false, inl, inr, ok, ◌>>=◌, ◌>>◌, arith}
use rust_dap.Transport.{DapTransport}
use rust_dap.Arm.Port.{
  ArmDebug, access, dp, set_transport, csw_default, dp_rdbuff, ap_tar, ap_drw, transfer, dp_read,
  ap_write, ap_read, set_csw_valid,
}
use rust_dap.Arm.Target.{Bus, Target, IsTarget, CountsOn, IsSynced, IsOpen, Holds, IsOpen→Holds}
use rust_dap.Arm.Memory.{ensure_csw, read_word, write_word}
use rust_dap.Arm.Memory.Registers.{transfer-ok, select_open-ok, tar_write-ok, csw_write-ok}

module _ {T B : Type 0} ⦃t : DapTransport T⦄ ⦃u : Bus B⦄ (view : T → Target B)
    (h : IsTarget view t) where
  -- TAR is loaded.
  abbrev pub IsAt : ArmDebug T → ℕ → B → Type 0
  IsAt a addr b = IsOpen view a b × ((view a.transport).tar ≡ addr)

  pub ensure_csw-ok :
      (a : ArmDebug T) (b : B)
      → Holds view a b
      → (a' : ArmDebug T) × (ensure_csw a ≡ (ok tt, a'))
        × IsSynced view a'
        × ((view a'.transport).csw ≡ csw_default)
        × ((view a'.transport).bus ≡ b)
  unfolding ensure_csw ◌>>=◌
  ensure_csw-ok a b held = elim (Bool-cases a.csw_valid) [
    | inl valid ↦ (a, ground (arith, valid), held.held_synced, held.held_csw valid, held.held_bus)
    | inr fresh ↦
        let (a1, e1, o) = csw_write-ok view h a b held.held_synced held.held_bus in
        (
          set_csw_valid true a1,
          ground (arith, fresh, e1),
          (o.open_apsel, λ e. o.open_select),
          o.open_csw,
          o.open_bus,
        )
  ]

  pub IsAt-ok :
      (addr : ℕ) (a : ArmDebug T) (b : B)
      → Holds view a b
      → (a' : ArmDebug T) × ((ensure_csw >> ap_write ap_tar addr) a ≡ (ok tt, a')) × IsAt a' addr b
  unfolding ◌>>=◌
  IsAt-ok addr a b held =
      let (a1, e1, synced, csw, bus) = ensure_csw-ok a b held in
      let (a2, e2, o, tar) = tar_write-ok view h addr a1 b synced csw bus in
      (a2, ground (arith, e1, e2), (o, tar))

  pub drw_read-ok :
      (addr : ℕ) (a : ArmDebug T) (b : B)
      → addr % 4 ≡ 0
      → IsAt a addr b
      → (a' : ArmDebug T) × (transfer access true ap_drw 0 a ≡ (ok (view a.transport).posted, a'))
        × IsOpen view a' (u.load addr b).1
        × ((view a'.transport).posted ≡ (u.load addr b).0)
        × CountsOn view addr (view a'.transport).tar
  drw_read-ok addr a b aligned (o, tar) =
      let (tar', counts, (s', e, w)) =
        h.drw_read a.config a.transport o.open_select o.open_csw (ground (arith, aligned, tar)) in
      (
        set_transport s' a,
        transfer-ok access true ap_drw 0 (view a.transport).posted s' a e,
        record {
          open_apsel = o.open_apsel;
          open_cached = o.open_cached;
          open_select = ground (arith, w, o.open_select);
          open_csw = ground (arith, w, o.open_csw);
          open_bus = ground (arith, w, tar, o.open_bus);
        },
        ground (arith, w, tar, o.open_bus),
        λ m. ground (arith, w, tar, counts),
      )

  pub drw_write-ok :
      (addr value : ℕ) (a : ArmDebug T) (b : B)
      → addr % 4 ≡ 0
      → IsAt a addr b
      → (a' : ArmDebug T) × (v : ℕ) × (transfer access false ap_drw value a ≡ (ok v, a'))
        × IsOpen view a' (u.store addr value b)
        × CountsOn view addr (view a'.transport).tar
  drw_write-ok addr value a b aligned (o, tar) =
      let (tar', counts, (v, (s', e, w))) =
        h.drw_write a.config value a.transport o.open_select o.open_csw
          (ground (arith, aligned, tar)) in
      (
        set_transport s' a,
        v,
        transfer-ok access false ap_drw value v s' a e,
        record {
          open_apsel = o.open_apsel;
          open_cached = o.open_cached;
          open_select = ground (arith, w, o.open_select);
          open_csw = ground (arith, w, o.open_csw);
          open_bus = ground (arith, w, tar, o.open_bus);
        },
        λ m. ground (arith, w, tar, counts),
      )

  -- RDBUFF gives the word that was posted last, and changes nothing.
  pub rdbuff-ok :
      (a : ArmDebug T) (b : B)
      → IsOpen view a b
      → (a' : ArmDebug T) × (dp_read dp_rdbuff a ≡ (ok (view a.transport).posted, a'))
        × IsOpen view a' b
  unfolding dp_read
  rdbuff-ok a b o =
      let (s', e, w) = h.rdbuff_read a.config a.transport in
      (
        set_transport s' a,
        transfer-ok dp true dp_rdbuff 0 (view a.transport).posted s' a e,
        record {
          open_apsel = o.open_apsel;
          open_cached = o.open_cached;
          open_select = ground (arith, w, o.open_select);
          open_csw = ground (arith, w, o.open_csw);
          open_bus = ground (arith, w, o.open_bus);
        },
      )

  pub read_word-ok :
      (addr : ℕ) (a : ArmDebug T) (b : B)
      → addr % 4 ≡ 0
      → Holds view a b
      → (a' : ArmDebug T) × (read_word addr a ≡ (ok (u.load addr b).0, a'))
        × Holds view a' (u.load addr b).1
  unfolding read_word ap_read ◌>>=◌
  read_word-ok addr a b aligned held =
      let (a1, e1, (o, tar)) = IsAt-ok addr a b held in
      let (a2, e2, o2, posted, counts) = drw_read-ok addr a1 b aligned (o, tar) in
      let (a3, e3, o3) = rdbuff-ok a2 (u.load addr b).1 o2 in
      (
        a3,
        ground (arith, e1, select_open-ok view h ap_drw a1 b refl o, e2, e3, posted),
        IsOpen→Holds view a3 (u.load addr b).1 o3,
      )

  pub write_word-ok :
      (addr value : ℕ) (a : ArmDebug T) (b : B)
      → addr % 4 ≡ 0
      → Holds view a b
      → (a' : ArmDebug T) × (write_word addr value a ≡ (ok tt, a'))
        × Holds view a' (u.store addr value b)
  unfolding write_word ap_write ◌>>=◌
  write_word-ok addr value a b aligned held =
      let (a1, e1, (o, tar)) = IsAt-ok addr a b held in
      let (a2, v, e2, o2, counts) = drw_write-ok addr value a1 b aligned (o, tar) in
      let (a3, e3, o3) = rdbuff-ok a2 (u.store addr value b) o2 in
      (
        a3,
        ground (arith, e1, select_open-ok view h ap_drw a1 b refl o, e2, e3),
        IsOpen→Holds view a3 (u.store addr value b) o3,
      )
