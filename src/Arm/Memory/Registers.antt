-- ===== src/Arm/Memory/Registers.antt =====
-- Register accesses of `ArmDebug` (arm-debug/src/lib.rs) on a target.
use rust_dap.Base.{
  ℕ, zero, suc, ◌≡◌, refl, ap, Bool, Bool-cases, true, false, ◌==◌, inl, inr, ok, ◌>>=◌, arith,
  panic,
}
use rust_dap.Transport.{DapTransport}
use rust_dap.Arm.Port.{
  ArmDebug, Port, dp, access, access_request, set_transport, select_value, csw_default, dp_select,
  ap_csw, ap_tar, after_access, access_loop, transfer, dp_write, select_ap_bank, ap_write,
}
use rust_dap.Arm.Target.{Bus, Target, IsTarget, IsSynced, IsOpen}

module _ {T : Type 0} ⦃t : DapTransport T⦄ where
  access_loop-ok :
      (request bits left v : ℕ) (s' : T) (a : ArmDebug T)
      → t.swd_transfer a.config request bits a.transport ≡ (ok v, s')
      → access_loop request bits left a ≡ (ok v, set_transport s' a)
  unfolding access_loop
  access_loop-ok request bits zero v s' a e = ap (after_access (λ b. (panic, b)) true a) e
  access_loop-ok request bits (suc left) v s' a e =
      ap (after_access (access_loop request bits left) false a) e

  pub transfer-ok :
      (port : Port) (rnw : Bool) (addr bits v : ℕ) (s' : T) (a : ArmDebug T)
      → t.swd_transfer a.config (access_request port rnw addr) bits a.transport ≡ (ok v, s')
      → transfer port rnw addr bits a ≡ (ok v, set_transport s' a)
  unfolding transfer
  transfer-ok port rnw addr bits v s' a e =
      access_loop-ok (access_request port rnw addr) bits a.retries v s' a e

module _ {T B : Type 0} ⦃t : DapTransport T⦄ ⦃u : Bus B⦄ (view : T → Target B)
    (h : IsTarget view t) where
  pub select_ap_bank-ok :
      (addr : ℕ) (a : ArmDebug T)
      → select_value 0 addr ≡ 0
      → IsSynced view a
      → (s' : T) × (select_ap_bank addr a ≡ (ok tt, record a { transport = s'; select = 0 }))
        × (view s' ≡ record (view a.transport) { select = 0 })
  unfolding select_ap_bank ◌>>=◌ dp_write
  select_ap_bank-ok addr a z synced = elim (Bool-cases (0 == a.select)) [
    | inl old ↦ (
      a.transport,
      ground (arith, synced.0, synced.1 (ground arith)),
      ground (arith, synced.1 (ground arith)),
    )
    | inr new ↦
        let (v, (s', e, w)) = h.select_write a.config 0 a.transport in
        (s', ground (arith, transfer-ok dp false dp_select 0 v s' a e, synced.0), w)
  ]

  pub select_open-ok :
      (addr : ℕ) (a : ArmDebug T) (b : B)
      → select_value 0 addr ≡ 0
      → IsOpen view a b
      → select_ap_bank addr a ≡ (ok tt, a)
  unfolding select_ap_bank ◌>>=◌
  select_open-ok addr a b z o = ground (arith, o.open_cached, o.open_apsel)

  pub tar_write-ok :
      (addr : ℕ) (a : ArmDebug T) (b : B)
      → IsSynced view a
      → (view a.transport).csw ≡ csw_default
      → (view a.transport).bus ≡ b
      → (a' : ArmDebug T) × (ap_write ap_tar addr a ≡ (ok tt, a'))
        × IsOpen view a' b
        × ((view a'.transport).tar ≡ addr)
  unfolding ap_write ◌>>=◌
  tar_write-ok addr a b synced csw bus =
      let (s1, e1, w1) = select_ap_bank-ok ap_tar a refl synced in
      let a1 : ArmDebug T = record a { transport = s1; select = 0 } in
      let (v, (s2, e2, w2)) = h.tar_write a.config addr s1 (ap (λ x. x.select) w1) in
      (
        set_transport s2 a1,
        ground (arith, e1, transfer-ok access false ap_tar addr v s2 a1 e2),
        record {
          open_apsel = synced.0;
          open_cached = refl;
          open_select = ground (arith, w1, w2);
          open_csw = ground (arith, w1, w2);
          open_bus = ground (arith, w1, w2);
        },
        ground (arith, w2),
      )

  pub csw_write-ok :
      (a : ArmDebug T) (b : B)
      → IsSynced view a
      → (view a.transport).bus ≡ b
      → (a' : ArmDebug T) × (ap_write ap_csw csw_default a ≡ (ok tt, a')) × IsOpen view a' b
  unfolding ap_write ◌>>=◌
  csw_write-ok a b synced bus =
      let (s1, e1, w1) = select_ap_bank-ok ap_csw a refl synced in
      let a1 : ArmDebug T = record a { transport = s1; select = 0 } in
      let (v, (s2, e2, w2)) = h.csw_write a.config csw_default s1 (ap (λ x. x.select) w1) in
      (
        set_transport s2 a1,
        ground (arith, e1, transfer-ok access false ap_csw csw_default v s2 a1 e2),
        record {
          open_apsel = synced.0;
          open_cached = refl;
          open_select = ground (arith, w1, w2);
          open_csw = ground (arith, w2);
          open_bus = ground (arith, w1, w2);
        },
      )
