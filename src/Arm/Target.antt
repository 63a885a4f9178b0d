-- ===== src/Arm/Target.antt =====
-- What `ArmDebug` (arm-debug/src/lib.rs) relies on in a target: the Debug Port and one MEM-AP of the
-- ARM Debug Interface v5, in front of a bus of 32-bit words.
use rust_dap.Base.{ℕ, ◌+◌, ◌<◌, ◌%◌, ◌≡◌, true, false, Result, ok}
use rust_dap.CmsisDap.{DapError}
use rust_dap.Transport.{DapConfig, DapTransport}
use rust_dap.Arm.Port.{
  ArmDebug, dp, access, access_request, csw_default, dp_select, dp_rdbuff, ap_csw, ap_tar, ap_drw,
}

-- A read may change the state, as that of a register that is cleared by it does.
pub record Bus (B : Type 0) : Type 0 where
  pub load : ℕ → B → ℕ × B
  pub store : ℕ → ℕ → B → B

-- The registers that the accesses go by, the answer of the last posted read, and the bus.
pub record Target (B : Type 0) : Type 0 where
  pub select : ℕ
  pub csw : ℕ
  pub tar : ℕ
  pub posted : ℕ
  pub bus : B

module _ {T B : Type 0} ⦃u : Bus B⦄ (view : T → Target B) where
  -- A transfer that the target acknowledges with a value, and what it makes of the target.
  abbrev pub Gives : Result DapError ℕ × T → ℕ → Target B → Type 0
  Gives x v after = (s' : T) × (x ≡ (ok v, s')) × (view s' ≡ after)

  -- A write, whose value is of no account.
  abbrev pub Takes : Result DapError ℕ × T → Target B → Type 0
  Takes x after = (v : ℕ) × Gives x v after

  -- TAR after an access to DRW: it counts on by a word within its block of 1 KiB, and nothing is
  -- said of it behind the last word of the block.
  abbrev pub CountsOn : ℕ → ℕ → Type 0
  CountsOn tar tar' = tar % 1024 + 4 < 1024 → tar' ≡ tar + 4

  -- The register accesses that an ADIv5 target documents, each of them acknowledged: SELECT, RDBUFF,
  -- and CSW, TAR and DRW of the MEM-AP at APSEL 0, while its bank 0 is selected and, for DRW, words
  -- with increment are and TAR is aligned.
  pub record IsTarget (t : DapTransport T) : Type 0 where
    pub select_write :
        (c : DapConfig) (v : ℕ) (s : T)
        → Takes
            (t.swd_transfer c (access_request dp false dp_select) v s)
            (record (view s) { select = v })
    pub rdbuff_read :
        (c : DapConfig) (s : T)
        → Gives (t.swd_transfer c (access_request dp true dp_rdbuff) 0 s) (view s).posted (view s)
    pub csw_write :
        (c : DapConfig) (v : ℕ) (s : T)
        → (view s).select ≡ 0
        → Takes
            (t.swd_transfer c (access_request access false ap_csw) v s)
            (record (view s) { csw = v })
    pub tar_write :
        (c : DapConfig) (v : ℕ) (s : T)
        → (view s).select ≡ 0
        → Takes
            (t.swd_transfer c (access_request access false ap_tar) v s)
            (record (view s) { tar = v })
    pub drw_write :
        (c : DapConfig) (v : ℕ) (s : T)
        → (view s).select ≡ 0
        → (view s).csw ≡ csw_default
        → (view s).tar % 4 ≡ 0
        → (tar' : ℕ) × CountsOn (view s).tar tar'
          × Takes
              (t.swd_transfer c (access_request access false ap_drw) v s)
              (record (view s) { tar = tar'; bus = u.store (view s).tar v (view s).bus })
    pub drw_read :
        (c : DapConfig) (s : T)
        → (view s).select ≡ 0
        → (view s).csw ≡ csw_default
        → (view s).tar % 4 ≡ 0
        → (tar' : ℕ) × CountsOn (view s).tar tar'
          × Gives
              (t.swd_transfer c (access_request access true ap_drw) 0 s)
              (view s).posted
              (record (view s) {
                tar = tar';
                posted = (u.load (view s).tar (view s).bus).0;
                bus = (u.load (view s).tar (view s).bus).1;
              })

module _ {T B : Type 0} (view : T → Target B) where
  -- The selection that is remembered is the target's, where it is that of the MEM-AP.
  abbrev pub IsSynced : ArmDebug T → Type 0
  IsSynced a = (a.apsel ≡ 0) × (a.select ≡ 0 → (view a.transport).select ≡ 0)

  -- The MEM-AP is selected, and its words are with increment.
  pub record IsOpen (a : ArmDebug T) (b : B) : Type 0 where
    pub open_apsel : a.apsel ≡ 0
    pub open_cached : a.select ≡ 0
    pub open_select : (view a.transport).select ≡ 0
    pub open_csw : (view a.transport).csw ≡ csw_default
    pub open_bus : (view a.transport).bus ≡ b

  -- What every operation on memory keeps: `b` is the state of the bus.
  pub record Holds (a : ArmDebug T) (b : B) : Type 0 where
    pub held_synced : IsSynced a
    pub held_csw : a.csw_valid ≡ true → (view a.transport).csw ≡ csw_default
    pub held_bus : (view a.transport).bus ≡ b

  pub IsOpen→Holds : (a : ArmDebug T) (b : B) → IsOpen a b → Holds a b
  IsOpen→Holds a b o = record {
    held_synced = (o.open_apsel, λ e. o.open_select);
    held_csw = λ e. o.open_csw;
    held_bus = o.open_bus;
  }
