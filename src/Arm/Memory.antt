-- ===== src/Arm/Memory.antt =====
-- Target memory through the MEM-AP (arm-debug/src/lib.rs).
pub mod Registers
pub mod Refines
pub mod Blocks
use rust_dap.Base.{
  ℕ, zero, suc, ◌+◌, ◌-◌, ◌*◌, ◌/◌, ◌%◌, ◌^◌, min, Bool, true, false, ◌&&◌, List, [], ◌∷◌, length,
  take, drop, replicate, overwrite, shorter, leb, ltb, ◌==◌, if◌then◌else◌, M, ok, err, panic, pure,
  throw, gets, modify, panic_if, zoom, ◌>>=◌, ◌>>◌,
}
use rust_dap.Base.Words.{le_bytes4, from_le}
use rust_dap.Transport.{DapTransport}
use rust_dap.Arm.Port.{
  ArmDebug, ArmError, access, ap_csw, ap_tar, ap_drw, dp_rdbuff, csw_default, set_csw_valid,
  transfer, dp_read, select_ap_bank, ap_write, ap_read,
}

module _ {T : Type 0} ⦃t : DapTransport T⦄ where
  unfoldable pub ensure_csw : M (ArmDebug T) ArmError (Unit {0})
  ensure_csw = do
    valid ← gets (λ (a : ArmDebug T). a.csw_valid)
    if valid then pure tt else (do ap_write ap_csw csw_default; modify (set_csw_valid true))

  unfoldable pub read_word : ℕ → M (ArmDebug T) ArmError ℕ
  read_word addr = do ensure_csw; ap_write ap_tar addr; ap_read ap_drw

  unfoldable pub write_word : ℕ → ℕ → M (ArmDebug T) ArmError (Unit {0})
  write_word addr value = do
    ensure_csw
    ap_write ap_tar addr
    ap_write ap_drw value
    dp_read dp_rdbuff
    pure tt

  -- With the slice that a block read fills.
  abbrev pub on_arm : {A S : Type 0} → M (ArmDebug T) ArmError A → M (ArmDebug T × S) ArmError A
  on_arm = zoom (λ x. x.0) (λ a x. (a, x.1))

  -- `out[i] = v`, for an `i` in range
  abbrev pub put_slot : ℕ → ℕ → M (ArmDebug T × List ℕ) ArmError (Unit {0})
  put_slot i v = modify (λ x. (x.0, overwrite i (v ∷ []) x.1))

  -- The slots before the last one, from the `i`-th on: each read brings the word before it.
  unfoldable pub fill_head : ℕ → ℕ → M (ArmDebug T × List ℕ) ArmError (Unit {0})
  fill_head i zero = pure tt
  fill_head i (suc n) = do
    word ← on_arm (transfer access true ap_drw 0)
    put_slot i word
    fill_head (suc i) n

  -- The words of a slice that is not empty.
  unfoldable pub read_posted : ℕ → M (ArmDebug T × List ℕ) ArmError (Unit {0})
  read_posted last = do
    on_arm (select_ap_bank ap_drw)
    on_arm (transfer access true ap_drw 0)
    fill_head 0 last
    word ← on_arm (dp_read dp_rdbuff)
    put_slot last word

  unfoldable pub read_words : ℕ → M (ArmDebug T × List ℕ) ArmError (Unit {0})
  read_words addr = do
    on_arm ensure_csw
    on_arm (ap_write ap_tar addr)
    n ← gets (λ (x : ArmDebug T × List ℕ). length x.1)
    if n == 0 then pure tt else read_posted (n - 1)

  unfoldable pub write_each : List ℕ → M (ArmDebug T) ArmError (Unit {0})
  write_each [] = pure tt
  write_each (w ∷ ws) = do transfer access false ap_drw w; write_each ws

  unfoldable pub write_words : ℕ → List ℕ → M (ArmDebug T) ArmError (Unit {0})
  write_words addr [] = pure tt
  write_words addr (w ∷ ws) = do
    ensure_csw
    ap_write ap_tar addr
    select_ap_bank ap_drw
    write_each (w ∷ ws)
    dp_read dp_rdbuff
    pure tt

-- `(1024 - (addr & 1023)) / 4` words at most
unfoldable pub tar_run : ℕ → ℕ → ℕ
tar_run addr words = min ((1024 - addr % 1024) / 4) words
