-- ===== src/Arm/Port.antt =====
-- Transfers and access port registers of `ArmDebug` (arm-debug/src/lib.rs).
pub mod Policy
use rust_dap.Base.{
  ℕ, zero, suc, ◌*◌, ◌/◌, ◌%◌, ◌^◌, Bool, true, false, bit_and, bit_or, ◌==◌, if◌then◌else◌, Result,
  M, ok, err, panic, pure, gets, modify, ◌>>=◌, ◌>>◌,
}
use rust_dap.CmsisDap.{DapError, swd_error, ap_n_dp, r_n_w, a2, a3, dap_transfer_wait}
use rust_dap.Transport.{DapTransport, DapConfig}

pub data ArmError : Type 0 where
  transfer_failed : ℕ → ArmError
  still_waiting : ArmError
  unsupported_operation : ArmError
  power_up_timeout : ArmError
  core_timeout : ArmError
  no_target : ArmError
  broken_invariant : ArmError

-- `ArmError::from`
abbrev pub arm_error : DapError → ArmError
arm_error (swd_error ack) = transfer_failed ack
arm_error DapError.not_supported = unsupported_operation
arm_error DapError.invalid_command = broken_invariant
arm_error DapError.invalid_dap_info_id = broken_invariant
arm_error DapError.internal_error = broken_invariant
arm_error DapError.exceed_retry_count = broken_invariant

pub data Port : Type 0 where
  dp : Port
  access : Port

abbrev pub dp_dpidr : ℕ
dp_dpidr = 0

abbrev pub dp_abort : ℕ
dp_abort = 0

abbrev pub dp_ctrl_stat : ℕ
dp_ctrl_stat = 4

abbrev pub dp_select : ℕ
dp_select = 8

abbrev pub dp_rdbuff : ℕ
dp_rdbuff = 12

abbrev pub dp_targetsel : ℕ
dp_targetsel = 12

abbrev pub ap_csw : ℕ
ap_csw = 0

abbrev pub ap_tar : ℕ
ap_tar = 4

abbrev pub ap_drw : ℕ
ap_drw = 12

abbrev pub abort_clear_all : ℕ
abort_clear_all = 0x1e

-- `CSW_SIZE_WORD | CSW_ADDRINC_SINGLE | 0x2300_0000`
abbrev pub csw_default : ℕ
csw_default = bit_or (bit_or 2 (2 ^ 4)) 0x2300_0000

abbrev pub no_select : ℕ
no_select = 0xffff_ffff

pub record ArmDebug (T : Type 0) : Type 0 where
  pub transport : T
  pub config : DapConfig
  pub select : ℕ
  pub csw_valid : Bool
  pub apsel : ℕ
  pub retries : ℕ

-- `ArmDebug::new`
abbrev pub new : {T : Type 0} → T → DapConfig → ArmDebug T
new transport config = record {
  transport = transport;
  config = config;
  select = no_select;
  csw_valid = false;
  apsel = 0;
  retries = 64;
}

abbrev pub converted : {A : Type 0} → Result DapError A → Result ArmError A
converted (ok v) = ok v
converted (err e) = err (arm_error e)
converted panic = panic

module _ {T : Type 0} where
  abbrev pub set_transport : T → ArmDebug T → ArmDebug T
  set_transport s a = record a { transport = s }

  abbrev pub set_select : ℕ → ArmDebug T → ArmDebug T
  set_select select a = record a { select = select }

  abbrev pub set_csw_valid : Bool → ArmDebug T → ArmDebug T
  set_csw_valid valid a = record a { csw_valid = valid }

  -- `self.transport.call(&self.config, ...)?`
  unfoldable pub on_link : {A : Type 0} → (DapConfig → M T DapError A) → M (ArmDebug T) ArmError A
  on_link call a = let (r, s) = call a.config a.transport in (converted r, set_transport s a)

-- `(self.apsel as u32) << 24 | bank << 4`, for an `apsel` of a byte
abbrev pub select_value : ℕ → ℕ → ℕ
select_value apsel ap_addr = bit_or (apsel * 2 ^ 24) (ap_addr / 16 % 16 * 16)

-- The request byte of a register access, without start, parity, stop and park.
unfoldable pub access_request : Port → Bool → ℕ → ℕ
access_request port rnw addr =
    let request : ℕ = elim port [ dp ↦ 0 | access ↦ bit_or 0 ap_n_dp ] in
    let request = if rnw then bit_or request r_n_w else request in
    let request = if bit_and addr 4 == 0 then request else bit_or request a2 in
    if bit_and addr 8 == 0 then request else bit_or request a3

module _ {T : Type 0} ⦃t : DapTransport T⦄ where
  -- What it answers is dropped.
  unfoldable pub clear_sticky_errors : ArmDebug T → ArmDebug T
  clear_sticky_errors a = set_transport (t.swd_transfer a.config 0 abort_clear_all a.transport).1 a

  -- What a round of the loop makes of its transfer: `again` runs the next one, and `spent` says
  -- that the count has reached its bound.
  unfoldable pub after_access :
      M (ArmDebug T) ArmError ℕ
      → Bool
      → ArmDebug T
      → Result DapError ℕ × T
      → Result ArmError ℕ × ArmDebug T
  unfolding clear_sticky_errors
  after_access again spent a (ok v, s) = (ok v, set_transport s a)
  after_access again spent a (err (swd_error ack), s) =
      if ack == dap_transfer_wait
      then (if spent then (err still_waiting, set_transport s a) else again (set_transport s a))
      else (err (transfer_failed ack), clear_sticky_errors (set_transport s a))
  after_access again spent a (err e, s) =
      (err (arm_error e), clear_sticky_errors (set_transport s a))
  after_access again spent a (panic, s) = (panic, set_transport s a)

  -- `left` is `self.retries - retry`.
  unfoldable pub access_loop : ℕ → ℕ → ℕ → M (ArmDebug T) ArmError ℕ
  unfolding after_access
  access_loop request bits zero a =
      after_access (λ b. (panic, b)) true a (t.swd_transfer a.config request bits a.transport)
  access_loop request bits (suc left) a =
      after_access (access_loop request bits left) false a
        (t.swd_transfer a.config request bits a.transport)

  -- `ArmDebug::transfer`
  unfoldable pub transfer : Port → Bool → ℕ → ℕ → M (ArmDebug T) ArmError ℕ
  transfer port rnw addr bits a = access_loop (access_request port rnw addr) bits a.retries a

  unfoldable pub dp_read : ℕ → M (ArmDebug T) ArmError ℕ
  dp_read addr = transfer dp true addr 0

  unfoldable pub dp_write : ℕ → ℕ → M (ArmDebug T) ArmError (Unit {0})
  dp_write addr bits = do transfer dp false addr bits; pure tt

  unfoldable pub select_ap_bank : ℕ → M (ArmDebug T) ArmError (Unit {0})
  select_ap_bank ap_addr = do
    wanted ← gets (λ (a : ArmDebug T). select_value a.apsel ap_addr)
    selected ← gets (λ (a : ArmDebug T). a.select)
    if wanted == selected
        then pure tt
        else (do dp_write dp_select wanted; modify (set_select wanted))

  unfoldable pub ap_write : ℕ → ℕ → M (ArmDebug T) ArmError (Unit {0})
  ap_write addr bits = do
    select_ap_bank addr
    transfer access false (bit_and addr 0xc) bits
    pure tt

  unfoldable pub ap_read : ℕ → M (ArmDebug T) ArmError ℕ
  ap_read addr = do
    select_ap_bank addr
    transfer access true (bit_and addr 0xc) 0
    dp_read dp_rdbuff

module _ {T : Type 0} where
  unfoldable pub set_apsel : ℕ → ArmDebug T → ArmDebug T
  set_apsel apsel a = if apsel == a.apsel then a else record a { apsel = apsel; csw_valid = false }
