-- ===== src/Arm/Nordic.antt =====
-- Access protection and flash of the nRF52 and nRF54L (arm-debug/src/lib.rs).
pub mod Runs
use rust_dap.Base.{
  ℕ, zero, suc, ◌-◌, ◌*◌, ◌%◌, Bool, not, List, [], ◌∷◌, length, take, drop, ◌==◌, if◌then◌else◌, M,
  pure, panicking, throw, modify, ◌>>=◌, ◌>>◌,
}
use rust_dap.Transport.{DapTransport}
use rust_dap.Base.Bits.{low_bit}
use rust_dap.Arm.Port.{ArmDebug, ArmError, core_timeout, set_apsel, ap_read, ap_write}
use rust_dap.Arm.Memory.{read_word, write_word, write_words, tar_run}
use rust_dap.Arm.Bytes.{advance}
use rust_dap.Arm.Connect.{poll, poll_or}

-- `nrf52::CTRL_AP`
abbrev pub nrf52_ctrl_ap : ℕ
nrf52_ctrl_ap = 1

-- `nrf54::CTRL_AP`
abbrev pub nrf54_ctrl_ap : ℕ
nrf54_ctrl_ap = 2

abbrev pub ctrlap_reset : ℕ
ctrlap_reset = 0

abbrev pub ctrlap_eraseall : ℕ
ctrlap_eraseall = 4

abbrev pub ctrlap_eraseallstatus : ℕ
ctrlap_eraseallstatus = 8

abbrev pub ctrlap_approtectstatus : ℕ
ctrlap_approtectstatus = 0xc

abbrev pub ctrlap_idr : ℕ
ctrlap_idr = 0xfc

abbrev pub ctrlap_idr_value : ℕ
ctrlap_idr_value = 0x0288_0000

abbrev pub nvmc_ready : ℕ
nvmc_ready = 0x4001_e400

abbrev pub nvmc_config : ℕ
nvmc_config = 0x4001_e504

abbrev pub nvmc_erasepage : ℕ
nvmc_erasepage = 0x4001_e508

-- `NVMC_CONFIG_REN`, `NVMC_CONFIG_WEN` and `NVMC_CONFIG_EEN`
abbrev pub nvmc_config_ren : ℕ
nvmc_config_ren = 0

abbrev pub nvmc_config_wen : ℕ
nvmc_config_wen = 1

abbrev pub nvmc_config_een : ℕ
nvmc_config_een = 2

abbrev pub flash_page : ℕ
flash_page = 4096

abbrev pub rramc_ready : ℕ
rramc_ready = 0x4004_b400

abbrev pub rramc_config : ℕ
rramc_config = 0x4004_b500

abbrev pub rramc_commit : ℕ
rramc_commit = 0x4004_b008

abbrev pub rramc_config_wen : ℕ
rramc_config_wen = 1

module _ {T : Type 0} ⦃t : DapTransport T⦄ where
  unfoldable pub use_ap : ℕ → M (ArmDebug T) ArmError (Unit {0})
  use_ap apsel = modify (set_apsel apsel)

  unfoldable pub nrf52_approtect_status : M (ArmDebug T) ArmError (Bool × Bool)
  nrf52_approtect_status = do
    use_ap nrf52_ctrl_ap
    idr ← ap_read ctrlap_idr
    status ← ap_read ctrlap_approtectstatus
    use_ap 0
    pure (low_bit status, idr == ctrlap_idr_value)

  unfoldable pub nrf54_approtect_status : M (ArmDebug T) ArmError Bool
  nrf54_approtect_status = do
    use_ap nrf54_ctrl_ap
    status ← ap_read ctrlap_approtectstatus
    use_ap 0
    pure (low_bit status)

  -- The body of `nrf52_erase_all` and `nrf54_erase_all`, which differ in the access port.
  unfoldable pub erase_all : ℕ → ℕ → M (ArmDebug T) ArmError (Unit {0})
  erase_all ctrl_ap polls = do
    use_ap ctrl_ap
    ap_write ctrlap_eraseall 1
    erased ← poll polls (ap_read ctrlap_eraseallstatus) (λ v. not (low_bit v))
    ap_write ctrlap_reset 1
    ap_write ctrlap_reset 0
    use_ap 0
    if erased then pure tt else throw core_timeout

  abbrev pub nrf52_erase_all : ℕ → M (ArmDebug T) ArmError (Unit {0})
  nrf52_erase_all = erase_all nrf52_ctrl_ap

  abbrev pub nrf54_erase_all : ℕ → M (ArmDebug T) ArmError (Unit {0})
  nrf54_erase_all = erase_all nrf54_ctrl_ap

  unfoldable pub nrf52_nvmc_wait : ℕ → M (ArmDebug T) ArmError (Unit {0})
  nrf52_nvmc_wait polls = poll_or core_timeout polls (read_word nvmc_ready) low_bit

  unfoldable pub nrf54_rramc_wait : ℕ → M (ArmDebug T) ArmError (Unit {0})
  nrf54_rramc_wait polls = poll_or core_timeout polls (read_word rramc_ready) low_bit

  unfoldable pub nrf52_erase_page : ℕ → ℕ → M (ArmDebug T) ArmError (Unit {0})
  nrf52_erase_page addr polls = do
    write_word nvmc_config nvmc_config_een
    nrf52_nvmc_wait polls
    write_word nvmc_erasepage (addr - addr % flash_page)
    nrf52_nvmc_wait polls
    write_word nvmc_config nvmc_config_ren

  -- The loop of `nrf52_program` and of `nrf54_program`: runs of words, and a step behind each. A
  -- panic stands for a loop that goes on without writing.
  unfoldable pub write_runs :
      M (ArmDebug T) ArmError (Unit {0}) → ℕ → ℕ → List ℕ → M (ArmDebug T) ArmError (Unit {0})
  write_runs behind fuel addr [] = pure tt
  write_runs behind zero addr (w ∷ ws) = panicking
  write_runs behind (suc fuel) addr (w ∷ ws) = do
    let run = tar_run addr (length (w ∷ ws))
    write_words addr (take run (w ∷ ws))
    behind
    write_runs behind fuel (advance addr (run * 4)) (drop run (w ∷ ws))

  unfoldable pub nrf52_program : ℕ → List ℕ → ℕ → M (ArmDebug T) ArmError (Unit {0})
  nrf52_program addr [] polls = pure tt
  nrf52_program addr (w ∷ ws) polls = do
    write_word nvmc_config nvmc_config_wen
    nrf52_nvmc_wait polls
    write_runs (nrf52_nvmc_wait polls) (length (w ∷ ws)) addr (w ∷ ws)
    write_word nvmc_config nvmc_config_ren

  unfoldable pub nrf54_program : ℕ → List ℕ → ℕ → M (ArmDebug T) ArmError (Unit {0})
  nrf54_program addr [] polls = pure tt
  nrf54_program addr (w ∷ ws) polls = do
    write_word rramc_config rramc_config_wen
    write_runs (pure tt) (length (w ∷ ws)) addr (w ∷ ws)
    write_word rramc_commit 1
    nrf54_rramc_wait polls
    write_word rramc_config 0
