-- ===== src/Dispatcher/Configured/Settings.antt =====
-- The commands that change the configuration keep it in order (rust-dap/src/dispatcher.rs).
use rust_dap.Base.{
  ℕ, ◌+◌, ◌≤◌, ◌≡◌, refl, true, List, [], ◌∷◌, take, All, ◌>>=◌, arith, length-overwrite, bit_and,
  inl, inr, pure, leb, passes_below, passes_below→passes, Bool-cases, ltb, ◌>>◌,
}
use rust_dap.Base.Words.{IsByte, from_le}
use rust_dap.Base.Hoare.{Keeps}
use rust_dap.CmsisDap.{DapInfoId, dap_ok}
use rust_dap.Transport.{DapTransport, max_jtag_devices}
use rust_dap.Dispatcher.Session.{set_config, put}
use rust_dap.Dispatcher.Configured.{IsClockOnly, HoldsConfig, session_rules}
use rust_dap.Dispatcher.Config.{
  info_value, dap_info, configured_transfers, transfer_configure, configured_swd, swd_configure,
  configured_chain, jtag_configure,
}
use rust_dap.Dispatcher.Configured.Commands.{write_str-Keeps}
use rust_dap.Dispatcher.Swj.{set_clock, swj_clock}

turn_around_table : passes_below (λ b. leb (bit_and b 3) 3) 256 ≡ true
unfolding passes_below
turn_around_table = refl

turn_around_fits : (b : ℕ) → IsByte b → bit_and b 3 ≤ 3
turn_around_fits b h = ground (arith, passes_below→passes _ 256 turn_around_table b h)

module _ {T : Type 0} ⦃t : DapTransport T⦄ where
  info_value-Keeps : (max : ℕ) (id : DapInfoId) → Keeps HoldsConfig (info_value {T = T} max id)
  unfolding info_value
  info_value-Keeps max DapInfoId.vendor = record {
    run = λ s. (write_str-Keeps s.dispatcher.config.identity.vendor).run s;
  }
  info_value-Keeps max DapInfoId.product = record {
    run = λ s. (write_str-Keeps s.dispatcher.config.identity.product).run s;
  }
  info_value-Keeps max DapInfoId.serial_number = record {
    run = λ s. (write_str-Keeps s.dispatcher.config.identity.serial_number).run s;
  }
  info_value-Keeps max DapInfoId.cmsis_dap_ver = record {
    run = λ s. (write_str-Keeps s.dispatcher.config.identity.firmware_version).run s;
  }
  info_value-Keeps max DapInfoId.product_firmware_version = record {
    run = λ s. (write_str-Keeps s.dispatcher.config.identity.product_firmware_version).run s;
  }
  info_value-Keeps max DapInfoId.capabilities = search session_rules depth 12
  info_value-Keeps max DapInfoId.packet_count = search session_rules depth 12
  info_value-Keeps max DapInfoId.packet_size = search session_rules depth 12
  info_value-Keeps max DapInfoId.device_vendor = search session_rules
  info_value-Keeps max DapInfoId.device_name = search session_rules
  info_value-Keeps max DapInfoId.time_stamp_clock = search session_rules
  info_value-Keeps max DapInfoId.swo_buffer_size = search session_rules

  pub dap_info-Keeps :
      (max : ℕ) (request : List ℕ) → Keeps HoldsConfig (dap_info {T = T} max request)
  unfolding dap_info
  dap_info-Keeps max request = search (session_rules, info_value-Keeps) depth 14

  answer-Keeps : (n : ℕ) → Keeps {A = ℕ × ℕ} HoldsConfig (do put {T = T} 0 dap_ok; pure (n, 1))
  answer-Keeps n = search session_rules depth 9

  pub transfer_configure-Keeps :
      (request : List ℕ)
      → All IsByte request
      → Keeps HoldsConfig (transfer_configure {T = T} request)
  unfolding transfer_configure ◌>>=◌
  transfer_configure-Keeps (idle ∷ r0 ∷ r1 ∷ m0 ∷ m1 ∷ rest) bytes = record {
    run = λ s h.
        (answer-Keeps 5).run
          (set_config
            (configured_transfers idle (from_le (r0 ∷ r1 ∷ [])) (from_le (m0 ∷ m1 ∷ []))
              s.dispatcher.config)
            s)
          (ground arith);
  }
  transfer_configure-Keeps _ bytes = record { run = λ s h. h }

  pub swd_configure-Keeps :
      (request : List ℕ) → All IsByte request → Keeps HoldsConfig (swd_configure {T = T} request)
  unfolding swd_configure ◌>>=◌
  swd_configure-Keeps [] bytes = record { run = λ s h. h }
  swd_configure-Keeps (byte ∷ rest) bytes = record {
    run = λ s h.
        (answer-Keeps 1).run (set_config (configured_swd byte s.dispatcher.config) s)
          (ground (arith, turn_around_fits byte bytes.0));
  }

  pub jtag_configure-Keeps : (request : List ℕ) → Keeps HoldsConfig (jtag_configure {T = T} request)
  unfolding jtag_configure ◌>>=◌
  jtag_configure-Keeps [] = record { run = λ s h. h }
  jtag_configure-Keeps (count ∷ rest) = record {
    run = λ s h. elim (Bool-cases (ltb max_jtag_devices count)) [
      | inl e ↦ ground (arith, e)
      | inr e ↦ ground (
        arith,
        e,
        (answer-Keeps (count + 1)).run
            (set_config (configured_chain (take count rest) count s.dispatcher.config) s)
            (ground
              (arith, e, length-overwrite 0 (take count rest) s.dispatcher.config.jtag.ir_length)),
      )
    ];
  }

  set_clock-Keeps : IsClockOnly t → (hz : ℕ) → Keeps HoldsConfig (set_clock {T = T} hz)
  unfolding set_clock
  set_clock-Keeps law hz = record {
    run = λ s h. law.clock_keeps hz s.transport s.dispatcher.config h;
  }

  pub swj_clock-Keeps :
      IsClockOnly t → (request : List ℕ) → Keeps HoldsConfig (swj_clock {T = T} request)
  unfolding swj_clock
  swj_clock-Keeps law request = search (session_rules, set_clock-Keeps law) depth 12
