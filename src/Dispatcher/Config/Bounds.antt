-- ===== src/Dispatcher/Config/Bounds.antt =====
-- The handlers of Config stay inside the request and the response (rust-dap/src/dispatcher.rs).
use rust_dap.Base.{
  ℕ, ◌+◌, ◌≤◌, List, [], ◌∷◌, length, drop, length-overwrite, ◌>>=◌, not_shorter→le, length-drop,
  arith,
}
use rust_dap.Base.Hoare.{Ensures}
use rust_dap.Transport.{DapTransport}
use rust_dap.CmsisDap.{DapInfoId}
use rust_dap.Dispatcher.Session.{put_slice, IsSized, Within}
use rust_dap.Dispatcher.Config.{
  dap_info, info_value, write_str, host_status, transfer_configure, swd_configure, jtag_configure,
}

module _ {T : Type 0} (request : List ℕ) (n : ℕ) where
  pub host_status-Within : Ensures (IsSized n) (host_status {T = T} request) (Within request n)
  unfolding host_status ◌>>=◌ put_slice
  host_status-Within s h = ground (
    arith,
    not_shorter→le request 2,
    not_shorter→le s.response 1,
    length-overwrite 0 (0 ∷ []) s.response,
  )

  pub transfer_configure-Within :
      Ensures (IsSized n) (transfer_configure {T = T} request) (Within request n)
  unfolding transfer_configure ◌>>=◌ put_slice
  transfer_configure-Within s h = ground (
    arith,
    not_shorter→le request 5,
    not_shorter→le s.response 1,
    length-overwrite 0 (0 ∷ []) s.response,
  )

  pub swd_configure-Within : Ensures (IsSized n) (swd_configure {T = T} request) (Within request n)
  unfolding swd_configure ◌>>=◌ put_slice
  swd_configure-Within s h = ground (
    arith,
    not_shorter→le request 1,
    not_shorter→le s.response 1,
    length-overwrite 0 (0 ∷ []) s.response,
  )

pub jtag_configure-Within :
    {T : Type 0} (request : List ℕ) (n : ℕ)
    → Ensures (IsSized n) (jtag_configure {T = T} request) (Within request n)
unfolding jtag_configure ◌>>=◌ put_slice
jtag_configure-Within [] n s h = h
jtag_configure-Within (count ∷ lengths) n s h = ground (
  arith,
  not_shorter→le (count ∷ lengths) (count + 1),
  not_shorter→le s.response 1,
  length-overwrite 0 (0 ∷ []) s.response,
)

module _ {T : Type 0} ⦃t : DapTransport T⦄ (n : ℕ) where
  write_str-fits :
      (bytes : List ℕ)
      → 1 ≤ n
      → Ensures (IsSized n) (write_str {T = T} bytes) (λ len s. len + 1 ≤ n)
  unfolding write_str ◌>>=◌ put_slice
  write_str-fits bytes some_room s h = ground (
    arith,
    not_shorter→le (drop 1 s.response) (length bytes),
    length-drop 1 s.response,
    length-overwrite 1 bytes s.response,
  )

  info_value-fits :
      (max_packet_size : ℕ) (i : DapInfoId)
      → 1 ≤ n
      → Ensures (IsSized n) (info_value {T = T} max_packet_size i) (λ len s. len + 1 ≤ n)
  unfolding info_value ◌>>=◌ put_slice
  info_value-fits m DapInfoId.vendor p s h =
      write_str-fits s.dispatcher.config.identity.vendor p s h
  info_value-fits m DapInfoId.product p s h =
      write_str-fits s.dispatcher.config.identity.product p s h
  info_value-fits m DapInfoId.serial_number p s h =
      write_str-fits s.dispatcher.config.identity.serial_number p s h
  info_value-fits m DapInfoId.cmsis_dap_ver p s h =
      write_str-fits s.dispatcher.config.identity.firmware_version p s h
  info_value-fits m DapInfoId.product_firmware_version p s h =
      write_str-fits s.dispatcher.config.identity.product_firmware_version p s h
  info_value-fits m _ p s h =
      grind (arith, not_shorter→le {0}, length-overwrite {0}, length-drop {0})

  pub dap_info-Within :
      (max_packet_size : ℕ) (request : List ℕ)
      → Ensures (IsSized n) (dap_info {T = T} max_packet_size request) (Within request n)
  unfolding dap_info ◌>>=◌ put_slice
  dap_info-Within m request s h =
      grind (arith, info_value-fits, not_shorter→le {0}, length-overwrite {0})
