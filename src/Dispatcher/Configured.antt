-- ===== src/Dispatcher/Configured.antt =====
-- The configuration that commands may leave behind (rust-dap/src/dispatcher.rs,
-- rust-dap/src/transport.rs).
pub mod Commands
pub mod Settings
pub mod Execute
use rust_dap.Base.{
  ℕ, zero, suc, ◌+◌, ◌≤◌, ◌<◌, ◌≡◌, Bool, true, false, List, Option, length, take, drop, overwrite,
  All, Result, ok, err, panic, M, gets, modify, zoom, index, slice, throw_if, ◌>>=◌, arith, shorter,
  get_elem?, none, some,
}
use rust_dap.Base.Words.{IsByte, from_le}
use rust_dap.Base.Hoare.{Keeps, keeps_rules, Keeps-bind, Keeps-modify, Keeps-zoom}
use rust_dap.CmsisDap.{DapError}
use rust_dap.Transport.{DapTransport, DapConfig, ActivePort, max_jtag_devices}
use rust_dap.Dispatcher.Session.{
  Session, on_transport, set_config, set_active, put_slice, fill_slice,
}

-- What the transports rely on: the table of the chain has its size, and the number of devices is
-- within it; a turnaround takes a clock at least; the counts fit their types.
abbrev pub IsConfigured : DapConfig → Type 0
IsConfigured c =
    (length c.jtag.ir_length ≡ max_jtag_devices)
    × (c.jtag.device_count ≤ max_jtag_devices)
    × (1 ≤ c.swd.turn_around_cycles)
    × (c.swd.turn_around_cycles ≤ 4)
    × (c.swd.idle_cycles < 256)
    × (c.jtag.idle_cycles < 256)
    × (c.retry_count < 65536)
    × (c.match_retry_count < 65536)

-- A `swj_clock` that sets no more than the clocks.
pub record IsClockOnly {T : Type 0} (t : DapTransport T) : Type 0 where
  pub clock_keeps :
      (hz : ℕ) (s : T) (c : DapConfig) → IsConfigured c → IsConfigured (t.swj_clock hz (s, c)).1.1

module _ {T : Type 0} where
  abbrev pub HoldsConfig : Session T → Type 0
  HoldsConfig s = IsConfigured s.dispatcher.config

  pub on_transport-Keeps : {A : Type 0} (m : M T DapError A) → Keeps HoldsConfig (on_transport m)
  on_transport-Keeps m = Keeps-zoom _ _ m λ s h. h

  pub set_active-Keeps :
      (a : Option ActivePort) → Keeps {E = DapError} HoldsConfig (modify (set_active a))
  set_active-Keeps a = Keeps-modify (set_active a) λ s h. h

  pub put_slice-Keeps : (i : ℕ) (bytes : List ℕ) → Keeps HoldsConfig (put_slice {T = T} i bytes)
  unfolding put_slice
  put_slice-Keeps i bytes = record { run = λ s h. ground arith }

  pub fill_slice-Keeps :
      (i n : ℕ) (m : M (T × List ℕ) DapError (Unit {0}))
      → Keeps HoldsConfig (fill_slice {T = T} i n m)
  unfolding fill_slice
  fill_slice-Keeps i n m = record { run = λ s h. ground arith }

pub ruleset session_rules =
    (keeps_rules, on_transport-Keeps, set_active-Keeps, put_slice-Keeps, fill_slice-Keeps)
