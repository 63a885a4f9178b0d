-- ===== src/Usb/Device.antt =====
-- The state of the USB class and its endpoints (rust-dap/src/usb.rs, and the packet calls of
-- rust-dap/src/interface.rs, which only forward to the bus).
use rust_dap.Base.{
  ℕ, zero, suc, Option, none, some, List, [], replicate, take, shorter, ◌==◌, if◌then◌else◌, Result,
  M, ok, err, panic,
}
use rust_dap.Transport.{DapConfig}
use rust_dap.Dispatcher.Session.{Dispatcher}
use rust_dap.Dispatcher.Session

-- The errors of the USB stack: those that the program names, and the others.
pub data UsbError : Type 0 where
  would_block buffer_overflow : UsbError
  other : ℕ → UsbError

-- The endpoints of the USB stack, `B`: a write sends one packet, and a read fills a buffer and
-- tells how much of it.
pub record UsbBus (B : Type 0) : Type 0 where
  pub write_packet : List ℕ → M B UsbError ℕ
  pub read_packet : M (B × List ℕ) UsbError ℕ

pub record CmsisDap (B T : Type 0) : Type 0 where
  pub inner : B
  pub transport : T
  pub dispatcher : Dispatcher
  pub next_in_packet : List ℕ
  pub next_in_packet_size : Option ℕ
  pub pending_out_packet : List ℕ
  pub pending_out_packet_size : ℕ

-- `CmsisDap::new`; `max_packet_size` is the constant `MAX_PACKET_SIZE`.
abbrev pub new : {B T : Type 0} → ℕ → B → T → DapConfig → CmsisDap B T
new max_packet_size bus transport config = record {
  inner = bus;
  transport = transport;
  dispatcher = Session.new config;
  next_in_packet = replicate max_packet_size 0;
  next_in_packet_size = none;
  pending_out_packet = replicate max_packet_size 0;
  pending_out_packet_size = 0;
}

module _ {B T : Type 0} ⦃bus : UsbBus B⦄ where
  abbrev pub sent : Result UsbError ℕ × B → CmsisDap B T → Result UsbError (Unit {0}) × CmsisDap B T
  sent (ok n, b) d = (ok tt, record d { inner = b; next_in_packet_size = none })
  sent (err e, b) d = (err e, record d { inner = b })
  sent (panic, b) d = (panic, record d { inner = b })

  -- A packet that is not taken stays buffered.
  unfoldable pub send_sized : Option ℕ → M (CmsisDap B T) UsbError (Unit {0})
  send_sized none d = (ok tt, d)
  send_sized (some zero) d = sent (bus.write_packet [] d.inner) d
  send_sized (some (suc n)) d =
      if shorter d.next_in_packet (suc n)
      then (panic, d)
      else sent (bus.write_packet (take (suc n) d.next_in_packet) d.inner) d

  unfoldable pub send_next_packet : M (CmsisDap B T) UsbError (Unit {0})
  unfolding send_sized
  send_next_packet d = send_sized d.next_in_packet_size d

  abbrev pub received :
      Result UsbError ℕ × (B × List ℕ) → CmsisDap B T → Result UsbError (Unit {0}) × CmsisDap B T
  received (ok size, b) d =
      (ok tt, record d { inner = b.0; pending_out_packet = b.1; pending_out_packet_size = size })
  received (err e, b) d =
      (ok tt, record d { inner = b.0; pending_out_packet = b.1; pending_out_packet_size = 0 })
  received (panic, b) d = (panic, record d { inner = b.0; pending_out_packet = b.1 })

  unfoldable pub process_out_packet : M (CmsisDap B T) UsbError (Unit {0})
  process_out_packet d =
      if d.pending_out_packet_size == 0
      then received (bus.read_packet (d.inner, d.pending_out_packet)) d
      else (ok tt, d)

-- A USB bus reset drops the buffered request and response.
unfoldable pub reset : {B T : Type 0} → CmsisDap B T → CmsisDap B T
reset d = record d { pending_out_packet_size = 0; next_in_packet_size = none }
