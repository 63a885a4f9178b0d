-- ===== src/Usb/Served.antt =====
-- What `process` does with the packet that came in (rust-dap/src/usb.rs).
use rust_dap.Base.{
  ℕ, ◌+◌, ◌≤◌, ◌<◌, ◌≡◌, ◌⊎◌, none, some, take, overwrite, Result, ok, err, panic, ◌>>◌,
}
use rust_dap.Transport.{DapTransport}
use rust_dap.Usb.Device.{UsbBus, CmsisDap, send_next_packet}
use rust_dap.Usb.Process.{Stuck, Reply, answer, set_next, finish_packet}

module _ {S A : Type 0} where
  -- What a result has, where there is one.
  abbrev Yields : (A → S → Type 0) → Result Stuck A × S → Type 0
  Yields Q (ok a, s) = Q a s
  Yields Q (err e, s) = Unit
  Yields Q (panic, s) = Unit

module _ {B T : Type 0} ⦃bus : UsbBus B⦄ ⦃t : DapTransport T⦄ (max : ℕ) where
  -- Where an answer of `size` bytes goes, of which `so_far` are in the buffer: behind these, or, when
  -- the buffer would be full, to its start, once these are sent.
  abbrev pub IsPlaced : ℕ → ℕ → CmsisDap B T → ℕ → CmsisDap B T → Type 0
  IsPlaced so_far size d at d' =
      ((so_far + size < max) × (at ≡ so_far) × (d' ≡ d))
      ⊎ ((max ≤ so_far + size) × (at ≡ 0) × (d' ≡ (send_next_packet (set_next (some so_far) d)).1))

  -- The command at `from` is run, its answer is placed, and it is copied into the buffer there.
  -- `moved` is where the next command is, and how many bytes are in the buffer.
  abbrev pub IsRound : ℕ → ℕ → CmsisDap B T → ℕ × ℕ → CmsisDap B T → Type 0
  IsRound from so_far d moved d' =
      (reply : Reply) × (d1 : CmsisDap B T) × (at : ℕ) × (d2 : CmsisDap B T) × (answer max from d
        ≡ (ok reply, d1))
      × IsPlaced so_far reply.response_size d1 at d2
      × (d' ≡ record d2 {
        next_in_packet = overwrite at (take reply.response_size reply.response) d2.next_in_packet;
      })
      × (moved ≡ (reply.bytes_processed, at + reply.response_size))

  -- The rounds from the command at `from` to the end of the packet.
  pub data Rounds : ℕ → ℕ → CmsisDap B T → ℕ → CmsisDap B T → Type 0 where
    at_end :
        {from so_far : ℕ} {d : CmsisDap B T}
        → d.pending_out_packet_size ≤ from
        → Rounds from so_far d so_far d
    one_more :
        {from so_far so_far' : ℕ} {moved : ℕ × ℕ} {d d1 d' : CmsisDap B T}
        → from < d.pending_out_packet_size
        → IsRound from so_far d moved d1
        → Rounds moved.0 moved.1 d1 so_far' d'
        → Rounds from so_far d so_far' d'

  -- What becomes of the packet that is pending in `d`, if one is.
  abbrev pub IsServed : CmsisDap B T → CmsisDap B T → Type 0
  IsServed d d' =
      ((d.pending_out_packet_size ≡ 0) × (d' ≡ (send_next_packet d).1))
      ⊎ ((0 < d.pending_out_packet_size)
          × ((so_far : ℕ) × (d1 : CmsisDap B T) × Rounds 0 0 (set_next none d) so_far d1
              × (d' ≡ (send_next_packet (finish_packet so_far d1)).1)))
