-- ===== src/Usb/Answers.antt =====
-- The answer to each command fits in its buffer, and takes the packet further
-- (rust-dap/src/usb.rs).
use rust_dap.Base.{
  ℕ, suc, ◌+◌, ◌-◌, ◌≤◌, ◌<◌, ◌≡◌, ap, Option, none, some, List, [], ◌∷◌, take, drop, length,
  replicate, not_shorter→le, length-drop, length-overwrite, length-replicate, Result, ok, err,
  panic, ◌>>=◌, panic_if, index, ◌==◌, ◌∙◌, arith,
}
use rust_dap.Base.Hoare.{Post}
use rust_dap.CmsisDap.{DapCommandId, DapError, command_try_from}
use rust_dap.Transport.{DapTransport, IsLawful}
use rust_dap.Dispatcher.Session.{Session, IsSized, Within}
use rust_dap.Dispatcher.Execute.{execute}
use rust_dap.Dispatcher.Execute.Bounds.{execute-Within}
use rust_dap.Usb.Device.{CmsisDap}
use rust_dap.Usb.Process.{write_byte, reply_to, dispatch, answer}
use rust_dap.Usb.Buffers.{Done, Done-bind, IsPending, Advances}

module _ {B T : Type 0} ⦃t : DapTransport T⦄ (max : ℕ) where
  reply_to-Advances :
      (n command_byte from : ℕ) (request : List ℕ) (x : Result DapError (ℕ × ℕ) × Session T)
      (d : CmsisDap B T)
      → suc from ≤ n
      → IsPending max n d
      → 0 < max
      → Post (IsSized {T = T} (max - 1)) (Within request (max - 1)) x
      → Done (IsPending max n) (Advances max from) (reply_to max command_byte (from + 1) x d)
  unfolding reply_to ◌>>=◌ write_byte
  reply_to-Advances n command_byte from request (ok (consumed, generated), s) d lt h pos w =
      ground arith
  reply_to-Advances n command_byte from request (err e, s) d lt h pos w = ground (
    arith,
    length-overwrite 1 (0xff ∷ []) (command_byte ∷ s.response),
    not_shorter→le s.response 1,
  )
  reply_to-Advances n command_byte from request (panic, s) d lt h pos w = tt

  dispatch-Advances :
      (lawful : IsLawful t) (n command_byte from : ℕ) (response : List ℕ)
      (command : Option DapCommandId) (d : CmsisDap B T)
      → suc from ≤ n
      → IsPending max n d
      → 0 < max
      → length response ≡ max - 1
      → Done
          (IsPending max n)
          (Advances max from)
          (dispatch max command_byte (from + 1) response command d)
  unfolding dispatch ◌>>=◌
  dispatch-Advances lawful n command_byte from response none d lt h pos e = ground arith
  dispatch-Advances lawful n command_byte from response (some command) d lt h pos e = ground (
    arith,
    reply_to-Advances n command_byte from
        (drop (from + 1) (take d.pending_out_packet_size d.pending_out_packet))
        (execute max command (drop (from + 1) (take d.pending_out_packet_size d.pending_out_packet))
          (record { dispatcher = d.dispatcher; transport = d.transport; response = response }))
        d lt h pos
        (execute-Within lawful max command
          (drop (from + 1) (take d.pending_out_packet_size d.pending_out_packet)) (max - 1)
          (record { dispatcher = d.dispatcher; transport = d.transport; response = response }) e),
  )

  pub answer-Advances :
      (lawful : IsLawful t) (n from : ℕ) (d : CmsisDap B T)
      → from < n
      → IsPending max n d
      → Done (IsPending max n) (Advances max from) (answer max from d)
  unfolding answer ◌>>=◌
  answer-Advances lawful n from d lt h =
      Done-bind (λ _ _. Unit) _ (index d.pending_out_packet from) _ d (ground arith)
        λ byte d1 h1 _.
          Done-bind (λ _ _. 0 < max) _ (panic_if (max == 0)) _ d1 (ground arith)
            λ _ d2 h2 pos.
              dispatch-Advances lawful n byte from (drop 1 (replicate max 0))
                (command_try_from byte) d2 lt h2 pos
                (length-drop 1 (replicate max 0) ∙ ap (λ m. m - 1) (length-replicate max 0))
