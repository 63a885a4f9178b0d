-- ===== src/Usb/Process.antt =====
-- `CmsisDap::process` (rust-dap/src/usb.rs): the commands of one packet, and their answers.
use rust_dap.Base.{
  ℕ, zero, suc, ◌+◌, Option, none, some, List, [], ◌∷◌, replicate, take, drop, shorter, overwrite,
  Bool, true, false, ◌&&◌, ◌||◌, ltb, leb, ◌==◌, if◌then◌else◌, Result, M, ok, err, panic, pure,
  gets, modify, panic_if, index, attempt, ◌>>=◌, ◌>>◌,
}
use rust_dap.CmsisDap.{DapCommandId, DapError, command_try_from}
use rust_dap.Transport.{DapTransport}
use rust_dap.Dispatcher.Session.{Session}
use rust_dap.Dispatcher.Execute.{execute}
use rust_dap.Usb.Device.{UsbBus, CmsisDap, send_next_packet, process_out_packet}

abbrev pub dap_invalid_command_response : ℕ
dap_invalid_command_response = 0xff

-- The loop of `process` has run out of the rounds that the model gives it.
pub data Stuck : Type 0 where
  out_of_fuel : Stuck

-- One answer: the buffer, how much of it is sent, and the request bytes behind the command.
pub record Reply : Type 0 where
  pub response : List ℕ
  pub response_size : ℕ
  pub bytes_processed : ℕ

abbrev pub is_some : {A : Type 0} → Option A → Bool
is_some none = false
is_some (some a) = true

-- `result.ok()`
abbrev pub ignore : {S U : Type 0} → M S U (Unit {0}) → M S Stuck (Unit {0})
ignore m = do outcome ← attempt m; pure tt

-- `response[i] = v`
unfoldable pub write_byte : {S E : Type 0} → List ℕ → ℕ → ℕ → M S E (List ℕ)
write_byte xs i v s =
    if shorter (drop i xs) 1 then (panic, s) else (ok (overwrite i (v ∷ []) xs), s)

module _ {B T : Type 0} ⦃t : DapTransport T⦄ (max_packet_size : ℕ) where
  abbrev restore : Session T → CmsisDap B T → CmsisDap B T
  restore s d = record d { transport = s.transport; dispatcher = s.dispatcher }

  -- The answer to a command, from the first byte of `response` and the dispatcher's outcome.
  unfoldable pub reply_to :
      ℕ → ℕ → Result DapError (ℕ × ℕ) × Session T → M (CmsisDap B T) Stuck Reply
  reply_to command_byte bytes_processed (ok (consumed, generated), s) = do
    modify (restore s)
    response ←
        if ltb max_packet_size generated
        then write_byte (command_byte ∷ s.response) 1 dap_invalid_command_response
        else pure (command_byte ∷ s.response)
    pure (record {
      response = response;
      response_size = 1 + generated;
      bytes_processed = bytes_processed + consumed;
    })
  reply_to command_byte bytes_processed (err e, s) = do
    modify (restore s)
    response ← write_byte (command_byte ∷ s.response) 1 dap_invalid_command_response
    pending ← gets (λ (d : CmsisDap B T). d.pending_out_packet_size)
    pure (record { response = response; response_size = 2; bytes_processed = pending })
  reply_to command_byte bytes_processed (panic, s) = do modify (restore s); (λ d. (panic, d))

  -- `response` is the zeroed buffer behind the command byte.
  unfoldable pub dispatch : ℕ → ℕ → List ℕ → Option DapCommandId → M (CmsisDap B T) Stuck Reply
  dispatch command_byte bytes_processed response (some command) = λ d.
      if ltb d.pending_out_packet_size bytes_processed
        || shorter d.pending_out_packet d.pending_out_packet_size
      then (panic, d)
      else reply_to command_byte bytes_processed
          (execute max_packet_size command
            (drop bytes_processed (take d.pending_out_packet_size d.pending_out_packet))
            (record { dispatcher = d.dispatcher; transport = d.transport; response = response }))
          d
  dispatch command_byte bytes_processed response none = do
    pending ← gets (λ (d : CmsisDap B T). d.pending_out_packet_size)
    pure (record {
      response = dap_invalid_command_response ∷ response;
      response_size = 1;
      bytes_processed = pending;
    })

  -- The command at `bytes_processed`. A response buffer of no bytes has no command byte.
  unfoldable pub answer : ℕ → M (CmsisDap B T) Stuck Reply
  answer bytes_processed = do
    packet ← gets (λ (d : CmsisDap B T). d.pending_out_packet)
    command_byte ← index packet bytes_processed
    panic_if (max_packet_size == 0)
    dispatch command_byte (bytes_processed + 1) (drop 1 (replicate max_packet_size 0))
        (command_try_from command_byte)

module _ {B T : Type 0} where
  abbrev pub set_next : Option ℕ → CmsisDap B T → CmsisDap B T
  set_next size d = record d { next_in_packet_size = size }

  -- `next_in_packet[at..at + size].copy_from_slice(&response[..size])`
  unfoldable pub append_reply : ℕ → Reply → M (CmsisDap B T) Stuck (Unit {0})
  append_reply at reply d =
      if shorter reply.response reply.response_size
        || shorter (drop at d.next_in_packet) reply.response_size
      then (panic, d)
      else (
        ok tt,
        record d {
          next_in_packet = overwrite at (take reply.response_size reply.response) d.next_in_packet;
        },
      )

  abbrev pub discard_stale : CmsisDap B T → CmsisDap B T
  discard_stale d =
      if ltb 0 d.pending_out_packet_size && is_some d.next_in_packet_size
      then record d { next_in_packet_size = none }
      else d

  abbrev pub finish_packet : ℕ → CmsisDap B T → CmsisDap B T
  finish_packet response_packet_length d = record d {
    next_in_packet_size = some response_packet_length;
    pending_out_packet_size = 0;
  }

module _ {B T : Type 0} ⦃bus : UsbBus B⦄ where
  -- `self.send_next_packet().ok()`
  abbrev pub send : M (CmsisDap B T) Stuck (Unit {0})
  send = ignore send_next_packet

module _ {B T : Type 0} ⦃bus : UsbBus B⦄ ⦃t : DapTransport T⦄ (max_packet_size : ℕ) where
  -- Makes room where the answer does not fit behind the others; the result is where it goes.
  unfoldable pub flush : ℕ → ℕ → M (CmsisDap B T) Stuck ℕ
  flush response_packet_length response_size =
      if leb max_packet_size (response_packet_length + response_size)
      then (do modify (set_next (some response_packet_length)); send; pure 0)
      else pure response_packet_length

  -- One round; the result is `bytes_processed` and `response_packet_length`.
  unfoldable pub round : ℕ → ℕ → M (CmsisDap B T) Stuck (ℕ × ℕ)
  round bytes_processed response_packet_length = do
    reply ← answer max_packet_size bytes_processed
    at ← flush response_packet_length reply.response_size
    append_reply at reply
    pure (reply.bytes_processed, at + reply.response_size)

  -- Each round takes a byte at least, so one round for each byte of the packet is enough.
  unfoldable pub packet_loop : ℕ → ℕ → ℕ → M (CmsisDap B T) Stuck ℕ
  packet_loop zero bytes_processed response_packet_length d =
      if ltb bytes_processed d.pending_out_packet_size
      then (err out_of_fuel, d)
      else (ok response_packet_length, d)
  packet_loop (suc fuel) bytes_processed response_packet_length d =
      if ltb bytes_processed d.pending_out_packet_size
      then (do
        moved ← round bytes_processed response_packet_length
        packet_loop fuel moved.0 moved.1)
          d
      else (ok response_packet_length, d)

  -- Without a packet, or with a response that is still buffered, only a send.
  unfoldable pub process_pending : M (CmsisDap B T) Stuck (Unit {0})
  process_pending d =
      if d.pending_out_packet_size == 0 || is_some d.next_in_packet_size
      then send d
      else (do
        response_packet_length ← packet_loop d.pending_out_packet_size 0 0
        modify (finish_packet response_packet_length)
        send)
          d

  unfoldable pub process : M (CmsisDap B T) Stuck (Unit {0})
  process = do ignore process_out_packet; modify discard_stale; process_pending
