-- ===== src/Usb/Bounds.antt =====
-- The packet loop ends, and stays inside its buffers (rust-dap/src/usb.rs).
use rust_dap.Base.{
  ℕ, zero, suc, ◌+◌, ◌≤◌, ◌<◌, ◌≡◌, ◌⊎◌, inl, inr, refl, Bool, true, false, Option, none, some,
  List, [], take, length, length-overwrite, Result, ok, err, panic, M, ◌>>=◌, ◌>>◌, ◌==◌, ◌||◌, ◌∙◌,
  pure, modify, Result-cases, if◌then◌else◌, leb, ltb, Bool-cases, arith,
}
use rust_dap.Base.Hoare.{Post}
use rust_dap.Transport.{DapTransport, IsLawful}
use rust_dap.Usb.Device.{
  UsbBus, UsbError, CmsisDap, send_next_packet, send_sized, sent, received, process_out_packet,
}
use rust_dap.Usb.Process.{
  Stuck, Reply, answer, append_reply, ignore, send, set_next, is_some, discard_stale, finish_packet,
  flush, round, packet_loop, process_pending, process,
}
use rust_dap.Usb.Buffers.{Done, Done-bind, Done-then, IsBuffered, IsLawfulBus, IsPending, Advances}
use rust_dap.Usb.Answers.{answer-Advances}

module _ {B T : Type 0} ⦃bus : UsbBus B⦄ (max : ℕ) where
  sent-IsPending :
      (n : ℕ) (r : Result UsbError ℕ × B) (d : CmsisDap B T)
      → IsPending max n d
      → IsPending max n (sent r d).1
  sent-IsPending n (ok m, b) d h = ground arith
  sent-IsPending n (err e, b) d h = ground arith
  sent-IsPending n (panic, b) d h = ground arith

  send_sized-IsPending :
      (n : ℕ) (size : Option ℕ) (d : CmsisDap B T)
      → IsPending max n d
      → IsPending max n (send_sized size d).1
  unfolding send_sized
  send_sized-IsPending n none d h = h
  send_sized-IsPending n (some zero) d h = sent-IsPending n (bus.write_packet [] d.inner) d h
  send_sized-IsPending n (some (suc m)) d h =
      ground
        (arith, sent-IsPending n (bus.write_packet (take (suc m) d.next_in_packet) d.inner) d h)

  ignored :
      {E : Type 0} (P : CmsisDap B T → Type 0) (m : M (CmsisDap B T) E (Unit {0}))
      (d : CmsisDap B T)
      → P (m d).1
      → Done P (λ _ _. Unit) (ignore m d)
  unfolding ◌>>=◌
  ignored P m d h = elim (Result-cases (m d).0) [
    | inl (a, e) ↦ ground (arith, e)
    | inr (inl (x, e)) ↦ ground (arith, e)
    | inr (inr e) ↦ ground (arith, e)
  ]

  send-IsPending :
      (n : ℕ) (d : CmsisDap B T) → IsPending max n d → Done (IsPending max n) (λ _ _. Unit) (send d)
  unfolding send_next_packet
  send-IsPending n d h =
      ignored (IsPending max n) send_next_packet d
        (send_sized-IsPending n d.next_in_packet_size d h)

module _ {B T : Type 0} ⦃bus : UsbBus B⦄ ⦃t : DapTransport T⦄ (max : ℕ) where
  flush_if :
      (b : Bool) (n so_far size : ℕ) (d : CmsisDap B T)
      → (b ≡ false → so_far + size ≤ max)
      → IsPending max n d
      → so_far ≤ max
      → size ≤ max
      → Done
          (IsPending max n)
          (λ at _. at + size ≤ max)
          ((if b then (do modify (set_next (some so_far)); send; pure 0) else pure so_far) d)
  unfolding ◌>>=◌
  flush_if false n so_far size d fits h lf sf = (h, fits refl)
  flush_if true n so_far size d fits h lf sf =
      Done-bind (λ _ _. Unit) _ send _ (set_next (some so_far) d)
        (send-IsPending max n (set_next (some so_far) d) (ground arith))
        λ _ d1 h1 _. (h1, omega arith)

  flush-IsPending :
      (n so_far size : ℕ) (d : CmsisDap B T)
      → IsPending max n d
      → so_far ≤ max
      → size ≤ max
      → Done (IsPending max n) (λ at _. at + size ≤ max) (flush max so_far size d)
  unfolding flush
  flush-IsPending n so_far size d h lf sf =
      flush_if (leb max (so_far + size)) n so_far size d (λ e. ground arith) h lf sf

  append_reply-IsPending :
      (n from at : ℕ) (reply : Reply) (d : CmsisDap B T)
      → IsPending max n d
      → Done (IsPending max n) (λ _ _. Unit) (append_reply at reply d)
  unfolding append_reply
  append_reply-IsPending n from at reply d h =
      ground (arith, length-overwrite at (take reply.response_size reply.response) d.next_in_packet)

  round-Advances :
      (lawful : IsLawful t) (n from so_far : ℕ) (d : CmsisDap B T)
      → from < n
      → so_far ≤ max
      → IsPending max n d
      → Done
          (IsPending max n)
          (λ moved _. (from < moved.0) × (moved.1 ≤ max))
          (round max from so_far d)
  unfolding round ◌>>=◌
  round-Advances lawful n from so_far d lt lf h =
      Done-bind (Advances max from) _ (answer max from) _ d
        (answer-Advances max lawful n from d lt h)
        λ reply d1 h1 adv.
          Done-bind (λ at _. at + reply.response_size ≤ max) _
            (flush max so_far reply.response_size) _ d1
            (flush-IsPending n so_far reply.response_size d1 h1 lf adv.1)
            λ at d2 h2 fits.
              Done-bind (λ _ _. Unit) _ (append_reply at reply) _ d2
                (append_reply-IsPending n from at reply d2 h2) λ _ d3 h3 _. (h3, (adv.2, fits))

  loop-IsPending :
      (lawful : IsLawful t) (n fuel from so_far : ℕ) (d : CmsisDap B T)
      → n ≤ from + fuel
      → so_far ≤ max
      → IsPending max n d
      → Done (IsPending max n) (λ size _. size ≤ max) (packet_loop max fuel from so_far d)
  unfolding packet_loop
  loop-IsPending lawful n zero from so_far d enough lf h = ground arith
  loop-IsPending lawful n (suc fuel) from so_far d enough lf h =
      elim (Bool-cases (ltb from d.pending_out_packet_size)) [
        | inr e ↦ ground (arith, e)
        | inl e ↦ ground (
          arith,
          e,
          Done-bind (λ moved _. (from < moved.0) × (moved.1 ≤ max)) (λ size _. size ≤ max)
              (round max from so_far) (λ moved. packet_loop max fuel moved.0 moved.1) d
              (round-Advances lawful n from so_far d (ground arith) lf h)
              (λ moved d1 h1 q.
                loop-IsPending lawful n fuel moved.0 moved.1 d1 (omega (arith, q.0, enough)) q.1
                  h1),
        )
      ]

  finish-IsPending :
      (n size : ℕ) (d : CmsisDap B T)
      → IsPending max n d
      → size ≤ max
      → Done (IsPending max 0) (λ _ _. Unit) ((do modify (finish_packet size); send) d)
  unfolding ◌>>=◌ send_next_packet
  finish-IsPending n size d h le =
      ignored max (IsPending max 0) send_next_packet (finish_packet size d)
        (send_sized-IsPending max 0 (some size) (finish_packet size d) (ground arith))

  -- A packet that is pending has no response in its way.
  abbrev IsFresh : CmsisDap B T → Type 0
  IsFresh d = (d.pending_out_packet_size ≡ 0) ⊎ (d.next_in_packet_size ≡ none)

  idle-IsPending :
      (d : CmsisDap B T)
      → IsBuffered max d
      → d.pending_out_packet_size ≡ 0
      → Done (IsPending max 0) (λ _ _. Unit) (send d)
  unfolding send_next_packet
  idle-IsPending d h e =
      ignored max (IsPending max 0) send_next_packet d
        (send_sized-IsPending max 0 d.next_in_packet_size d (h, e))

  serve-IsPending :
      (lawful : IsLawful t) (d : CmsisDap B T)
      → IsBuffered max d
      → Done
          (IsPending max 0)
          (λ _ _. Unit)
          ((do
            size ← packet_loop max d.pending_out_packet_size 0 0
            modify (finish_packet size)
            send)
            d)
  serve-IsPending lawful d h =
      Done-then (IsPending max 0) (λ size _. size ≤ max) (λ _ _. Unit)
        (packet_loop max d.pending_out_packet_size 0 0)
        (λ size. do modify (finish_packet size); send) d
        (loop-IsPending lawful d.pending_out_packet_size d.pending_out_packet_size 0 0 d
          (omega arith) (omega arith) (h, refl))
        (λ size d1 h1 le. finish-IsPending d.pending_out_packet_size size d1 h1 le)

  process_pending-IsPending :
      (lawful : IsLawful t) (d : CmsisDap B T)
      → IsBuffered max d
      → IsFresh d
      → Done (IsPending max 0) (λ _ _. Unit) (process_pending max d)
  unfolding process_pending
  process_pending-IsPending lawful d h fresh =
      elim (Bool-cases (d.pending_out_packet_size == 0 || is_some d.next_in_packet_size)) [
        | inl e ↦ ground (arith, e, idle-IsPending d h (ground arith))
        | inr e ↦ ground (arith, e, serve-IsPending lawful d h)
      ]

  taken-IsBuffered :
      (x : Result UsbError ℕ × (B × List ℕ)) (d : CmsisDap B T)
      → IsBuffered max d
      → length x.1.1 ≡ max
      → Post (λ s. Unit) (λ n s. n ≤ length d.pending_out_packet) x
      → IsBuffered max (received x d).1
  taken-IsBuffered (ok n, b) d h e w = ground arith
  taken-IsBuffered (err u, b) d h e w = ground arith
  taken-IsBuffered (panic, b) d h e w = ground arith

  received-IsBuffered :
      (law : IsLawfulBus bus) (d : CmsisDap B T)
      → IsBuffered max d
      → IsBuffered max (process_out_packet d).1
  unfolding process_out_packet
  received-IsBuffered law d h = ground (
    arith,
    taken-IsBuffered (bus.read_packet (d.inner, d.pending_out_packet)) d h
        (law.read_length d.inner d.pending_out_packet ∙ h.2)
        (law.read_fits d.inner d.pending_out_packet),
  )

  stale-IsFresh :
      (d : CmsisDap B T)
      → IsBuffered max d
      → Done (IsBuffered max) (λ _ d. IsFresh d) (modify {E = Stuck} discard_stale d)
  unfolding ◌>>=◌
  stale-IsFresh d h = ground arith

  -- No packet is pending behind `process`.
  pub process-IsPending :
      (lawful : IsLawful t) (law : IsLawfulBus bus) (d : CmsisDap B T)
      → IsBuffered max d
      → Done (IsPending max 0) (λ _ _. Unit) (process max d)
  unfolding process
  process-IsPending lawful law d h =
      Done-then (IsPending max 0) (λ _ _. Unit) _ (ignore process_out_packet) _ d
        (ignored max (IsBuffered max) process_out_packet d (received-IsBuffered law d h))
        λ _ d1 h1 _.
          Done-then (IsPending max 0) (λ _ d. IsFresh d) _ (modify discard_stale) _ d1
            (stale-IsFresh d1 h1) λ _ d2 h2 fresh. process_pending-IsPending lawful d2 h2 fresh
