-- ===== src/Dispatcher/Sequences/Bounds.antt =====
-- The raw sequences stay inside the request and the response (rust-dap/src/dispatcher.rs).
use rust_dap.Base.{
  ℕ, zero, suc, max, ◌+◌, ◌/◌, ◌≤◌, ◌≡◌, Bool, true, false, Option, none, some, List, [], ◌∷◌,
  length, drop, take, length-drop, length-overwrite, not_shorter→le, arith, M, ◌>>=◌, ◌>>◌,
  if◌then◌else◌, ◌==◌, pure,
}
use rust_dap.Base.Hoare.{
  Ensures, Post, Any, Post-bind, Post-throw_if-shorter, Post-panic_if-shorter, Post-index,
  Post-slice, Post-gets,
}
use rust_dap.Base.Words.{le_bytes}
use rust_dap.CmsisDap.{DapError, dap_ok, sequence_info_from}
use rust_dap.Transport.{DapTransport, IsLawful}
use rust_dap.Dispatcher.Session.{Session, put, on_transport, IsSized, Within, put_slice, fill_slice}
use rust_dap.Dispatcher.Sequences.{
  clock_count, swd_input, swd_output, swd_step, swd_loop, swd_sequence, capture, jtag_loop,
  jtag_sequence,
}

module _ {T : Type 0} ⦃t : DapTransport T⦄ (lawful : IsLawful t) (n : ℕ) where
  fill_slice-IsSized :
      (i k count : ℕ) (s : Session T)
      → IsSized n s
      → Post (IsSized n) Any (fill_slice i k (t.swd_read_bits s.dispatcher.config count) s)
  unfolding fill_slice
  fill_slice-IsSized i k count s h = ground (
    arith,
    length-overwrite i
        (t.swd_read_bits s.dispatcher.config count (s.transport, take k (drop i s.response))).1.1
        s.response,
  )

module _ {T : Type 0} ⦃t : DapTransport T⦄ (lawful : IsLawful t) (request : List ℕ) (n top : ℕ)
    (fits : n ≤ top) where
  swd_input-Within :
      (count k ri pi : ℕ)
      → ri ≤ length request
      → pi ≤ top
      → Ensures (IsSized {T = T} n) (swd_input request count k ri pi) (Within request top)
  unfolding swd_input ◌>>=◌
  swd_input-Within count k ri pi p q s h =
      let after : Session T = record s { transport = (t.swd_output_enable false s.transport).1 } in
      ground (
        arith,
        fill_slice-IsSized lawful n pi k count after,
        not_shorter→le (drop pi s.response) k,
        length-drop pi s.response,
      )

  swd_output-Within :
      (count k ri pi : ℕ)
      → ri ≤ length request
      → pi ≤ top
      → Ensures (IsSized {T = T} n) (swd_output request count k ri pi) (Within request top)
  unfolding swd_output ◌>>=◌
  swd_output-Within count k ri pi p q s h =
      ground (arith, not_shorter→le (drop ri request) k, length-drop ri request)

  swd_step-Within :
      (info ri pi : ℕ)
      → ri ≤ length request
      → pi ≤ top
      → Ensures (IsSized {T = T} n) (swd_step request info ri pi) (Within request top)
  unfolding swd_step
  swd_step-Within info ri pi p q s h =
      let count = clock_count info in
      ground (
        arith,
        swd_input-Within count ((count + 7) / 8) ri pi p q s h,
        swd_output-Within count ((count + 7) / 8) ri pi p q s h,
      )

  -- The driver is switched on behind the last sequence.
  reenable-IsSized :
      (left : ℕ)
      → Ensures
          (IsSized {T = T} n)
          (if left == 0 then on_transport (t.swd_output_enable true) else pure tt)
          Any
  unfolding ◌>>=◌
  reenable-IsSized left s h = ground arith

  swd_loop-Within :
      (left ri pi : ℕ)
      → ri ≤ length request
      → pi ≤ top
      → Ensures (IsSized {T = T} n) (swd_loop request left ri pi) (Within request top)
  unfolding swd_loop
  swd_loop-Within zero ri pi p q s h = unfold ◌>>=◌ in (h, (p, q))
  swd_loop-Within (suc left) ri pi p q s h =
      Post-bind (λ _ _. ri + 1 ≤ length request) _ _ _ s
        (Post-throw_if-shorter _ _ request (ri + 1) _ s h)
        λ _ s h room. Post-bind Any _ _ _ s (Post-index _ _ request ri s h) λ info s h _.
          Post-bind (Within request top) _ _ _ s (swd_step-Within info (ri + 1) pi room q s h)
            λ moved s h w.
              Post-bind Any _ _ _ s (reenable-IsSized left s h)
                λ _ s h _. swd_loop-Within left moved.0 moved.1 w.0 w.1 s h

module _ {T : Type 0} ⦃t : DapTransport T⦄ (request : List ℕ) (n : ℕ) where
  put_ok-IsSized :
      (produced : ℕ × ℕ) (s : Session T)
      → IsSized n s
      → (produced.0 ≤ length request) × (produced.1 ≤ max 1 n)
      → Post (IsSized n) (Within request n) ((put 0 dap_ok >> pure produced) s)
  unfolding put_slice ◌>>=◌
  put_ok-IsSized produced s h w =
      ground (arith, not_shorter→le s.response 1, length-overwrite 0 (0 ∷ []) s.response)

  pub swd_sequence-Within :
      IsLawful t → Ensures (IsSized {T = T} n) (swd_sequence request) (Within request n)
  unfolding swd_sequence
  swd_sequence-Within lawful s h =
      Post-bind (λ _ _. 1 ≤ length request) _ _ _ s (Post-throw_if-shorter _ _ request 1 _ s h)
        λ _ s h some_byte. Post-bind Any _ _ _ s (Post-index _ _ request 0 s h) λ count s h _.
          Post-bind (Within request (max 1 n)) _ _ _ s
            (swd_loop-Within lawful request n (max 1 n) (omega arith) count 1 1 some_byte
              (omega arith) s h)
            λ produced s h w. put_ok-IsSized produced s h w

  on_transport-IsSized :
      {A : Type 0} (m : M T DapError A) (s : Session T)
      → IsSized n s
      → Post (IsSized n) Any (on_transport m s)
  unfolding ◌>>=◌
  on_transport-IsSized m s h = ground arith

  capture-fits :
      (b : Bool) (k body_count : ℕ) (tdo : Option ℕ) (s : Session T)
      → body_count + 1 ≤ n
      → IsSized n s
      → Post (IsSized n) (λ written _. written + 1 ≤ n) (capture {T = T} b k body_count tdo s)
  unfolding capture put_slice ◌>>=◌
  capture-fits false k body_count tdo s p h = (h, p)
  capture-fits true k body_count none s p h = h
  capture-fits true k body_count (some word) s p h = ground (
    arith,
    not_shorter→le (drop (body_count + 1) s.response) k,
    length-drop (body_count + 1) s.response,
    length-overwrite (body_count + 1) (take k (le_bytes 8 word)) s.response,
  )

  jtag_loop-Within :
      (left : ℕ) (rest : List ℕ) (proceeded body_count : ℕ)
      → proceeded + length rest ≡ length request
      → body_count + 1 ≤ n
      → Ensures (IsSized {T = T} n) (jtag_loop left rest proceeded body_count) (Within request n)
  unfolding jtag_loop
  jtag_loop-Within zero rest proceeded body_count p q s h = unfold ◌>>=◌ in (h, (omega arith, q))
  jtag_loop-Within (suc left) rest proceeded body_count p q s h =
      Post-bind (λ _ _. 1 ≤ length rest) _ _ _ s (Post-throw_if-shorter _ _ rest 1 _ s h)
        λ _ s h some_byte. Post-bind Any _ _ _ s (Post-index _ _ rest 0 s h) λ byte s h _.
          let k = ((sequence_info_from byte).number_of_tck_cycles + 7) / 8 in
          Post-bind (λ _ _. k ≤ length (drop 1 rest)) _ _ _ s
            (Post-throw_if-shorter _ _ (drop 1 rest) k _ s h)
            λ _ s h enough. Post-bind Any _ _ _ s (Post-slice _ _ rest 1 k s h) λ tdi s h _.
              Post-bind Any _ _ _ s (Post-gets _ _ Any _ s h tt) λ config s h _.
                Post-bind Any _ _ _ s (on_transport-IsSized _ s h) λ tdo s h _.
                  Post-bind (λ written _. written + 1 ≤ n) _ _ _ s
                    (capture-fits (sequence_info_from byte).tdo_capture k body_count tdo s q h)
                    λ written s h fits.
                      jtag_loop-Within left (drop k (drop 1 rest)) (proceeded + 1 + k) written
                        (omega (arith, length-drop 1 rest, length-drop k (drop 1 rest))) fits s h

  pub jtag_sequence-Within : Ensures (IsSized {T = T} n) (jtag_sequence request) (Within request n)
  unfolding jtag_sequence
  jtag_sequence-Within s h =
      Post-bind (λ _ _. 1 ≤ length request) _ _ _ s (Post-throw_if-shorter _ _ request 1 _ s h)
        λ _ s h some_byte. Post-bind Any _ _ _ s (Post-index _ _ request 0 s h) λ count s h _.
          Post-bind (λ response _. length response ≡ n) _ _ _ s (Post-gets _ _ _ _ s h h)
            λ response s h room.
              Post-bind (λ _ _. 1 ≤ length response) _ _ _ s
                (Post-panic_if-shorter _ _ response 1 s h)
                λ _ s h some_room.
                  Post-bind (Within request n) _ _ _ s
                    (jtag_loop-Within count (drop 1 request) 1 0
                      (omega (arith, length-drop 1 request)) (omega arith) s h)
                    λ produced s h w. put_ok-IsSized produced s h (w.0, omega arith)
