-- ===== src/Dispatcher/Transfer/Pipeline/Loop.antt =====
-- A DAP_Transfer of AP reads only (rust-dap/src/dispatcher.rs).
use rust_dap.Base.{
  ℕ, zero, suc, ◌+◌, ◌%◌, ◌≤◌, ◌≡◌, refl, sym, ap, subst, ◌∙◌, true, List, [], ◌∷◌, ◌++◌, length,
  drop, All, ok, ◌>>=◌, arith, le→not_shorter, continue, pure, attempt, gets, inr, throw_if,
  panic_if, index,
}
use rust_dap.Cursor.{BufferCursor, new_with_position, read, write}
use rust_dap.Cursor
use rust_dap.Cursor.Laws.{IsValid}
use rust_dap.CmsisDap.Laws.{IsWriting, write_u32-IsWriting}
use rust_dap.CmsisDap.{rdbuff_read, dap_transfer_ok, write_u32}
use rust_dap.Transport.{DapTransport}
use rust_dap.Dispatcher.Session.{Session}
use rust_dap.Dispatcher.Retry.{transfer_with_retry}
use rust_dap.Dispatcher.Transfer.{
  Xfer, round, transfer_loop, skip_loop, finish_last, check_last, status, transfer_body,
  finish_last, start, transfer, set_request_count, count_response,
}
use rust_dap.Dispatcher.Transfer.Pipeline.{
  IsApRead, write_words, Answered, call-ok, answer-ok, round-ok, round_first-ok, write_words-append,
  write_words-IsWriting, after_posted, after_first, next_request,
}

drop-tail : (n : ℕ) (xs ys : List ℕ) (r : ℕ) → drop n xs ≡ r ∷ ys → drop (n + 1) xs ≡ ys
drop-tail zero [] ys r e = cc
drop-tail zero (x ∷ xs) ys r e = ground arith
drop-tail (suc n) [] ys r e = cc
drop-tail (suc n) (x ∷ xs) ys r e = ground (arith, drop-tail n xs ys r)

IsWriting→IsValid : {m : ℕ} (c : BufferCursor) → IsWriting m c → IsValid c
IsWriting→IsValid c h = omega (arith, h.0, h.1)

-- What the loop keeps, and what it has done.
record IsPiped {T : Type 0} (m : ℕ) (rest : List ℕ) (x : Xfer T) : Type 0 where
  piped_request : drop x.request.position x.request.buffer ≡ rest
  piped_posted : x.posted_read ≡ true
  piped_response : IsWriting m x.response

record HasAnswered {T : Type 0} (n : ℕ) (vs : List ℕ) (s' : T) (x x' : Xfer T) : Type 0 where
  answered_transport : x'.transport ≡ s'
  answered_response : x'.response ≡ write_words vs x.response
  answered_count : x'.response_count ≡ x.response_count + n
  answered_left : x.request_count ≡ n → x'.request_count ≡ 0
  answered_posted : x'.posted_read ≡ true
  answered_dispatcher : x'.dispatcher ≡ x.dispatcher
  answered_position : x'.request.position ≡ x.request.position + n

module _ {T : Type 0} ⦃t : DapTransport T⦄ (dap_index m : ℕ) where
  loop-step :
      (n : ℕ) (x y : Xfer T)
      → round dap_index (set_request_count n x) ≡ (ok tt, y)
      → transfer_loop dap_index (suc n) x ≡ transfer_loop dap_index n y
  unfolding transfer_loop ◌>>=◌
  loop-step n x y e = ap (λ z. continue z (λ u. transfer_loop dap_index n)) e

  transfer_loop-ok :
      (rs vs : List ℕ) (s' : T) (x : Xfer T)
      → IsPiped m rs x
      → All IsApRead rs
      → Answered x.dispatcher dap_index rs x.transport vs s'
      → (x' : Xfer T) × (transfer_loop dap_index (length rs) x ≡ (ok 0, x'))
        × HasAnswered (length rs) vs s' x x'
  unfolding transfer_loop write_words pure
  transfer_loop-ok [] [] s' x p h e = (
    x,
    refl,
    record {
      answered_transport = e;
      answered_response = refl;
      answered_count = omega arith;
      answered_left = λ e. e;
      answered_posted = p.piped_posted;
      answered_dispatcher = refl;
      answered_position = omega arith;
    },
  )
  transfer_loop-ok [] (v ∷ vs) s' x p h e = elim e [ ]
  transfer_loop-ok (r ∷ rs) [] s' x p h e = elim e [ ]
  transfer_loop-ok (r ∷ rs) (v ∷ vs) s' x p h (s1, e, es) =
      let x1 = set_request_count (length rs) x in
      let y = count_response (after_posted v s1 (next_request x1)) in
      let valid = IsWriting→IsValid x.response p.piped_response in
      let step =
        loop-step (length rs) x y
          (round-ok dap_index r v rs s1 x1 p.piped_request h.0 p.piped_posted valid e) in
      let piped : IsPiped m rs y = record {
        piped_request = drop-tail x.request.position x.request.buffer rs r p.piped_request;
        piped_posted = p.piped_posted;
        piped_response = (write_u32-IsWriting m v).run x.response p.piped_response;
      } in
      let (x', run, a) = transfer_loop-ok rs vs s' y piped h.1 es in
      (
        x',
        step ∙ run,
        record {
          answered_transport = a.answered_transport;
          answered_response = a.answered_response;
          answered_count = omega (arith, a.answered_count);
          answered_left = λ e. a.answered_left refl;
          answered_posted = a.answered_posted;
          answered_dispatcher = a.answered_dispatcher;
          answered_position = omega (arith, a.answered_position);
        },
      )

module _ {T : Type 0} ⦃t : DapTransport T⦄ (dap_index : ℕ) where
  check_last-ok :
      (k v : ℕ) (s3 : T) (x : Xfer T)
      → x.posted_read ≡ true
      → IsValid x.response
      → transfer_with_retry x.dispatcher dap_index rdbuff_read 0 x.transport ≡ (ok v, s3)
      → check_last dap_index (inr k) x
        ≡ (ok (inr 0), record x { transport = s3; response = (write_u32 v x.response).1 })
  unfolding check_last finish_last ◌>>=◌ attempt gets
  check_last-ok k v s3 x posted valid e = ground (
    arith,
    posted,
    call-ok dap_index rdbuff_read v s3 x e,
    answer-ok dap_index v (record x { transport = s3 }) valid,
  )

  transfer_body-ok :
      (n : ℕ) (x x' x2 : Xfer T)
      → transfer_loop dap_index n x ≡ (ok 0, x')
      → x'.request_count ≡ 0
      → check_last dap_index (inr 0) x' ≡ (ok (inr 0), x2)
      → transfer_body dap_index n x ≡ (ok dap_transfer_ok, x2)
  unfolding transfer_body skip_loop status ◌>>=◌ attempt gets
  transfer_body-ok n x x' x2 run left last = ground (arith, run, left, last)

  -- The local variables after the first read, which answers nothing.
  abbrev primed : ℕ → List ℕ → T → Session T → Xfer T
  primed r rs s1 s = count_response (
      after_first s1 (
        next_request (
          set_request_count (length rs)
            (start (dap_index ∷ suc (length rs) ∷ r ∷ rs) (suc (length rs)) s))))

  transfer_start-ok :
      (r v0 : ℕ) (rs : List ℕ) (s1 : T) (s : Session T)
      → IsApRead r
      → transfer_with_retry s.dispatcher dap_index r 0 s.transport ≡ (ok v0, s1)
      → transfer_loop dap_index
          (suc (length rs))
          (start (dap_index ∷ suc (length rs) ∷ r ∷ rs) (suc (length rs)) s)
        ≡ transfer_loop dap_index (length rs) (primed r rs s1 s)
  transfer_start-ok r v0 rs s1 s h e =
      loop-step dap_index 0 (length rs) _ _ (round_first-ok dap_index r v0 rs s1 _ refl h refl e)

  primed-IsPiped :
      (r : ℕ) (rs : List ℕ) (s1 : T) (s : Session T)
      → IsPiped (length (drop 2 s.response)) rs (primed r rs s1 s)
  primed-IsPiped r rs s1 s = record {
    piped_request = refl;
    piped_posted = refl;
    piped_response = (refl, omega arith);
  }

  -- The words are written as far as there is room.
  pub transfer-write_words :
      (r v0 v : ℕ) (rs vs : List ℕ) (s1 s2 s3 : T) (s : Session T)
      → 2 ≤ length s.response
      → IsApRead r
      → All IsApRead rs
      → transfer_with_retry s.dispatcher dap_index r 0 s.transport ≡ (ok v0, s1)
      → Answered s.dispatcher dap_index rs s1 vs s2
      → transfer_with_retry s.dispatcher dap_index rdbuff_read 0 s2 ≡ (ok v, s3)
      → let words = write_words (vs ++ v ∷ []) (Cursor.new (drop 2 s.response)) in
        transfer (dap_index ∷ suc (length rs) ∷ r ∷ rs) s ≡ (
          ok (length rs + 3, words.position + 2),
          record s {
            transport = s3;
            response = suc (length rs) % 256 ∷ dap_transfer_ok ∷ words.buffer;
          },
        )
  unfolding transfer ◌>>=◌ throw_if panic_if index gets
  transfer-write_words r v0 v rs vs s1 s2 s3 s room h hs first answered last =
      let (x', run, a) =
        transfer_loop-ok dap_index (length (drop 2 s.response)) rs vs s2 (primed r rs s1 s)
          (primed-IsPiped r rs s1 s) hs answered in
      let m = length (drop 2 s.response) in
      let writing =
        subst (IsWriting m) (sym a.answered_response)
          (write_words-IsWriting vs (Cursor.new (drop 2 s.response)) (refl, omega arith)) in
      let answer =
        ap (λ e. transfer_with_retry e dap_index rdbuff_read 0 x'.transport) a.answered_dispatcher
        ∙ ap (transfer_with_retry s.dispatcher dap_index rdbuff_read 0) a.answered_transport
        ∙ last in
      let body =
        transfer_body-ok (suc (length rs)) _ x' _ (transfer_start-ok r v0 rs s1 s h first ∙ run)
          (a.answered_left refl)
          (check_last-ok 0 v s3 x' a.answered_posted (IsWriting→IsValid x'.response writing)
            answer) in
      ground (
        arith,
        le→not_shorter s.response 2 room,
        body,
        a.answered_response,
        a.answered_count,
        a.answered_dispatcher,
        a.answered_position,
        write_words-append vs v (Cursor.new (drop 2 s.response)),
      )
