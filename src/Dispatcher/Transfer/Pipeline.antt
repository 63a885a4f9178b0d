-- ===== src/Dispatcher/Transfer/Pipeline.antt =====
-- Posted AP reads: each transfer brings the answer to the one before it (rust-dap/src/dispatcher.rs).
pub mod Loop
pub mod Room
use rust_dap.Base.{
  ℕ, zero, suc, ◌+◌, ◌*◌, ◌%◌, ◌≤◌, ◌≡◌, refl, sym, ap, subst, ◌∙◌, Bool, true, false, List, [],
  ◌∷◌, ◌++◌, length, take, drop, shorter, All, Result, ok, err, panic, M, ◌>>=◌, arith,
  le→not_shorter, overwrite, length-drop, continue, zoom, pure, attempt, gets, inr, throw_if,
  panic_if, index, modify,
}
use rust_dap.Base.Words.{contains, from_le}
use rust_dap.Cursor.{BufferCursor, new_with_position, read, write}
use rust_dap.Cursor
use rust_dap.Cursor.Laws.{IsValid}
use rust_dap.CmsisDap.Laws.{read_or_zero_enough, IsWriting, write_u32-IsWriting}
use rust_dap.CmsisDap.{
  DapError, ap_n_dp, r_n_w, transfer_match_value, rdbuff_read, dap_transfer_ok, read_or_zero,
  read_swd_request, write_u32,
}
use rust_dap.Transport.{DapTransport}
use rust_dap.Dispatcher.Session.{Dispatcher, Session}
use rust_dap.Dispatcher.Retry.{transfer_with_retry}
use rust_dap.Dispatcher.Transfer.{
  Xfer, call, on_response, on_request, collect_posted, post_read, read_register, round,
  transfer_loop, skip_loop, finish_last, check_last, status, transfer_body, finish_last, start,
  close, transfer, set_request_count, count_response,
}

-- A read of an access port, without a match.
abbrev pub IsApRead : ℕ → Type 0
IsApRead r =
    (contains r r_n_w ≡ true)
    × (contains r ap_n_dp ≡ true)
    × (contains r transfer_match_value ≡ false)

-- The words, one after the other, as far as there is room.
unfoldable pub write_words : List ℕ → BufferCursor → BufferCursor
write_words [] c = c
write_words (v ∷ vs) c = write_words vs (write_u32 v c).1

module _ {T : Type 0} ⦃t : DapTransport T⦄ (d : Dispatcher) (dap_index : ℕ) where
  -- Transfers without data, each of which is answered Ok with the value beside it.
  abbrev pub Answered : List ℕ → T → List ℕ → T → Type 0
  Answered [] s [] s' = s ≡ s'
  Answered [] s (v ∷ vs) s' = ⊥
  Answered (r ∷ rs) s [] s' = ⊥
  Answered (r ∷ rs) s (v ∷ vs) s' =
      (s1 : T) × (transfer_with_retry d dap_index r 0 s ≡ (ok v, s1)) × Answered rs s1 vs s'

pub write_words-append :
    (vs : List ℕ) (v : ℕ) (c : BufferCursor)
    → write_words (vs ++ v ∷ []) c ≡ (write_u32 v (write_words vs c)).1
unfolding write_words
write_words-append [] v c = refl
write_words-append (w ∷ vs) v c = write_words-append vs v (write_u32 w c).1

pub write_words-IsWriting :
    {m : ℕ} (vs : List ℕ) (c : BufferCursor) → IsWriting m c → IsWriting m (write_words vs c)
unfolding write_words
write_words-IsWriting [] c h = h
write_words-IsWriting {m} (v ∷ vs) c h =
    write_words-IsWriting vs (write_u32 v c).1 ((write_u32-IsWriting m v).run c h)

write_u32-ok : (v : ℕ) (c : BufferCursor) → IsValid c → write_u32 v c ≡ (ok tt, (write_u32 v c).1)
unfolding write_u32 write
write_u32-ok v c h = ground arith

length-of_drop : (n : ℕ) (xs ys : List ℕ) (r : ℕ) → drop n xs ≡ r ∷ ys → n + 1 ≤ length xs
length-of_drop n xs ys r e = omega (arith, length-drop n xs, ap length e)

read_byte :
    (r : ℕ) (rest : List ℕ) (c : BufferCursor)
    → drop c.position c.buffer ≡ r ∷ rest
    → read_swd_request c ≡ (ok r, record c { position = c.position + 1 })
unfolding read_swd_request ◌>>=◌
read_byte r rest c e =
    ground (arith, read_or_zero_enough c 1 (length-of_drop c.position c.buffer rest r e), e)

module _ {S E A B : Type 0} where
  bind-ok :
      (m : M S E A) (f : A → M S E B) (s s1 : S) (a : A) → m s ≡ (ok a, s1) → (m >>= f) s ≡ f a s1
  unfolding ◌>>=◌
  bind-ok m f s s1 a e = ap (λ x. continue x f) e

module _ {T : Type 0} where
  -- The state after a read that finds one posted, and after one that finds none.
  abbrev pub after_posted : ℕ → T → Xfer T → Xfer T
  after_posted v s1 x = record x {
    transport = s1;
    response = (write_u32 v x.response).1;
    write_issued = false;
  }

  abbrev pub after_first : T → Xfer T → Xfer T
  after_first s1 x = record x { transport = s1; posted_read = true; write_issued = false }

  abbrev pub next_request : Xfer T → Xfer T
  next_request x = record x { request = record x.request { position = x.request.position + 1 } }

module _ {T : Type 0} ⦃t : DapTransport T⦄ (dap_index : ℕ) where
  pub call-ok :
      (r v : ℕ) (s1 : T) (x : Xfer T)
      → transfer_with_retry x.dispatcher dap_index r 0 x.transport ≡ (ok v, s1)
      → call dap_index r 0 x ≡ (ok v, record x { transport = s1 })
  unfolding call
  call-ok r v s1 x e = ap (λ y. (y.0, record x { transport = y.1 })) e

  pub answer-ok :
      (v : ℕ) (x : Xfer T)
      → IsValid x.response
      → on_response (write_u32 v) x ≡ (ok tt, record x { response = (write_u32 v x.response).1 })
  unfolding ◌>>=◌
  answer-ok v x h = ap (λ y. (y.0, record x { response = y.1 })) (write_u32-ok v x.response h)

  collect_posted-ok :
      (r v : ℕ) (s1 : T) (x : Xfer T)
      → IsApRead r
      → x.posted_read ≡ true
      → IsValid x.response
      → transfer_with_retry x.dispatcher dap_index r 0 x.transport ≡ (ok v, s1)
      → collect_posted dap_index r x
        ≡ (ok tt, record x { transport = s1; response = (write_u32 v x.response).1 })
  unfolding collect_posted ◌>>=◌
  collect_posted-ok r v s1 x h posted valid e =
      ground (
        arith,
        call-ok r v s1 x e,
        answer-ok v (record x { transport = s1 }) valid,
        h.1,
        h.2,
        posted,
      )

  post_read-ok : (r : ℕ) (x : Xfer T) → x.posted_read ≡ true → post_read dap_index r x ≡ (ok tt, x)
  unfolding post_read ◌>>=◌
  post_read-ok r x posted = ground (arith, posted)

  post_first-ok :
      (r v : ℕ) (s1 : T) (x : Xfer T)
      → x.posted_read ≡ false
      → transfer_with_retry x.dispatcher dap_index r 0 x.transport ≡ (ok v, s1)
      → post_read dap_index r x ≡ (ok tt, record x { transport = s1; posted_read = true })
  unfolding post_read ◌>>=◌
  post_first-ok r v s1 x posted e = ground (arith, posted, call-ok r v s1 x e)

  collect_none-ok :
      (r : ℕ) (x : Xfer T) → x.posted_read ≡ false → collect_posted dap_index r x ≡ (ok tt, x)
  unfolding collect_posted ◌>>=◌
  collect_none-ok r x posted = ground (arith, posted)

  read_register-ok :
      (r v : ℕ) (s1 : T) (x : Xfer T)
      → IsApRead r
      → x.posted_read ≡ true
      → IsValid x.response
      → transfer_with_retry x.dispatcher dap_index r 0 x.transport ≡ (ok v, s1)
      → read_register dap_index r x ≡ (ok tt, after_posted v s1 x)
  unfolding read_register ◌>>=◌
  read_register-ok r v s1 x h posted valid e = ground (
    arith,
    collect_posted-ok r v s1 x h posted valid e,
    post_read-ok r (record x { transport = s1; response = (write_u32 v x.response).1 }) posted,
    h.1,
    h.2,
  )

  read_first-ok :
      (r v : ℕ) (s1 : T) (x : Xfer T)
      → IsApRead r
      → x.posted_read ≡ false
      → transfer_with_retry x.dispatcher dap_index r 0 x.transport ≡ (ok v, s1)
      → read_register dap_index r x ≡ (ok tt, after_first s1 x)
  unfolding read_register ◌>>=◌
  read_first-ok r v s1 x h posted e =
      ground (arith, collect_none-ok r x posted, post_first-ok r v s1 x posted e, h.1, h.2)

  request-ok :
      (r : ℕ) (rest : List ℕ) (x : Xfer T)
      → drop x.request.position x.request.buffer ≡ r ∷ rest
      → on_request read_swd_request x ≡ (ok r, next_request x)
  unfolding zoom
  request-ok r rest x e = ap (λ y. (y.0, record x { request = y.1 })) (read_byte r rest x.request e)

  pub round-ok :
      (r v : ℕ) (rest : List ℕ) (s1 : T) (x : Xfer T)
      → drop x.request.position x.request.buffer ≡ r ∷ rest
      → IsApRead r
      → x.posted_read ≡ true
      → IsValid x.response
      → transfer_with_retry x.dispatcher dap_index r 0 x.transport ≡ (ok v, s1)
      → round dap_index x ≡ (ok tt, count_response (after_posted v s1 (next_request x)))
  unfolding round ◌>>=◌
  round-ok r v rest s1 x q h posted valid e =
      ground (
        arith,
        request-ok r rest x q,
        h.0,
        read_register-ok r v s1 (next_request x) h posted valid e,
      )

  pub round_first-ok :
      (r v : ℕ) (rest : List ℕ) (s1 : T) (x : Xfer T)
      → drop x.request.position x.request.buffer ≡ r ∷ rest
      → IsApRead r
      → x.posted_read ≡ false
      → transfer_with_retry x.dispatcher dap_index r 0 x.transport ≡ (ok v, s1)
      → round dap_index x ≡ (ok tt, count_response (after_first s1 (next_request x)))
  unfolding round ◌>>=◌
  round_first-ok r v rest s1 x q h posted e =
      ground (arith, request-ok r rest x q, h.0, read_first-ok r v s1 (next_request x) h posted e)
