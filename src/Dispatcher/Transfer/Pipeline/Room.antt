-- ===== src/Dispatcher/Transfer/Pipeline/Room.antt =====
-- The words of a response that has room for them (rust-dap/src/cmsis_dap.rs and
-- rust-dap/src/dispatcher.rs, `transfer`).
use rust_dap.Base.{
  ℕ, suc, ◌+◌, ◌*◌, ◌%◌, ◌≤◌, ◌≡◌, refl, ap, ◌∙◌, List, [], ◌∷◌, ◌++◌, length, drop, overwrite, All,
  ok, length-overwrite, length-drop, length-append, overwrite-nil, overwrite-append, arith,
}
use rust_dap.Base.Words.{le_bytes4}
use rust_dap.Cursor.{BufferCursor, write}
use rust_dap.Cursor
use rust_dap.CmsisDap.{rdbuff_read, dap_transfer_ok, write_u32}
use rust_dap.Transport.{DapTransport}
use rust_dap.Dispatcher.Session.{Dispatcher, Session}
use rust_dap.Dispatcher.Retry.{transfer_with_retry}
use rust_dap.Dispatcher.Transfer.{transfer}
use rust_dap.Dispatcher.Transfer.Pipeline.{IsApRead, write_words, Answered}
use rust_dap.Dispatcher.Transfer.Pipeline.Loop.{transfer-write_words}

-- The bytes of words, lowest first.
abbrev pub word_bytes : List ℕ → List ℕ
word_bytes [] = []
word_bytes (v ∷ vs) = le_bytes4 v ++ word_bytes vs

length-word_bytes : (vs : List ℕ) → length (word_bytes vs) ≡ 4 * length vs
length-word_bytes [] = refl
length-word_bytes (v ∷ vs) = omega (arith, length-word_bytes vs)

write_u32-fits :
    (v p : ℕ) (buffer : List ℕ)
    → p + 4 ≤ length buffer
    → (write_u32 v (record { buffer = buffer; position = p })).1
      ≡ record { buffer = overwrite p (le_bytes4 v) buffer; position = p + 4 }
unfolding write_u32 write
write_u32-fits v p buffer h = ground arith

write_words-fits :
    (vs : List ℕ) (p : ℕ) (buffer : List ℕ)
    → p + 4 * length vs ≤ length buffer
    → write_words vs (record { buffer = buffer; position = p })
      ≡ record { buffer = overwrite p (word_bytes vs) buffer; position = p + 4 * length vs }
unfolding write_words
write_words-fits [] p buffer h = ground (arith, overwrite-nil p buffer)
write_words-fits (v ∷ vs) p buffer h =
    let first = overwrite p (le_bytes4 v) buffer in
    let rest =
      write_words-fits vs (p + 4) first
        (omega (arith, h, length-overwrite p (le_bytes4 v) buffer)) in
    let moved : p + 4 + 4 * length vs ≡ p + 4 * suc (length vs) = omega arith in
    ap (write_words vs) (write_u32-fits v p buffer (omega (arith, h)))
    ∙ rest
    ∙ ap (λ b. record { buffer = b; position = p + 4 + 4 * length vs })
        (overwrite-append p (le_bytes4 v) (word_bytes vs) buffer)
    ∙ ap (λ n. record { buffer = overwrite p (word_bytes (v ∷ vs)) buffer; position = n }) moved

overwrite-start :
    (xs buffer : List ℕ)
    → length xs ≤ length buffer
    → overwrite 0 xs buffer ≡ xs ++ drop (length xs) buffer
unfolding overwrite
overwrite-start [] buffer h = ground arith
overwrite-start (x ∷ xs) [] h = absurd (omega arith)
overwrite-start (x ∷ xs) (b ∷ buffer) h = ap (λ l. x ∷ l) (overwrite-start xs buffer (omega arith))

drop-after_two : (n : ℕ) (xs : List ℕ) → 2 ≤ length xs → drop n (drop 2 xs) ≡ drop (2 + n) xs
drop-after_two n [] h = absurd (omega arith)
drop-after_two n (x ∷ []) h = absurd (omega arith)
drop-after_two n (x ∷ y ∷ xs) h = ground arith

module _ {T : Type 0} ⦃t : DapTransport T⦄ (d : Dispatcher) (dap_index : ℕ) where
  Answered-length :
      (rs : List ℕ) (s : T) (vs : List ℕ) (s' : T)
      → Answered d dap_index rs s vs s'
      → length vs ≡ length rs
  Answered-length [] s [] s' e = refl
  Answered-length [] s (v ∷ vs) s' e = absurd e
  Answered-length (r ∷ rs) s [] s' e = absurd e
  Answered-length (r ∷ rs) s (v ∷ vs) s' (s1, e, es) = ap suc (Answered-length rs s1 vs s' es)

-- What is written from the start of a buffer with room.
words_from_start :
    (vs : List ℕ) (n : ℕ) (buffer : List ℕ)
    → length vs ≡ n
    → 2 + 4 * n ≤ length buffer
    → write_words vs (Cursor.new (drop 2 buffer))
      ≡ record { buffer = word_bytes vs ++ drop (2 + 4 * n) buffer; position = 4 * n }
words_from_start vs n buffer e room =
    let rest = drop 2 buffer in
    let fits : 4 * length vs ≤ length rest = omega (arith, e, room, length-drop 2 buffer) in
    let size : length (word_bytes vs) ≡ 4 * n = length-word_bytes vs ∙ ap (λ k. 4 * k) e in
    let position : 0 + 4 * length vs ≡ 4 * n = omega (arith, e) in
    write_words-fits vs 0 rest (omega (arith, fits))
    ∙ ap (λ k. record { buffer = overwrite 0 (word_bytes vs) rest; position = k }) position
    ∙ ap (λ b. record { buffer = b; position = 4 * n })
        (overwrite-start (word_bytes vs) rest (omega (arith, fits, length-word_bytes vs))
          ∙ ap (λ k. word_bytes vs ++ drop k rest) size
          ∙ ap (λ l. word_bytes vs ++ l) (drop-after_two (4 * n) buffer (omega (arith, room))))

module _ {T : Type 0} ⦃t : DapTransport T⦄ (dap_index : ℕ) where
  -- A DAP_Transfer of AP reads without a match, each of which the transport answers, makes each of
  -- them once, in order, and then reads RDBUFF once. The answer to the first is dropped. With room in
  -- the response buffer for the header and a word for each read, the response is the number of
  -- transfers as a byte, the status Ok, and the bytes of the answers to the other reads and to RDBUFF,
  -- in order and each lowest byte first; its length is that of the header and these words, and the
  -- buffer behind them stays. The whole request is consumed.
  pub transfer-posted :
      (r v0 v : ℕ) (rs vs : List ℕ) (s1 s2 s3 : T) (s : Session T)
      → 2 + 4 * (length rs + 1) ≤ length s.response
      → IsApRead r
      → All IsApRead rs
      → transfer_with_retry s.dispatcher dap_index r 0 s.transport ≡ (ok v0, s1)
      → Answered s.dispatcher dap_index rs s1 vs s2
      → transfer_with_retry s.dispatcher dap_index rdbuff_read 0 s2 ≡ (ok v, s3)
      → let generated = 2 + 4 * (length rs + 1) in
        transfer (dap_index ∷ suc (length rs) ∷ r ∷ rs) s ≡ (
          ok (length rs + 3, generated),
          record s {
            transport = s3;
            response =
                suc (length rs) % 256 ∷ dap_transfer_ok ∷ word_bytes (vs ++ v ∷ [])
                ++ drop generated s.response;
          },
        )
  transfer-posted r v0 v rs vs s1 s2 s3 s room h hs first answered last =
      let count =
        length-append vs (v ∷ [])
        ∙ ap (λ n. n + 1) (Answered-length s.dispatcher dap_index rs s1 vs s2 answered) in
      let words = words_from_start (vs ++ v ∷ []) (length rs + 1) s.response count room in
      let size : 4 * (length rs + 1) + 2 ≡ 2 + 4 * (length rs + 1) = omega arith in
      transfer-write_words dap_index r v0 v rs vs s1 s2 s3 s (omega (arith, room)) h hs first
        answered last
      ∙ ap
          (λ c. (
            ok (length rs + 3, c.position + 2),
            record s {
              transport = s3;
              response = suc (length rs) % 256 ∷ dap_transfer_ok ∷ c.buffer;
            },
          ))
          words
      ∙ ap
          (λ n. (
            ok (length rs + 3, n),
            record s {
              transport = s3;
              response =
                  suc (length rs) % 256 ∷ dap_transfer_ok ∷ word_bytes (vs ++ v ∷ [])
                  ++ drop (2 + 4 * (length rs + 1)) s.response;
            },
          ))
          size
