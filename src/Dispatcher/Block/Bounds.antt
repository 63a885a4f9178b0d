-- ===== src/Dispatcher/Block/Bounds.antt =====
-- A block transfer stays inside the request and the response (rust-dap/src/dispatcher.rs).
use rust_dap.Base.{
  ℕ, zero, suc, ◌≤◌, ◌≡◌, List, [], ◌∷◌, length, drop, length-drop, not_shorter→le, arith, ok,
  ◌>>=◌,
}
use rust_dap.Base.Hoare.{Keeps, keeps_rules, Keeps-zoom, Keeps-bind, Ensures, Post}
use rust_dap.Base.Words.{from_le}
use rust_dap.Cursor.{new_with_position}
use rust_dap.Cursor
use rust_dap.CmsisDap.{read_swd_request, read_u16, read_u32, write_u32}
use rust_dap.CmsisDap.Laws.{
  read_or_zero_enough, IsReading, IsWriting, read_swd_request-IsReading, read_u32-IsReading,
  write_u32-IsWriting,
}
use rust_dap.Transport.{DapTransport}
use rust_dap.Dispatcher.Session.{Dispatcher, Session, IsSized, Within}
use rust_dap.Dispatcher.Block.{
  Block, on_request, on_response, call, read_loop, write_loop, transfer_block_inner, block_body,
  block_counted, transfer_block,
}

module _ {T : Type 0} ⦃t : DapTransport T⦄ (d : Dispatcher) (dap_index : ℕ) (b : List ℕ)
    (m : ℕ) where
  abbrev pub IsFramed : Block T → Type 0
  IsFramed x = IsReading b x.request × IsWriting m x.response

  call-IsFramed : (request bits : ℕ) → Keeps IsFramed (call d dap_index request bits)
  unfolding call
  call-IsFramed request bits = record { run = λ x h. h }

  request_byte-IsFramed : Keeps IsFramed (on_request {T = T} read_swd_request)
  request_byte-IsFramed =
      Keeps-zoom _ _ _ λ x h. ((read_swd_request-IsReading b).run x.request h.0, h.1)

  request_word-IsFramed : Keeps IsFramed (on_request {T = T} read_u32)
  request_word-IsFramed = Keeps-zoom _ _ _ λ x h. ((read_u32-IsReading b).run x.request h.0, h.1)

  response_word-IsFramed : (value : ℕ) → Keeps IsFramed (on_response {T = T} (write_u32 value))
  response_word-IsFramed value =
      Keeps-zoom _ _ _ λ x h. (h.0, (write_u32-IsWriting m value).run x.response h.1)

  ruleset framed_rules = (
    keeps_rules, call-IsFramed, request_byte-IsFramed, request_word-IsFramed,
    response_word-IsFramed,
  )

  read_loop-IsFramed : (request n : ℕ) → Keeps IsFramed (read_loop d dap_index request n)
  unfolding read_loop
  read_loop-IsFramed request zero = search framed_rules
  read_loop-IsFramed request (suc n) = Keeps-bind _ _ (search framed_rules) λ value.
      Keeps-bind _ _ (response_word-IsFramed value)
        λ _. Keeps-bind _ _ (search framed_rules) λ _. read_loop-IsFramed request n

  write_loop-IsFramed : (request n : ℕ) → Keeps IsFramed (write_loop d dap_index request n)
  unfolding write_loop
  write_loop-IsFramed request zero = search framed_rules
  write_loop-IsFramed request (suc n) = Keeps-bind _ _ request_word-IsFramed λ word.
      Keeps-bind _ _ (call-IsFramed request word)
        λ _. Keeps-bind _ _ (search framed_rules) λ _. write_loop-IsFramed request n

  transfer_block_inner-IsFramed :
      (request n : ℕ) → Keeps IsFramed (transfer_block_inner d dap_index request n)
  unfolding transfer_block_inner
  transfer_block_inner-IsFramed request n =
      search (framed_rules, read_loop-IsFramed, write_loop-IsFramed) depth 9

  block_body-IsFramed : (n : ℕ) → Keeps IsFramed (block_body d dap_index n)
  unfolding block_body
  block_body-IsFramed n = search (framed_rules, transfer_block_inner-IsFramed) depth 9

-- The count of a request with all three header bytes.
read_count :
    (i lo hi : ℕ) (rest : List ℕ)
    → let request = i ∷ lo ∷ hi ∷ rest in
      read_u16 (new_with_position request 1)
      ≡ (ok (from_le (lo ∷ hi ∷ [])), new_with_position request 3)
unfolding read_u16 ◌>>=◌
read_count i lo hi rest =
    ground (arith, read_or_zero_enough (new_with_position (i ∷ lo ∷ hi ∷ rest) 1) 2 (omega arith))

module _ {T : Type 0} ⦃t : DapTransport T⦄ where
  block_counted-Within :
      (i count : ℕ) (request : List ℕ) (n : ℕ) (s : Session T)
      → 3 ≤ length request
      → 3 ≤ n
      → IsSized n s
      → Post
          (IsSized n)
          (Within request n)
          (block_counted i (ok count, new_with_position request 3) s)
  unfolding block_counted
  block_counted-Within i count request n s long room h = ground (
    arith,
    length-drop 3 s.response,
    (block_body-IsFramed ⦃t = t⦄ s.dispatcher i request (length (drop 3 s.response)) count).run
        (record {
          transport = s.transport;
          request = new_with_position request 3;
          response = Cursor.new (drop 3 s.response);
          response_count = 0;
        }),
  )

  pub transfer_block-Within :
      (request : List ℕ) (n : ℕ)
      → Ensures (IsSized n) (transfer_block {T = T} request) (Within request n)
  unfolding transfer_block ◌>>=◌
  transfer_block-Within [] n s h = h
  transfer_block-Within (i ∷ []) n s h = h
  transfer_block-Within (i ∷ lo ∷ []) n s h = h
  transfer_block-Within (i ∷ lo ∷ hi ∷ rest) n s h = rw (read_count i lo hi rest) (
      ground (
        arith,
        not_shorter→le s.response 3,
        block_counted-Within i (from_le (lo ∷ hi ∷ [])) (i ∷ lo ∷ hi ∷ rest) n s,
      ))
