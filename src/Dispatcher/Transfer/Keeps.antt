-- ===== src/Dispatcher/Transfer/Keeps.antt =====
-- One induction rule for the whole of a transfer: what every step keeps, the transfer keeps
-- (rust-dap/src/dispatcher.rs).
use rust_dap.Base.{
  ℕ, zero, suc, Bool, true, false, ◌⊎◌, inl, inr, Result, ok, err, panic, M, modify, arith,
}
use rust_dap.Base.Hoare.{Keeps, keeps_rules, Keeps-bind, Keeps-modify}
use rust_dap.CmsisDap.{DapError, swd_error, read_swd_request, read_u32, write_u32}
use rust_dap.Transport.{DapTransport}
use rust_dap.Dispatcher.Transfer.{
  Xfer, on_request, on_response, set_posted, set_issued, set_mask, set_request_count,
  count_response, call, collect_posted, after_match, match_loop, match_read, post_read, dp_read,
  read_register, collect_before_write, write_register, round, transfer_loop, skip_loop, finish_last,
  check_last, transfer_body,
}

-- `P` survives every step that `transfer` is made of.
pub record IsStable {T : Type 0} ⦃t : DapTransport T⦄ (dap_index : ℕ) (P : Xfer T → Type 0)
    : Type 0 where
  pub calls : (request bits : ℕ) → Keeps P (call dap_index request bits)
  pub request_byte : Keeps P (on_request {T = T} read_swd_request)
  pub request_word : Keeps P (on_request {T = T} read_u32)
  pub response_word : (value : ℕ) → Keeps P (on_response {T = T} (write_u32 value))
  pub posted : (b : Bool) (x : Xfer T) → P x → P (set_posted b x)
  pub issued : (b : Bool) (x : Xfer T) → P x → P (set_issued b x)
  pub mask : (value : ℕ) (x : Xfer T) → P x → P (set_mask value x)
  pub left : (n : ℕ) (x : Xfer T) → P x → P (set_request_count n x)
  pub counted : (x : Xfer T) → P x → P (count_response x)

module _ {T : Type 0} ⦃t : DapTransport T⦄ (dap_index : ℕ) {P : Xfer T → Type 0}
    (st : IsStable dap_index P) where
  calls-Keeps : (request bits : ℕ) → Keeps P (call dap_index request bits)
  calls-Keeps = st.calls

  response_word-Keeps : (value : ℕ) → Keeps P (on_response {T = T} (write_u32 value))
  response_word-Keeps = st.response_word

  request_byte-Keeps : Keeps P (on_request {T = T} read_swd_request)
  request_byte-Keeps = st.request_byte

  request_word-Keeps : Keeps P (on_request {T = T} read_u32)
  request_word-Keeps = st.request_word

  set_posted-Keeps : (b : Bool) → Keeps {E = DapError} P (modify (set_posted b))
  set_posted-Keeps b = Keeps-modify _ (st.posted b)

  set_issued-Keeps : (b : Bool) → Keeps {E = DapError} P (modify (set_issued b))
  set_issued-Keeps b = Keeps-modify _ (st.issued b)

  set_mask-Keeps : (value : ℕ) → Keeps {E = DapError} P (modify (set_mask value))
  set_mask-Keeps value = Keeps-modify _ (st.mask value)

  set_request_count-Keeps : (n : ℕ) → Keeps {E = DapError} P (modify (set_request_count n))
  set_request_count-Keeps n = Keeps-modify _ (st.left n)

  count_response-Keeps : Keeps {E = DapError} P (modify count_response)
  count_response-Keeps = Keeps-modify _ st.counted

  ruleset step_rules = (
    keeps_rules, calls-Keeps, request_byte-Keeps, request_word-Keeps, response_word-Keeps,
    set_posted-Keeps, set_issued-Keeps, set_mask-Keeps, set_request_count-Keeps,
    count_response-Keeps,
  )

  collect_posted-Keeps : (request : ℕ) → Keeps P (collect_posted dap_index request)
  unfolding collect_posted
  collect_posted-Keeps request = search step_rules depth 9

  post_read-Keeps : (request : ℕ) → Keeps P (post_read dap_index request)
  unfolding post_read
  post_read-Keeps request = search step_rules depth 9

  dp_read-Keeps : (request : ℕ) → Keeps P (dp_read dap_index request)
  unfolding dp_read
  dp_read-Keeps request = search step_rules depth 9

  after_match-keeps :
      (again : M (Xfer T) DapError ℕ) (spent : Bool) (match_value : ℕ)
      → Keeps P again
      → (x : Result DapError ℕ × Xfer T) → P x.1
      → P (after_match dap_index again spent match_value x).1
  unfolding after_match
  after_match-keeps again spent match_value k (ok value, x) h = ground (arith, k.run x h)
  after_match-keeps again spent match_value k (err (swd_error e), x) h = ground (arith, k.run x h)
  after_match-keeps again spent match_value k (err e, x) h = h
  after_match-keeps again spent match_value k (panic, x) h = h

  match_loop-Keeps :
      (request match_value left : ℕ) → Keeps P (match_loop dap_index request match_value left)
  unfolding match_loop
  match_loop-Keeps request match_value zero = record {
    run = λ x h.
        after_match-keeps _ true match_value (record { run = λ y k. k }) _
          ((calls-Keeps request 0).run x h);
  }
  match_loop-Keeps request match_value (suc left) = record {
    run = λ x h.
        after_match-keeps _ false match_value (match_loop-Keeps request match_value left) _
          ((calls-Keeps request 0).run x h);
  }

  match_read-Keeps : (request : ℕ) → Keeps P (match_read dap_index request)
  unfolding match_read
  match_read-Keeps request = search (step_rules, match_loop-Keeps) depth 9

  read_register-Keeps : (request : ℕ) → Keeps P (read_register dap_index request)
  unfolding read_register
  read_register-Keeps request =
      search (step_rules, collect_posted-Keeps, match_read-Keeps, post_read-Keeps, dp_read-Keeps)
        depth 9

  write_register-Keeps : (request : ℕ) → Keeps P (write_register dap_index request)
  unfolding write_register collect_before_write
  write_register-Keeps request = search step_rules depth 9

  round-Keeps : Keeps P (round dap_index)
  unfolding round
  round-Keeps = search (step_rules, read_register-Keeps, write_register-Keeps) depth 9

  transfer_loop-Keeps : (n : ℕ) → Keeps P (transfer_loop dap_index n)
  unfolding transfer_loop
  transfer_loop-Keeps zero = search step_rules
  transfer_loop-Keeps (suc n) =
      Keeps-bind _ _ (set_request_count-Keeps n)
        λ _. Keeps-bind _ _ round-Keeps λ _. transfer_loop-Keeps n

  skip_loop-Keeps : (n : ℕ) → Keeps P (skip_loop dap_index n)
  unfolding skip_loop
  skip_loop-Keeps zero = search step_rules
  skip_loop-Keeps (suc n) = Keeps-bind _ _ (set_request_count-Keeps n) λ _.
      Keeps-bind _ _ request_byte-Keeps
        λ request. Keeps-bind _ _ (search step_rules depth 9) λ _. skip_loop-Keeps n

  finish_last-Keeps : (posted : Bool) (r : DapError ⊎ ℕ) → Keeps P (finish_last dap_index posted r)
  unfolding finish_last
  finish_last-Keeps posted (inr value) = search step_rules depth 9
  finish_last-Keeps posted (inl e) = search step_rules

  check_last-Keeps : (r : DapError ⊎ ℕ) → Keeps P (check_last dap_index r)
  unfolding check_last
  check_last-Keeps (inr value) = search (step_rules, finish_last-Keeps) depth 9
  check_last-Keeps (inl e) = search step_rules

  pub transfer_body-Keeps : (n : ℕ) → Keeps P (transfer_body dap_index n)
  unfolding transfer_body
  transfer_body-Keeps n =
      search (step_rules, transfer_loop-Keeps, skip_loop-Keeps, check_last-Keeps) depth 9
