-- ===== src/Dispatcher/Transfer.antt =====
-- DAP_Transfer (rust-dap/src/dispatcher.rs): a list of register reads, writes and matches, with AP
-- reads posted. `break` from the loop is an error of the step, and the state is kept.
pub mod Keeps
pub mod Bounds
pub mod Truncated
pub mod Pipeline
pub mod Match
use rust_dap.Base.{
  ℕ, zero, suc, ◌+◌, ◌%◌, Bool, true, false, not, ◌&&◌, ◌||◌, List, [], ◌∷◌, ◌++◌, take, drop,
  shorter, ◌⊎◌, inl, inr, bit_and, ◌==◌, if◌then◌else◌, Result, M, ok, err, panic, pure, throw,
  gets, modify, throw_if, panic_if, attempt, zoom, index, ◌>>=◌, ◌>>◌,
}
use rust_dap.Base.Words.{contains}
use rust_dap.Cursor.{BufferCursor, new_with_position}
use rust_dap.Cursor
use rust_dap.CmsisDap.{
  DapError, invalid_command, invalid_dap_info_id, swd_error, internal_error, exceed_retry_count,
  not_supported, ap_n_dp, r_n_w, transfer_match_value, transfer_match_mask, rdbuff_read,
  dap_transfer_ok, dap_transfer_wait, dap_transfer_error, read_swd_request, read_u32, write_u32,
}
use rust_dap.Transport.{DapTransport, DapConfig}
use rust_dap.Dispatcher.Session.{Dispatcher, Session, CommandResult}
use rust_dap.Dispatcher.Retry.{transfer_with_retry}

-- The local variables of `transfer`, with what it borrows.
pub record Xfer (T : Type 0) : Type 0 where
  pub dispatcher : Dispatcher
  pub transport : T
  pub request_count : ℕ
  pub request : BufferCursor
  pub response : BufferCursor
  pub posted_read : Bool
  pub write_issued : Bool
  pub response_count : ℕ

module _ {T : Type 0} where
  abbrev pub on_request : {A : Type 0} → M BufferCursor DapError A → M (Xfer T) DapError A
  on_request = zoom (λ x. x.request) (λ c x. record x { request = c })

  abbrev pub on_response : {A : Type 0} → M BufferCursor DapError A → M (Xfer T) DapError A
  on_response = zoom (λ x. x.response) (λ c x. record x { response = c })

  abbrev pub set_posted : Bool → Xfer T → Xfer T
  set_posted b x = record x { posted_read = b }

  abbrev pub set_issued : Bool → Xfer T → Xfer T
  set_issued b x = record x { write_issued = b }

  abbrev pub set_mask : ℕ → Xfer T → Xfer T
  set_mask mask x = record x {
    dispatcher = record x.dispatcher { config = record x.dispatcher.config { match_mask = mask } };
  }

  abbrev pub set_request_count : ℕ → Xfer T → Xfer T
  set_request_count n x = record x { request_count = n }

  abbrev pub count_response : Xfer T → Xfer T
  count_response x = record x { response_count = x.response_count + 1 }

module _ {T : Type 0} ⦃t : DapTransport T⦄ (dap_index : ℕ) where
  -- `self.transfer_with_retry(transport, dap_index, request, data)`
  unfoldable pub call : ℕ → ℕ → M (Xfer T) DapError ℕ
  call request bits x =
      let (r, s) = transfer_with_retry x.dispatcher dap_index request bits x.transport in
      (r, record x { transport = s })

  -- The result of a posted read, before another read.
  unfoldable pub collect_posted : ℕ → M (Xfer T) DapError (Unit {0})
  collect_posted request = do
    posted ← gets (λ (x : Xfer T). x.posted_read)
    if posted
        then (do
          value ←
              if contains request ap_n_dp && not (contains request transfer_match_value)
              then call request 0
              else (do modify (set_posted false); call rdbuff_read 0)
          on_response (write_u32 value))
        else pure tt

  -- What a round of the match loop makes of its read.
  unfoldable pub after_match :
      M (Xfer T) DapError ℕ → Bool → ℕ → Result DapError ℕ × Xfer T → Result DapError ℕ × Xfer T
  after_match again spent match_value (ok value, x) =
      if bit_and value x.dispatcher.config.match_mask == match_value
      then (ok value, x)
      else if spent
      then (err exceed_retry_count, x)
      else again x
  after_match again spent match_value (err (swd_error e), x) =
      if not (e == dap_transfer_wait) || spent then (err (swd_error e), x) else again x
  after_match again spent match_value (err invalid_command, x) = (err invalid_command, x)
  after_match again spent match_value (err invalid_dap_info_id, x) = (err invalid_dap_info_id, x)
  after_match again spent match_value (err internal_error, x) = (err internal_error, x)
  after_match again spent match_value (err exceed_retry_count, x) = (err exceed_retry_count, x)
  after_match again spent match_value (err not_supported, x) = (err not_supported, x)
  after_match again spent match_value (panic, x) = (panic, x)

  -- `left` is `self.config.match_retry_count - match_retry_count`.
  unfoldable pub match_loop : ℕ → ℕ → ℕ → M (Xfer T) DapError ℕ
  match_loop request match_value zero x =
      after_match (λ y. (panic, y)) true match_value (call request 0 x)
  match_loop request match_value (suc left) x =
      after_match (match_loop request match_value left) false match_value (call request 0 x)

  unfoldable pub match_read : ℕ → M (Xfer T) DapError (Unit {0})
  match_read request = do
    match_value ← on_request read_u32
    if contains request ap_n_dp then (do call request 0; pure tt) else pure tt
    left ← gets (λ (x : Xfer T). x.dispatcher.config.match_retry_count)
    match_loop request match_value left
    pure tt

  unfoldable pub post_read : ℕ → M (Xfer T) DapError (Unit {0})
  post_read request = do
    posted ← gets (λ (x : Xfer T). x.posted_read)
    if posted then pure tt else (do call request 0; modify (set_posted true))

  unfoldable pub dp_read : ℕ → M (Xfer T) DapError (Unit {0})
  dp_read request = do value ← call request 0; on_response (write_u32 value)

  unfoldable pub read_register : ℕ → M (Xfer T) DapError (Unit {0})
  read_register request = do
    collect_posted request
    if contains request transfer_match_value
        then match_read request
        else if contains request ap_n_dp
        then post_read request
        else dp_read request
    modify (set_issued false)

  -- The result of a posted read, before a write.
  unfoldable pub collect_before_write : M (Xfer T) DapError (Unit {0})
  collect_before_write = do
    posted ← gets (λ (x : Xfer T). x.posted_read)
    if posted
        then (do
          value ← call rdbuff_read 0
          on_response (write_u32 value)
          modify (set_posted false))
        else pure tt

  unfoldable pub write_register : ℕ → M (Xfer T) DapError (Unit {0})
  write_register request = do
    collect_before_write
    value ← on_request read_u32
    if contains request transfer_match_mask
        then modify (set_mask value)
        else (do call request value; modify (set_issued true))

  -- The body of the loop, from the request byte on.
  unfoldable pub round : M (Xfer T) DapError (Unit {0})
  round = do
    request ← on_request read_swd_request
    if contains request r_n_w then read_register request else write_register request
    modify count_response

  unfoldable pub transfer_loop : ℕ → M (Xfer T) DapError ℕ
  transfer_loop zero = pure 0
  transfer_loop (suc n) = do modify (set_request_count n); round; transfer_loop n

  -- Skips the requests that are left after an error.
  unfoldable pub skip_loop : ℕ → M (Xfer T) DapError (Unit {0})
  skip_loop zero = pure tt
  skip_loop (suc n) = do
    modify (set_request_count n)
    request ← on_request read_swd_request
    if contains request r_n_w
        then if contains request transfer_match_value
          then (do on_request read_u32; pure tt)
          else pure tt
        else (do on_request read_u32; pure tt)
    skip_loop n

  -- The answer to the last read or write, if one is still open.
  unfoldable pub finish_last : Bool → DapError ⊎ ℕ → M (Xfer T) DapError (DapError ⊎ ℕ)
  finish_last posted (inr value) = do
    if posted then on_response (write_u32 value) else pure tt
    pure (inr 0)
  finish_last posted (inl e) = pure (inl e)

  unfoldable pub check_last : DapError ⊎ ℕ → M (Xfer T) DapError (DapError ⊎ ℕ)
  check_last (inl e) = pure (inl e)
  check_last (inr value) = do
    posted ← gets (λ (x : Xfer T). x.posted_read)
    issued ← gets (λ (x : Xfer T). x.write_issued)
    if posted || issued
        then (do last ← attempt (call rdbuff_read 0); finish_last posted last)
        else pure (inr value)

unfoldable pub status : DapError ⊎ ℕ → ℕ
status (inr value) = dap_transfer_ok
status (inl (swd_error e)) = e
status (inl invalid_command) = dap_transfer_error
status (inl invalid_dap_info_id) = dap_transfer_error
status (inl internal_error) = dap_transfer_error
status (inl exceed_retry_count) = dap_transfer_error
status (inl not_supported) = dap_transfer_error

module _ {T : Type 0} ⦃t : DapTransport T⦄ where
  -- The loop, the skipping and the check of the last access; the result is the status byte.
  unfoldable pub transfer_body : ℕ → ℕ → M (Xfer T) DapError ℕ
  transfer_body dap_index n = do
    outcome ← attempt (transfer_loop dap_index n)
    skipped ← gets (λ (x : Xfer T). x.request_count)
    skip_loop dap_index skipped
    last ← check_last dap_index outcome
    pure (status last)

module _ {T : Type 0} where
  abbrev pub start : List ℕ → ℕ → Session T → Xfer T
  start request n s = record {
    dispatcher = s.dispatcher;
    transport = s.transport;
    request_count = n;
    request = new_with_position request 2;
    response = Cursor.new (drop 2 s.response);
    posted_read = false;
    write_issued = false;
    response_count = 0;
  }

  -- Writes the header, and gives the two slices back as one.
  abbrev pub close : List ℕ → Result DapError ℕ × Xfer T → Result DapError (ℕ × ℕ) × Session T
  close header (ok code, x) = (
    ok (x.request.position, x.response.position + 2),
    record {
      dispatcher = x.dispatcher;
      transport = x.transport;
      response = x.response_count % 256 ∷ code ∷ x.response.buffer;
    },
  )
  close header (err e, x) = (
    err e,
    record {
      dispatcher = x.dispatcher;
      transport = x.transport;
      response = header ++ x.response.buffer;
    },
  )
  close header (panic, x) = (
    panic,
    record {
      dispatcher = x.dispatcher;
      transport = x.transport;
      response = header ++ x.response.buffer;
    },
  )

module _ {T : Type 0} ⦃t : DapTransport T⦄ where
  unfoldable pub transfer : List ℕ → CommandResult T
  transfer request = do
    throw_if (shorter request 2) invalid_command
    dap_index ← index request 0
    request_count ← index request 1
    response ← gets (λ (s : Session T). s.response)
    panic_if (shorter response 2)
    λ s.
        close (take 2 s.response)
          (transfer_body dap_index request_count (start request request_count s))
