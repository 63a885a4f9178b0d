-- ===== src/Dispatcher/Block.antt =====
-- DAP_TransferBlock (rust-dap/src/dispatcher.rs): one register read or written many times.
pub mod Bounds
use rust_dap.Base.{
  ℕ, zero, suc, ◌+◌, ◌/◌, ◌%◌, Bool, ◌&&◌, List, [], ◌∷◌, ◌++◌, take, drop, shorter, ◌⊎◌, inl, inr,
  bit_and, ◌==◌, if◌then◌else◌, Result, M, ok, err, panic, pure, gets, modify, throw_if, panic_if,
  attempt, zoom, index, ◌>>=◌, ◌>>◌,
}
use rust_dap.Base.Words.{contains}
use rust_dap.Cursor.{BufferCursor, new_with_position}
use rust_dap.Cursor
use rust_dap.CmsisDap.{
  DapError, invalid_command, invalid_dap_info_id, swd_error, internal_error, exceed_retry_count,
  not_supported, ap_n_dp, r_n_w, rdbuff_read, dap_transfer_ok, dap_transfer_wait,
  dap_transfer_error, read_swd_request, read_u16, read_u32, write_u32,
}
use rust_dap.Transport.{DapTransport}
use rust_dap.Dispatcher.Session.{Dispatcher, Session, CommandResult}
use rust_dap.Dispatcher.Retry.{transfer_with_retry}

-- What `transfer_block_inner` borrows.
pub record Block (T : Type 0) : Type 0 where
  pub transport : T
  pub request : BufferCursor
  pub response : BufferCursor
  pub response_count : ℕ

module _ {T : Type 0} where
  abbrev pub on_request : {A : Type 0} → M BufferCursor DapError A → M (Block T) DapError A
  on_request = zoom (λ x. x.request) (λ c x. record x { request = c })

  abbrev pub on_response : {A : Type 0} → M BufferCursor DapError A → M (Block T) DapError A
  on_response = zoom (λ x. x.response) (λ c x. record x { response = c })

  abbrev pub count_response : Block T → Block T
  count_response x = record x { response_count = x.response_count + 1 }

-- The last word of an AP read comes from RDBUFF.
unfoldable pub block_request : ℕ → ℕ → ℕ
block_request request left = if left == 0 && contains request ap_n_dp then rdbuff_read else request

module _ {T : Type 0} ⦃t : DapTransport T⦄ (d : Dispatcher) (dap_index : ℕ) where
  unfoldable pub call : ℕ → ℕ → M (Block T) DapError ℕ
  call request bits x =
      let (r, s) = transfer_with_retry d dap_index request bits x.transport in
      (r, record x { transport = s })

  unfoldable pub read_loop : ℕ → ℕ → M (Block T) DapError (Unit {0})
  read_loop request zero = pure tt
  read_loop request (suc n) = do
    value ← call (block_request request n) 0
    on_response (write_u32 value)
    modify count_response
    read_loop request n

  unfoldable pub write_loop : ℕ → ℕ → M (Block T) DapError (Unit {0})
  write_loop request zero = pure tt
  write_loop request (suc n) = do
    word ← on_request read_u32
    call request word
    modify count_response
    write_loop request n

  unfoldable pub transfer_block_inner : ℕ → ℕ → M (Block T) DapError (Unit {0})
  transfer_block_inner request n =
      if contains request r_n_w
      then (do
        if contains request ap_n_dp then (do call request 0; pure tt) else pure tt
        read_loop request n)
      else (do write_loop request n; call rdbuff_read 0; pure tt)

unfoldable pub status : {A : Type 0} → DapError ⊎ A → ℕ
status (inr a) = dap_transfer_ok
status (inl exceed_retry_count) = dap_transfer_wait
status (inl (swd_error e)) = e
status (inl invalid_command) = dap_transfer_error
status (inl invalid_dap_info_id) = dap_transfer_error
status (inl internal_error) = dap_transfer_error
status (inl not_supported) = dap_transfer_error

module _ {T : Type 0} where
  -- Writes the header, and gives the two slices back as one.
  abbrev pub close :
      Dispatcher → List ℕ → Result DapError ℕ × Block T → Result DapError (ℕ × ℕ) × Session T
  close d header (ok code, x) = (
    ok (x.request.position, x.response.position + 3),
    record {
      dispatcher = d;
      transport = x.transport;
      response =
          bit_and x.response_count 0xff
          ∷ bit_and (x.response_count / 256) 0xff
          ∷ code
          ∷ x.response.buffer;
    },
  )
  close d header (err e, x) = (
    err e,
    record { dispatcher = d; transport = x.transport; response = header ++ x.response.buffer },
  )
  close d header (panic, x) = (
    panic,
    record { dispatcher = d; transport = x.transport; response = header ++ x.response.buffer },
  )

module _ {T : Type 0} ⦃t : DapTransport T⦄ where
  -- The request byte, the transfers and the status.
  unfoldable pub block_body : Dispatcher → ℕ → ℕ → M (Block T) DapError ℕ
  block_body d dap_index request_count = do
    request ← on_request read_swd_request
    outcome ← attempt (transfer_block_inner d dap_index request request_count)
    pure (status outcome)

  -- The count is read; a count of zero ends the command with an empty answer.
  unfoldable pub block_counted : ℕ → Result DapError ℕ × BufferCursor → CommandResult T
  block_counted dap_index (ok n, c) s =
      if n == 0
      then (ok (3, 3), record s { response = 0 ∷ 0 ∷ 0 ∷ drop 3 s.response })
      else close s.dispatcher (take 3 s.response) (
          block_body s.dispatcher dap_index n (record {
            transport = s.transport;
            request = c;
            response = Cursor.new (drop 3 s.response);
            response_count = 0;
          }))
  block_counted dap_index (err e, c) s = (err e, s)
  block_counted dap_index (panic, c) s = (panic, s)

  unfoldable pub transfer_block : List ℕ → CommandResult T
  transfer_block request = do
    throw_if (shorter request 3) invalid_command
    dap_index ← index request 0
    response ← gets (λ (s : Session T). s.response)
    panic_if (shorter response 3)
    block_counted dap_index (read_u16 (new_with_position request 1))
