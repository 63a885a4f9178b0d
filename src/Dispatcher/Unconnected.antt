-- ===== src/Dispatcher/Unconnected.antt =====
-- Without a connection nothing reaches the wires (rust-dap/src/dispatcher.rs).
use rust_dap.Base.{
  ℕ, zero, suc, ◌≡◌, refl, ap, ◌∙◌, Option, none, some, List, take, drop, Result, ok, err, panic, M,
  ◌>>=◌, modify, arith,
}
use rust_dap.Base.Hoare.{Keeps, keeps_rules, Keeps-zoom, Keeps-bind, Keeps-modify}
use rust_dap.Cursor.{BufferCursor}
use rust_dap.Cursor
use rust_dap.CmsisDap.{DapError, not_supported, read_swd_request, read_u32, write_u32}
use rust_dap.Transport.{DapTransport, ActivePort}
use rust_dap.Dispatcher.Session.{Dispatcher, Session}
use rust_dap.Dispatcher.Retry.{
  after_transfer, retry_loop, transfer_on, transfer_once, transfer_with_retry,
}
use rust_dap.Dispatcher.Transfer.{Xfer, call, start, close, transfer, transfer_body}
use rust_dap.Dispatcher.Transfer.Keeps.{IsStable, transfer_body-Keeps}
use rust_dap.Dispatcher.Block.{
  Block, count_response, block_request, read_loop, write_loop, transfer_block_inner, block_body,
  block_counted, transfer_block,
}
use rust_dap.Dispatcher.Block

module _ {T : Type 0} ⦃t : DapTransport T⦄ where
  transfer_on-none :
      (a : Option ActivePort) (d : Dispatcher) (dap_index request bits : ℕ) (s : T)
      → a ≡ none
      → transfer_on a d.config dap_index request bits s ≡ (err not_supported, s)
  unfolding transfer_on ◌>>=◌
  transfer_on-none none d dap_index request bits s e = refl
  transfer_on-none (some a) d dap_index request bits s e = absurd (ground arith)

  retry_loop-refused :
      (once : M T DapError ℕ) (n : ℕ) (s : T)
      → once s ≡ (err not_supported, s)
      → retry_loop once n s ≡ (err not_supported, s)
  unfolding retry_loop after_transfer
  retry_loop-refused once zero s e = ap (after_transfer once _) e
  retry_loop-refused once (suc n) s e = ap (after_transfer (retry_loop once n) _) e

  unconnected :
      (d : Dispatcher) (dap_index request bits : ℕ) (s : T)
      → d.active ≡ none
      → transfer_with_retry d dap_index request bits s ≡ (err not_supported, s)
  unfolding transfer_with_retry transfer_once
  unconnected d dap_index request bits s e =
      retry_loop-refused (transfer_once d dap_index request bits) d.config.retry_count s
        (transfer_on-none d.active d dap_index request bits s e)

  module _ (wires : T) where
    -- No port is active, and the transport is as it was.
    abbrev pub IsUntouched : Session T → Type 0
    IsUntouched s = (s.dispatcher.active ≡ none) × (s.transport ≡ wires)

    abbrev IsIdle : Xfer T → Type 0
    IsIdle x = (x.dispatcher.active ≡ none) × (x.transport ≡ wires)

    call-Keeps : (dap_index request bits : ℕ) → Keeps IsIdle (call {T = T} dap_index request bits)
    unfolding call
    call-Keeps dap_index request bits = record {
      run = λ x h. (
        h.0,
        ap (λ y. y.1) (unconnected x.dispatcher dap_index request bits x.transport h.0) ∙ h.1,
      );
    }

    IsIdle-IsStable : (dap_index : ℕ) → IsStable dap_index IsIdle
    IsIdle-IsStable dap_index = record {
      calls = call-Keeps dap_index;
      request_byte = Keeps-zoom _ _ read_swd_request λ x h. h;
      request_word = Keeps-zoom _ _ read_u32 λ x h. h;
      response_word = λ value. Keeps-zoom _ _ (write_u32 value) λ x h. h;
      posted = λ b x h. h;
      issued = λ b x h. h;
      mask = λ value x h. h;
      left = λ n x h. h;
      counted = λ x h. h;
    }

    close-IsUntouched :
        (header : List ℕ) (x : Result DapError ℕ × Xfer T)
        → IsIdle x.1
        → IsUntouched (close header x).1
    close-IsUntouched header (ok code, x) h = h
    close-IsUntouched header (err e, x) h = h
    close-IsUntouched header (panic, x) h = h

    transfer-Keeps : (request : List ℕ) → Keeps IsUntouched (transfer {T = T} request)
    unfolding transfer
    transfer-Keeps request = Keeps-bind _ _ (search keeps_rules) λ _.
        Keeps-bind _ _ (search keeps_rules) λ dap_index.
          Keeps-bind _ _ (search keeps_rules) λ count.
            Keeps-bind _ _ (search keeps_rules) λ response. Keeps-bind _ _ (search keeps_rules) λ _.
              record {
                run = λ s h.
                    close-IsUntouched (take 2 s.response)
                      (transfer_body dap_index count (start request count s))
                      ((transfer_body-Keeps dap_index (IsIdle-IsStable dap_index) count).run
                        (start request count s) h);
              }

    abbrev IsStill : Block T → Type 0
    IsStill x = x.transport ≡ wires

    module _ (d : Dispatcher) (idle : d.active ≡ none) (dap_index : ℕ) where
      block_call-Keeps : (request bits : ℕ) → Keeps IsStill (Block.call d dap_index request bits)
      unfolding Block.call
      block_call-Keeps request bits = record {
        run = λ x h. ap (λ y. y.1) (unconnected d dap_index request bits x.transport idle) ∙ h;
      }

      word-Keeps : Keeps IsStill (Block.on_request {T = T} read_u32)
      word-Keeps = Keeps-zoom _ _ read_u32 λ x h. h

      byte-Keeps : Keeps IsStill (Block.on_request {T = T} read_swd_request)
      byte-Keeps = Keeps-zoom _ _ read_swd_request λ x h. h

      answer-Keeps : (value : ℕ) → Keeps IsStill (Block.on_response {T = T} (write_u32 value))
      answer-Keeps value = Keeps-zoom _ _ (write_u32 value) λ x h. h

      count-Keeps : Keeps {E = DapError} IsStill (modify (count_response {T = T}))
      count-Keeps = Keeps-modify count_response λ x h. h

      ruleset block_rules =
          (keeps_rules, block_call-Keeps, word-Keeps, byte-Keeps, answer-Keeps, count-Keeps)

      read_loop-Keeps : (request n : ℕ) → Keeps IsStill (read_loop d dap_index request n)
      unfolding read_loop
      read_loop-Keeps request zero = search block_rules
      read_loop-Keeps request (suc n) = Keeps-bind _ _ (search block_rules) λ value.
          Keeps-bind _ _ (search block_rules)
            λ _. Keeps-bind _ _ (search block_rules) λ _. read_loop-Keeps request n

      write_loop-Keeps : (request n : ℕ) → Keeps IsStill (write_loop d dap_index request n)
      unfolding write_loop
      write_loop-Keeps request zero = search block_rules
      write_loop-Keeps request (suc n) = Keeps-bind _ _ (search block_rules) λ word.
          Keeps-bind _ _ (search block_rules)
            λ _. Keeps-bind _ _ (search block_rules) λ _. write_loop-Keeps request n

      inner-Keeps : (request n : ℕ) → Keeps IsStill (transfer_block_inner d dap_index request n)
      unfolding transfer_block_inner
      inner-Keeps request n = search (block_rules, read_loop-Keeps, write_loop-Keeps) depth 12

      block_body-Keeps : (n : ℕ) → Keeps IsStill (block_body d dap_index n)
      unfolding block_body
      block_body-Keeps n = search (block_rules, inner-Keeps) depth 12

    close_block-IsUntouched :
        (d : Dispatcher) (header : List ℕ) (x : Result DapError ℕ × Block T)
        → d.active ≡ none
        → IsStill x.1
        → IsUntouched (Block.close d header x).1
    close_block-IsUntouched d header (ok code, x) e h = (e, h)
    close_block-IsUntouched d header (err c, x) e h = (e, h)
    close_block-IsUntouched d header (panic, x) e h = (e, h)

    block_counted-Keeps :
        (dap_index : ℕ) (x : Result DapError ℕ × BufferCursor)
        → Keeps IsUntouched (block_counted {T = T} dap_index x)
    unfolding block_counted
    block_counted-Keeps dap_index (ok n, c) = record {
      run = λ s h.
          let x : Block T = record {
            transport = s.transport;
            request = c;
            response = Cursor.new (drop 3 s.response);
            response_count = 0;
          } in
          ground (
            arith,
            close_block-IsUntouched s.dispatcher (take 3 s.response)
                (block_body s.dispatcher dap_index n x) h.0
                ((block_body-Keeps s.dispatcher h.0 dap_index n).run x h.1),
          );
    }
    block_counted-Keeps dap_index (err e, c) = record { run = λ s h. h }
    block_counted-Keeps dap_index (panic, c) = record { run = λ s h. h }

    transfer_block-Keeps : (request : List ℕ) → Keeps IsUntouched (transfer_block {T = T} request)
    unfolding transfer_block
    transfer_block-Keeps request = search (keeps_rules, block_counted-Keeps) depth 12

  -- While no port is active, neither DAP_Transfer nor DAP_TransferBlock, whatever the request and
  -- however it ends, touches the transport or makes a port active.
  pub unconnected-Keeps :
      (wires : T) (request : List ℕ)
      → Keeps (IsUntouched wires) (transfer request)
        × Keeps (IsUntouched wires) (transfer_block request)
  unconnected-Keeps wires request =
      (transfer-Keeps wires request, transfer_block-Keeps wires request)
