-- ===== src/Dispatcher/Transfer/Bounds.antt =====
-- A transfer stays inside the request and the response (rust-dap/src/dispatcher.rs).
use rust_dap.Base.{ℕ, List, length, drop, length-drop, not_shorter→le, arith, [], ◌∷◌, ◌>>=◌}
use rust_dap.Base.Hoare.{Keeps, Keeps-zoom, Ensures}
use rust_dap.CmsisDap.{read_swd_request, read_u32, write_u32}
use rust_dap.CmsisDap.Laws.{
  IsReading, IsWriting, read_swd_request-IsReading, read_u32-IsReading, write_u32-IsWriting,
}
use rust_dap.Transport.{DapTransport}
use rust_dap.Dispatcher.Session.{IsSized, Within}
use rust_dap.Dispatcher.Transfer.Keeps.{IsStable, transfer_body-Keeps}
use rust_dap.Dispatcher.Transfer.{
  Xfer, on_request, on_response, call, transfer_body, start, transfer,
}

module _ {T : Type 0} ⦃t : DapTransport T⦄ (dap_index : ℕ) (b : List ℕ) (m : ℕ) where
  -- The cursors stay in their buffers.
  abbrev pub IsFramed : Xfer T → Type 0
  IsFramed x = IsReading b x.request × IsWriting m x.response

  call-IsFramed : (request bits : ℕ) → Keeps IsFramed (call dap_index request bits)
  unfolding call
  call-IsFramed request bits = record { run = λ x h. h }

  request_byte-IsFramed : Keeps IsFramed (on_request {T = T} read_swd_request)
  request_byte-IsFramed =
      Keeps-zoom _ _ _ λ x h. ((read_swd_request-IsReading b).run x.request h.0, h.1)

  request_word-IsFramed : Keeps IsFramed (on_request {T = T} read_u32)
  request_word-IsFramed = Keeps-zoom _ _ _ λ x h. ((read_u32-IsReading b).run x.request h.0, h.1)

  response_word-IsFramed : (value : ℕ) → Keeps IsFramed (on_response {T = T} (write_u32 value))
  response_word-IsFramed value =
      Keeps-zoom _ _ _ λ x h. (h.0, (write_u32-IsWriting m value).run x.response h.1)

  IsFramed-IsStable : IsStable dap_index IsFramed
  IsFramed-IsStable = record {
    calls = call-IsFramed;
    request_byte = request_byte-IsFramed;
    request_word = request_word-IsFramed;
    response_word = response_word-IsFramed;
    posted = λ b x h. h;
    issued = λ b x h. h;
    mask = λ value x h. h;
    left = λ n x h. h;
    counted = λ x h. h;
  }

  transfer_body-IsFramed : (n : ℕ) → Keeps IsFramed (transfer_body dap_index n)
  transfer_body-IsFramed = transfer_body-Keeps dap_index IsFramed-IsStable

module _ {T : Type 0} ⦃t : DapTransport T⦄ where
  pub transfer-Within :
      (request : List ℕ) (n : ℕ) → Ensures (IsSized n) (transfer {T = T} request) (Within request n)
  unfolding transfer ◌>>=◌
  transfer-Within [] n s h = h
  transfer-Within (i ∷ []) n s h = h
  transfer-Within (i ∷ count ∷ rest) n s h = ground (
    arith,
    not_shorter→le s.response 2,
    length-drop 2 s.response,
    (transfer_body-IsFramed ⦃t = t⦄ i (i ∷ count ∷ rest) (length (drop 2 s.response)) count).run
        (start (i ∷ count ∷ rest) count s),
  )
