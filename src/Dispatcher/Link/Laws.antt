-- ===== src/Dispatcher/Link/Laws.antt =====
-- Connecting and disconnecting (rust-dap/src/dispatcher.rs).
use rust_dap.Base.{
  ℕ, ◌≤◌, ◌≡◌, ◌⊎◌, inl, inr, refl, none, some, List, [], ◌∷◌, length, take, overwrite, ok, err,
  panic, ◌>>=◌, arith, le→not_shorter, Result-cases,
}
use rust_dap.CmsisDap.{DapError, dap_ok, dap_error}
use rust_dap.Transport.{DapTransport, ConnectPort, ActivePort}
use rust_dap.Dispatcher.Session.{Session, put_slice}
use rust_dap.Dispatcher.Link.{parse_port, port_code, record_port, connect, disconnect}

first_byte : (v : ℕ) (xs : List ℕ) → 1 ≤ length xs → take 1 (overwrite 0 (v ∷ []) xs) ≡ v ∷ []
unfolding overwrite
first_byte v [] h = absurd (omega arith)
first_byte v (x ∷ xs) h = refl

module _ {T : Type 0} ⦃t : DapTransport T⦄ where
  -- With a response buffer of a byte at least and a port byte that names a port: where the transport
  -- connects, the port that it reports is active and is the answer, and where it refuses, the answer
  -- is 0 and the active port stays. Its state is that of the transport's call in both cases.
  pub connect-outcome :
      (byte : ℕ) (rest : List ℕ) (port : ConnectPort) (s : Session T)
      → parse_port byte ≡ some port
      → 1 ≤ length s.response
      → (let x = connect (byte ∷ rest) s in
          let y = t.connect port s.dispatcher.config s.transport in
          (x.1.transport ≡ y.1)
          × (((a : ActivePort) × (y.0 ≡ ok a)
                × (x.0 ≡ ok (1, 1))
                × (x.1.dispatcher.active ≡ some a)
                × (take 1 x.1.response ≡ port_code a ∷ []))
              ⊎ ((e : DapError) × (y.0 ≡ err e)
                  × (x.0 ≡ ok (1, 1))
                  × (x.1.dispatcher.active ≡ s.dispatcher.active)
                  × (take 1 x.1.response ≡ 0 ∷ []))
              ⊎ ((y.0 ≡ panic) × (x.0 ≡ panic))))
  unfolding connect record_port put_slice ◌>>=◌
  connect-outcome byte rest port s e h =
      elim (Result-cases (t.connect port s.dispatcher.config s.transport).0) [
        | inl (a, y) ↦
            ground
              (arith, e, y, le→not_shorter s.response 1 h, first_byte (port_code a) s.response h)
        | inr (inl (x, y)) ↦
            ground (arith, e, y, le→not_shorter s.response 1 h, first_byte 0 s.response h)
        | inr (inr y) ↦ ground (arith, e, y)
      ]

  -- With a response buffer of a byte at least: unless the transport panics, no port is active after
  -- DAP_Disconnect, and the answer says whether the transport let go.
  pub disconnect-outcome :
      (request : List ℕ) (s : Session T)
      → 1 ≤ length s.response
      → (let x = disconnect request s in
          let y = t.disconnect s.dispatcher.config s.transport in
          (x.1.dispatcher.active ≡ none)
          × (x.1.transport ≡ y.1)
          × (((y.0 ≡ ok tt) × (x.0 ≡ ok (0, 1)) × (take 1 x.1.response ≡ dap_ok ∷ []))
              ⊎ ((e : DapError) × (y.0 ≡ err e)
                  × (x.0 ≡ ok (0, 1))
                  × (take 1 x.1.response ≡ dap_error ∷ []))
              ⊎ ((y.0 ≡ panic) × (x.0 ≡ panic))))
  unfolding disconnect put_slice ◌>>=◌
  disconnect-outcome request s h =
      elim (Result-cases (t.disconnect s.dispatcher.config s.transport).0) [
        | inl (a, y) ↦
            ground (arith, y, le→not_shorter s.response 1 h, first_byte dap_ok s.response h)
        | inr (inl (x, y)) ↦
            ground (arith, y, le→not_shorter s.response 1 h, first_byte dap_error s.response h)
        | inr (inr y) ↦ ground (arith, y)
      ]
