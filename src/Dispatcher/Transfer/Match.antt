-- ===== src/Dispatcher/Transfer/Match.antt =====
-- What the loop of a read with a match does (rust-dap/src/dispatcher.rs, `transfer`).
use rust_dap.Base.{
  ℕ, zero, suc, ◌≤◌, ◌≡◌, refl, subst, Bool, true, false, not, ◌⊎◌, inl, inr, bit_and, ◌==◌,
  if◌then◌else◌, Result, ok, err, panic, M, arith, sym, ap, ◌∙◌, ◌>>=◌, ◌>>◌, pure, gets, zoom,
  continue, Result-cases,
}
use rust_dap.CmsisDap.{
  DapError, invalid_command, invalid_dap_info_id, swd_error, internal_error, exceed_retry_count,
  not_supported, dap_transfer_wait, ap_n_dp, read_u32,
}
use rust_dap.Transport.{DapTransport}
use rust_dap.Dispatcher.Transfer.{Xfer, call, after_match, match_loop, match_read, on_request}
use rust_dap.Base.Words.{contains}
use rust_dap.Dispatcher.Retry.{transfer_with_retry}

-- A value that does not match, and a WAIT, are read again.
abbrev pub is_miss : {T : Type 0} → ℕ → Result DapError ℕ × Xfer T → Bool
is_miss match_value (ok v, x) = not (bit_and v x.dispatcher.config.match_mask == match_value)
is_miss match_value (err (swd_error e), x) = e == dap_transfer_wait
is_miss match_value (err invalid_command, x) = false
is_miss match_value (err invalid_dap_info_id, x) = false
is_miss match_value (err internal_error, x) = false
is_miss match_value (err exceed_retry_count, x) = false
is_miss match_value (err not_supported, x) = false
is_miss match_value (panic, x) = false

-- The last outcome, when no read is left: a WAIT stays, and a value is an error of its own.
abbrev pub exhausted : {T : Type 0} → Result DapError ℕ × Xfer T → Result DapError ℕ × Xfer T
exhausted (ok v, x) = (err exceed_retry_count, x)
exhausted (err e, x) = (err e, x)
exhausted (panic, x) = (panic, x)

module _ {T : Type 0} where
  -- `n` reads in a row that miss, and that lead from a state to another.
  pub data Misses (once : M (Xfer T) DapError ℕ) (value : ℕ) : ℕ → Xfer T → Xfer T → Type 0 where
    no_miss : (x : Xfer T) → Misses once value 0 x x
    missed :
        {n : ℕ} {x x' : Xfer T}
        → is_miss value (once x) ≡ true
        → Misses once value n (once x).1 x'
        → Misses once value (suc n) x x'

  -- `n` misses, with `n` at most `bound`, and then a read that is the outcome, where it is no miss,
  -- and that is the last one, where it is another.
  abbrev pub IsMatched :
      M (Xfer T) DapError ℕ → ℕ → ℕ → Xfer T → Result DapError ℕ × Xfer T → Type 0
  IsMatched once value bound x result =
      (n : ℕ) × (x' : Xfer T) × Misses once value n x x'
      × (n ≤ bound)
      × (((is_miss value (once x') ≡ false) × (result ≡ once x'))
          ⊎ ((is_miss value (once x') ≡ true) × (n ≡ bound) × (result ≡ exhausted (once x'))))

module _ {T : Type 0} ⦃t : DapTransport T⦄ (dap_index : ℕ) where
  after_match-is_miss :
      (again : M (Xfer T) DapError ℕ) (spent : Bool) (value : ℕ) (y : Result DapError ℕ × Xfer T)
      → after_match dap_index again spent value y
        ≡ (if is_miss value y then (if spent then exhausted y else again y.1) else y)
  unfolding after_match
  after_match-is_miss again spent value (ok v, x) = ground arith
  after_match-is_miss again spent value (err (swd_error e), x) = ground arith
  after_match-is_miss again spent value (err invalid_command, x) = refl
  after_match-is_miss again spent value (err invalid_dap_info_id, x) = refl
  after_match-is_miss again spent value (err internal_error, x) = refl
  after_match-is_miss again spent value (err exceed_retry_count, x) = refl
  after_match-is_miss again spent value (err not_supported, x) = refl
  after_match-is_miss again spent value (panic, x) = refl

truth : (b : Bool) → (b ≡ true) ⊎ (b ≡ false)
truth true = inl refl
truth false = inr refl

module _ {T : Type 0} (once : M (Xfer T) DapError ℕ) (value : ℕ) where
  is_miss-IsMatched :
      (bound : ℕ) (x : Xfer T) (r : Result DapError ℕ × Xfer T)
      → is_miss value (once x) ≡ true
      → IsMatched once value bound (once x).1 r
      → IsMatched once value (suc bound) x r
  is_miss-IsMatched bound x r miss (n, x', misses, le, inl h) =
      (suc n, x', missed miss misses, omega (arith, le), inl h)
  is_miss-IsMatched bound x r miss (n, x', misses, le, inr (h, e, last)) =
      (suc n, x', missed miss misses, omega (arith, le), inr (h, omega (arith, e), last))

module _ {T : Type 0} ⦃t : DapTransport T⦄ (dap_index request value : ℕ) where
  -- The reads of the loop, where `left` of them may follow the first.
  match_loop-IsMatched :
      (left : ℕ) (x : Xfer T)
      → IsMatched
          (call dap_index request 0)
          value
          left
          x
          (match_loop dap_index request value left x)
  unfolding match_loop
  match_loop-IsMatched zero x =
      let y = call dap_index request 0 x in
      let e = after_match-is_miss dap_index (λ z. (panic, z)) true value y in
      elim (truth (is_miss value y)) [
        | inl h ↦ (0, x, no_miss x, omega arith, inr (h, refl, ground (arith, e, h)))
        | inr h ↦ (0, x, no_miss x, omega arith, inl (h, ground (arith, e, h)))
      ]
  match_loop-IsMatched (suc left) x =
      let y = call dap_index request 0 x in
      let e =
        after_match-is_miss dap_index (match_loop dap_index request value left) false value y in
      elim (truth (is_miss value y)) [
        | inl h ↦ is_miss-IsMatched (call dap_index request 0) value left x _ h (
            subst (IsMatched (call dap_index request 0) value left y.1) (ground (arith, e, h))
              (match_loop-IsMatched left y.1))
        | inr h ↦ (0, x, no_miss x, omega arith, inl (h, ground (arith, e, h)))
      ]

-- A match stores no value.
abbrev pub without_value :
    {T : Type 0} → Result DapError ℕ × Xfer T → Result DapError (Unit {0}) × Xfer T
without_value (ok v, x) = (ok tt, x)
without_value (err e, x) = (err e, x)
without_value (panic, x) = (panic, x)

module _ {T : Type 0} ⦃t : DapTransport T⦄ (dap_index request : ℕ) where
  -- An AP answers with the value of the read before, so it is read once beforehand.
  abbrev pub read_ahead : M (Xfer T) DapError (Unit {0})
  read_ahead = if contains request ap_n_dp then (do call dap_index request 0; pure tt) else pure tt

  on_request-dispatcher : (x : Xfer T) → (on_request read_u32 x).1.dispatcher ≡ x.dispatcher
  unfolding zoom
  on_request-dispatcher x = refl

  call-dispatcher :
      (x : Xfer T)
      → (continue (call dap_index request 0 x) (λ v. pure tt)).1.dispatcher ≡ x.dispatcher
  unfolding call pure
  call-dispatcher x =
      elim (Result-cases (transfer_with_retry x.dispatcher dap_index request 0 x.transport).0) [
        | inl (a, e) ↦ ground (arith, e)
        | inr (inl (u, e)) ↦ ground (arith, e)
        | inr (inr e) ↦ ground (arith, e)
      ]

  read_ahead-dispatcher : (x : Xfer T) → (read_ahead x).1.dispatcher ≡ x.dispatcher
  unfolding ◌>>=◌ pure
  read_ahead-dispatcher x = elim (truth (contains request ap_n_dp)) [
    | inl e ↦ ground (arith, e, call-dispatcher x)
    | inr e ↦ ground (arith, e)
  ]

  rest_of_read :
      (value : ℕ) (x x1 x2 : Xfer T)
      → on_request read_u32 x ≡ (ok value, x1)
      → read_ahead x1 ≡ (ok tt, x2)
      → match_read dap_index request x
        ≡ without_value
            (match_loop dap_index request value x2.dispatcher.config.match_retry_count x2)
  unfolding match_read ◌>>=◌ pure gets
  rest_of_read value x x1 x2 e1 e2 =
      let r = match_loop dap_index request value x2.dispatcher.config.match_retry_count x2 in
      elim (Result-cases r.0) [
        | inl (a, e) ↦ ground (arith, e1, e2, e)
        | inr (inl (u, e)) ↦ ground (arith, e1, e2, e)
        | inr (inr e) ↦ ground (arith, e1, e2, e)
      ]

  -- A read with a match takes a value from the request, and reads an AP once ahead. Where both
  -- succeed, it reads again exactly while a read answers WAIT or a value that differs under the
  -- mask, and at most `match_retry_count` of the configuration times more. Its outcome is that of
  -- the last read, without the value, or the error that the retries are exceeded where the last
  -- read brought another value.
  pub match_read-IsMatched :
      (value : ℕ) (x x1 x2 : Xfer T)
      → on_request read_u32 x ≡ (ok value, x1)
      → read_ahead x1 ≡ (ok tt, x2)
      → (r : Result DapError ℕ × Xfer T) × IsMatched
          (call dap_index request 0)
          value
          x.dispatcher.config.match_retry_count
          x2
          r
        × (match_read dap_index request x ≡ without_value r)
  match_read-IsMatched value x x1 x2 e1 e2 =
      let same : x2.dispatcher ≡ x.dispatcher =
        sym (ap (λ y. y.1.dispatcher) e2)
        ∙ read_ahead-dispatcher x1
        ∙ sym (ap (λ y. y.1.dispatcher) e1)
        ∙ on_request-dispatcher x in
      let left = x2.dispatcher.config.match_retry_count in
      let r = match_loop dap_index request value left x2 in
      (
        r,
        subst (λ d. IsMatched (call dap_index request 0) value d.config.match_retry_count x2 r) same
            (match_loop-IsMatched dap_index request value left x2),
        rest_of_read value x x1 x2 e1 e2,
      )
