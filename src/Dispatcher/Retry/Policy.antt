-- ===== src/Dispatcher/Retry/Policy.antt =====
-- What the retry loop of a transfer does (rust-dap/src/dispatcher.rs, `transfer_with_retry`).
use rust_dap.Base.{
  ℕ, zero, suc, ◌≤◌, ◌≡◌, refl, sym, ap, subst, Bool, true, false, ◌⊎◌, inl, inr, ==_iff, Result,
  ok, err, panic, M, arith,
}
use rust_dap.CmsisDap.{
  DapError, invalid_command, invalid_dap_info_id, swd_error, internal_error, exceed_retry_count,
  not_supported, dap_transfer_wait,
}
use rust_dap.Transport.{DapTransport}
use rust_dap.Dispatcher.Session.{Dispatcher}
use rust_dap.Dispatcher.Retry.{after_transfer, retry_loop, transfer_once, transfer_with_retry}

-- The answer that is tried again.
abbrev pub IsWait : Result DapError ℕ → Type 0
IsWait r = r ≡ err (swd_error dap_transfer_wait)

module _ {S : Type 0} where
  -- `n` runs of `once` in a row, each answered by WAIT, that lead from a state to another.
  pub data Waits (once : M S DapError ℕ) : ℕ → S → S → Type 0 where
    none_yet : (s : S) → Waits once 0 s s
    waited :
        {n : ℕ} {s s1 s' : S}
        → once s ≡ (err (swd_error dap_transfer_wait), s1)
        → Waits once n s1 s'
        → Waits once (suc n) s s'

  after_transfer-cases :
      (again : M S DapError ℕ) (spent : Bool) (x : Result DapError ℕ × S)
      → ((after_transfer again spent x ≡ x) × ((spent ≡ true) ⊎ ¬ IsWait x.0))
        ⊎ (IsWait x.0 × (spent ≡ false) × (after_transfer again spent x ≡ again x.1))
  unfolding after_transfer
  after_transfer-cases again spent (ok value, s) = inl (refl, inr (ground arith))
  after_transfer-cases again true (err (swd_error e), s) = inl (ground arith, inl refl)
  after_transfer-cases again false (err (swd_error e), s) =
      ground (arith, ==_iff e dap_transfer_wait)
  after_transfer-cases again spent (err invalid_command, s) = inl (refl, inr (ground arith))
  after_transfer-cases again spent (err invalid_dap_info_id, s) = inl (refl, inr (ground arith))
  after_transfer-cases again spent (err internal_error, s) = inl (refl, inr (ground arith))
  after_transfer-cases again spent (err exceed_retry_count, s) = inl (refl, inr (ground arith))
  after_transfer-cases again spent (err not_supported, s) = inl (refl, inr (ground arith))
  after_transfer-cases again spent (panic, s) = inl (refl, inr (ground arith))

  -- `n` answers of WAIT, then a run whose outcome is the result, with `n` at most `bound`, and the
  -- last outcome is another WAIT only when `n` is `bound`.
  abbrev pub IsRetried : M S DapError ℕ → ℕ → S → Result DapError ℕ × S → Type 0
  IsRetried once bound s result =
      (n : ℕ) × (s' : S) × Waits once n s s'
      × (result ≡ once s')
      × (n ≤ bound)
      × ((n ≡ bound) ⊎ ¬ IsWait result.0)

  retry_now :
      (once : M S DapError ℕ) (bound : ℕ) (s : S) (r : Result DapError ℕ × S)
      → r ≡ once s
      → (0 ≡ bound) ⊎ ¬ IsWait (once s).0
      → IsRetried once bound s r
  retry_now once bound s r e h =
      (0, s, none_yet s, e, ground arith, subst (λ x. (0 ≡ bound) ⊎ ¬ IsWait x.0) (sym e) h)

  retry_later :
      (once : M S DapError ℕ) (bound : ℕ) (s : S) (r : Result DapError ℕ × S)
      → IsWait (once s).0
      → IsRetried once bound (once s).1 r
      → IsRetried once (suc bound) s r
  retry_later once bound s r w (n, s', ws, e, le, h) =
      (suc n, s', waited (ap (λ v. (v, (once s).1)) w) ws, e, ground arith, ground arith)

  retry_loop-IsRetried :
      (once : M S DapError ℕ) (left : ℕ) (s : S) → IsRetried once left s (retry_loop once left s)
  unfolding retry_loop
  retry_loop-IsRetried once zero s = elim (after_transfer-cases once true (once s)) [
    | inl (e, h) ↦ retry_now once 0 s _ e (inl refl)
    | inr (w, c, e) ↦ absurd (ground arith)
  ]
  retry_loop-IsRetried once (suc left) s =
      elim (after_transfer-cases (retry_loop once left) false (once s)) [
        | inl (e, h) ↦ retry_now once (suc left) s _ e (ground arith)
        | inr (w, c, e) ↦ retry_later once left s _ w (
            subst (IsRetried once left (once s).1) (sym e)
              (retry_loop-IsRetried once left (once s).1))
      ]

module _ {T : Type 0} ⦃t : DapTransport T⦄ where
  -- A transfer is run again exactly while its answer is WAIT, and at most `retry_count` times more:
  -- the outcome is that of the run after `n` answers of WAIT, for an `n` of at most `retry_count`,
  -- and it is another WAIT only when `n` is `retry_count`.
  pub transfer_with_retry-IsRetried :
      (d : Dispatcher) (dap_index request bits : ℕ) (s : T)
      → IsRetried
          (transfer_once d dap_index request bits)
          d.config.retry_count
          s
          (transfer_with_retry d dap_index request bits s)
  unfolding transfer_with_retry
  transfer_with_retry-IsRetried d dap_index request bits s =
      retry_loop-IsRetried (transfer_once d dap_index request bits) d.config.retry_count s
