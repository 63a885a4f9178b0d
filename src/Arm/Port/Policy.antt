-- ===== src/Arm/Port/Policy.antt =====
-- What a register access of `ArmDebug` does about errors (arm-debug/src/lib.rs, `transfer`).
use rust_dap.Base.{
  ℕ, zero, suc, ◌≤◌, ◌≡◌, refl, ◌∙◌, subst, Bool, Bool-cases, true, false, ◌==◌, if◌then◌else◌, ◌⊎◌,
  inl, inr, Result, ok, err, panic, M, arith,
}
use rust_dap.CmsisDap.{
  DapError, invalid_command, invalid_dap_info_id, swd_error, internal_error, exceed_retry_count,
  not_supported, dap_transfer_wait,
}
use rust_dap.Transport.{DapTransport, DapConfig}
use rust_dap.Arm.Port.{
  ArmDebug, ArmError, still_waiting, arm_error, Port, set_transport, access_request,
  clear_sticky_errors, after_access, access_loop, transfer,
}

abbrev pub is_wait : Result DapError ℕ → Bool
is_wait (ok v) = false
is_wait (err (swd_error ack)) = ack == dap_transfer_wait
is_wait (err invalid_command) = false
is_wait (err invalid_dap_info_id) = false
is_wait (err internal_error) = false
is_wait (err exceed_retry_count) = false
is_wait (err not_supported) = false
is_wait panic = false

module _ {T : Type 0} ⦃t : DapTransport T⦄ where
  -- An answer that is passed on: behind an error, the sticky errors are cleared.
  abbrev pub settled : ArmDebug T → Result DapError ℕ × T → Result ArmError ℕ × ArmDebug T
  settled a (ok v, s) = (ok v, set_transport s a)
  settled a (err e, s) = (err (arm_error e), clear_sticky_errors (set_transport s a))
  settled a (panic, s) = (panic, set_transport s a)

  -- `n` answers of WAIT in a row.
  pub data Waits (c : DapConfig) (request bits : ℕ) : ℕ → T → T → Type 0 where
    none_yet : (s : T) → Waits c request bits 0 s s
    waited :
        {n : ℕ} {s s' : T}
        → is_wait (t.swd_transfer c request bits s).0 ≡ true
        → Waits c request bits n (t.swd_transfer c request bits s).1 s'
        → Waits c request bits (suc n) s s'

  -- `n` answers of WAIT, with `n` at most `bound`, and then an answer that is passed on, where it is
  -- no WAIT, and that ends the access, where it is another.
  abbrev pub IsAccess : ℕ → ℕ → ℕ → ArmDebug T → Result ArmError ℕ × ArmDebug T → Type 0
  IsAccess request bits bound a result =
      (n : ℕ) × (s : T) × Waits a.config request bits n a.transport s
      × (n ≤ bound)
      × (((is_wait (t.swd_transfer a.config request bits s).0 ≡ false)
            × (result ≡ settled a (t.swd_transfer a.config request bits s)))
          ⊎ ((is_wait (t.swd_transfer a.config request bits s).0 ≡ true)
              × (n ≡ bound)
              × (result ≡ (
                err still_waiting,
                set_transport (t.swd_transfer a.config request bits s).1 a,
              ))))

  after_access-is_wait :
      (again : M (ArmDebug T) ArmError ℕ) (spent : Bool) (a : ArmDebug T)
      (x : Result DapError ℕ × T)
      → after_access again spent a x ≡ (
          if is_wait x.0
          then (if spent
              then (err still_waiting, set_transport x.1 a)
              else again (set_transport x.1 a))
          else settled a x)
  unfolding after_access
  after_access-is_wait again spent a (ok v, s) = refl
  after_access-is_wait again spent a (err (swd_error ack), s) = ground arith
  after_access-is_wait again spent a (err invalid_command, s) = refl
  after_access-is_wait again spent a (err invalid_dap_info_id, s) = refl
  after_access-is_wait again spent a (err internal_error, s) = refl
  after_access-is_wait again spent a (err exceed_retry_count, s) = refl
  after_access-is_wait again spent a (err not_supported, s) = refl
  after_access-is_wait again spent a (panic, s) = refl

  settled-set_transport :
      (s : T) (a : ArmDebug T) (x : Result DapError ℕ × T)
      → settled (set_transport s a) x ≡ settled a x
  settled-set_transport s a (ok v, s') = refl
  settled-set_transport s a (err e, s') = refl
  settled-set_transport s a (panic, s') = refl

module _ {T : Type 0} ⦃t : DapTransport T⦄ (request bits : ℕ) where
  is_wait-IsAccess :
      (bound : ℕ) (a : ArmDebug T) (r : Result ArmError ℕ × ArmDebug T)
      → is_wait (t.swd_transfer a.config request bits a.transport).0 ≡ true
      → IsAccess request bits bound
          (set_transport (t.swd_transfer a.config request bits a.transport).1 a)
          r
      → IsAccess request bits (suc bound) a r
  is_wait-IsAccess bound a r w (n, s, ws, le, inl (h, e)) =
      let s1 = (t.swd_transfer a.config request bits a.transport).1 in
      (
        suc n,
        s,
        waited w ws,
        omega (arith, le),
        inl (h, e ∙ settled-set_transport s1 a (t.swd_transfer a.config request bits s)),
      )
  is_wait-IsAccess bound a r w (n, s, ws, le, inr (h, e, last)) =
      (suc n, s, waited w ws, omega (arith, le), inr (h, omega (arith, e), last))

  access_loop-IsAccess :
      (left : ℕ) (a : ArmDebug T) → IsAccess request bits left a (access_loop request bits left a)
  unfolding access_loop
  access_loop-IsAccess zero a =
      let x = t.swd_transfer a.config request bits a.transport in
      let e = after_access-is_wait (λ b. (panic, b)) true a x in
      elim (Bool-cases (is_wait x.0)) [
        | inl h ↦
            (0, a.transport, none_yet a.transport, omega arith, inr (h, refl, ground (arith, e, h)))
        | inr h ↦ (0, a.transport, none_yet a.transport, omega arith, inl (h, ground (arith, e, h)))
      ]
  access_loop-IsAccess (suc left) a =
      let x = t.swd_transfer a.config request bits a.transport in
      let e = after_access-is_wait (access_loop request bits left) false a x in
      let a1 = set_transport x.1 a in
      elim (Bool-cases (is_wait x.0)) [
        | inl h ↦ is_wait-IsAccess left a _ h (
            subst (IsAccess request bits left a1) (ground (arith, e, h))
              (access_loop-IsAccess left a1))
        | inr h ↦ (0, a.transport, none_yet a.transport, omega arith, inl (h, ground (arith, e, h)))
      ]

module _ {T : Type 0} ⦃t : DapTransport T⦄ where
  -- A register access is made again exactly while its answer is WAIT, and at most `retries` times
  -- more. An answer of Ok is passed on; an error other than WAIT is passed on, and behind it the
  -- sticky errors are cleared; and a WAIT that the retries do not outlast is an error of its own.
  pub transfer-IsAccess :
      (port : Port) (rnw : Bool) (addr bits : ℕ) (a : ArmDebug T)
      → IsAccess (access_request port rnw addr) bits a.retries a (transfer port rnw addr bits a)
  unfolding transfer
  transfer-IsAccess port rnw addr bits a =
      access_loop-IsAccess (access_request port rnw addr) bits a.retries a
