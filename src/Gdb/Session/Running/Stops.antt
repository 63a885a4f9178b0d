-- ===== src/Gdb/Session/Running/Stops.antt =====
-- What a stop leaves of the cores that run (boards/rpi_pico/src/bin/gdb_server.rs, `poll_stopped`).
use rust_dap.Base.{
  ℕ, zero, suc, ◌+◌, ◌≡◌, refl, Bool, false, Option, none, some, List, replicate, ◌⊎◌, inl, inr,
  Result, M, pure, gets, modify, ◌>>=◌, ◌>>◌,
}
use rust_dap.Base.Quiet.{
  Ends, Ends-bind, IsQuiet, IsQuiet-pure, IsQuiet-gets, IsQuiet-index, IsQuiet-if, IsQuiet-bind,
  IsQuiet-attempt, quiet_rules,
}
use rust_dap.Base.Hoare.{Keeps-zoom}
use rust_dap.Transport.{DapTransport}
use rust_dap.Arm.Port.{ArmError}
use rust_dap.Arm.Units.{HaltReason}
use rust_dap.Gdb.Family.{Family, Linked}
use rust_dap.Gdb.Session.Control.{RpTarget, on_linked, tried, ignored, cores, select_core}
use rust_dap.Gdb.Session.Running.{
  StopReason, halt_loop, halt_running, has_halted, find_halted, stop_reason, break_reason,
  poll_running, poll_stopped,
}

module _ {T : Type 0} ⦃t : DapTransport T⦄ (flags : List Bool) where
  -- Which cores run is as noted.
  abbrev pub IsRunning : RpTarget T → Type 0
  IsRunning x = x.running ≡ flags

  pub tried-IsQuiet :
      {A : Type 0} (m : M (Linked Family T) ArmError A) → IsQuiet IsRunning (tried (on_linked m))
  tried-IsQuiet m = IsQuiet-attempt ArmError IsRunning (on_linked m) (Keeps-zoom _ _ m λ x h. h)

  pub selected-IsQuiet : (core : ℕ) → IsQuiet IsRunning (tried (select_core core))
  unfolding select_core
  selected-IsQuiet core = tried-IsQuiet _

  pub ignored-IsQuiet :
      {A : Type 0} (m : M (Linked Family T) ArmError A) → IsQuiet IsRunning (ignored (on_linked m))
  ignored-IsQuiet m = IsQuiet-bind _ _ (tried-IsQuiet m) λ r. IsQuiet-pure tt

  halt_loop-IsQuiet :
      (except : Option ℕ) (left core : ℕ) → IsQuiet IsRunning (halt_loop except left core)
  unfolding halt_loop
  halt_loop-IsQuiet except zero core = IsQuiet-pure tt
  halt_loop-IsQuiet except (suc left) core = IsQuiet-bind _ _ (IsQuiet-gets _) λ flags.
      IsQuiet-bind _ _ (IsQuiet-index flags core) λ flag.
        IsQuiet-bind _ _ (search (quiet_rules, selected-IsQuiet, ignored-IsQuiet) depth 12)
          λ _. halt_loop-IsQuiet except left (core + 1)

  has_halted-IsQuiet : (core : ℕ) → IsQuiet IsRunning (has_halted core)
  unfolding has_halted
  has_halted-IsQuiet core = search (quiet_rules, selected-IsQuiet, tried-IsQuiet) depth 12

  find_halted-IsQuiet : (left core : ℕ) → IsQuiet IsRunning (find_halted left core)
  unfolding find_halted
  find_halted-IsQuiet zero core = IsQuiet-pure none
  find_halted-IsQuiet (suc left) core =
      IsQuiet-bind _ _ (has_halted-IsQuiet core)
        λ halted. IsQuiet-if halted _ _ (IsQuiet-pure _) (find_halted-IsQuiet left (core + 1))

  break_reason-IsQuiet : (core : ℕ) → IsQuiet IsRunning (break_reason core)
  unfolding break_reason
  break_reason-IsQuiet core = search (quiet_rules, tried-IsQuiet) depth 12

  why-IsQuiet :
      (core : ℕ) (why : ArmError ⊎ HaltReason)
      → IsQuiet {E = ArmError} IsRunning (elim why [
        | inl e ↦ pure (StopReason.sigtrap core)
        | inr (HaltReason.watchpoint addr access) ↦ pure (StopReason.watch core access addr)
        | inr HaltReason.breakpoint ↦ break_reason core
        | inr other ↦ pure (StopReason.sigtrap core)
      ])
  why-IsQuiet core (inl e) = IsQuiet-pure _
  why-IsQuiet core (inr (HaltReason.watchpoint addr access)) = IsQuiet-pure _
  why-IsQuiet core (inr HaltReason.breakpoint) = break_reason-IsQuiet core
  why-IsQuiet core (inr HaltReason.halt_request) = IsQuiet-pure _
  why-IsQuiet core (inr HaltReason.vector_catch) = IsQuiet-pure _
  why-IsQuiet core (inr HaltReason.unknown) = IsQuiet-pure _

  stop_reason-IsQuiet : (core : ℕ) → IsQuiet IsRunning (stop_reason core)
  unfolding stop_reason
  stop_reason-IsQuiet core = search (quiet_rules, tried-IsQuiet, why-IsQuiet) depth 12

module _ {T : Type 0} ⦃t : DapTransport T⦄ where
  -- What a poll answers: no error; a stop, and then no core is noted as running; or none, and then
  -- what is noted is as it was.
  abbrev pub IsPolled : RpTarget T → Result ArmError (Option StopReason) × RpTarget T → Type 0
  IsPolled x r =
      Ends
        (λ answer x'. elim answer [
          | none ↦ x'.running ≡ x.running
          | some why ↦ x'.running ≡ replicate 2 false
        ])
        r

  halt_running-none :
      (except : Option ℕ) (x : RpTarget T)
      → Ends (λ u x'. x'.running ≡ replicate 2 false) (halt_running except x)
  unfolding halt_running gets modify
  halt_running-none except x =
      let P = IsRunning x.running in
      Ends-bind (λ n. P) _ cores _ x refl
        λ n y h.
          Ends-bind (λ u. P) _ (halt_loop except n 0) _ y
            ((halt_loop-IsQuiet x.running except n 0).quiet y h) λ u z k. refl

  -- What follows a halt of all the cores.
  halted-IsPolled :
      (x : RpTarget T) (except : Option ℕ) (core : ℕ)
      (m : M (RpTarget T) ArmError (Option StopReason))
      → ((y : RpTarget T) → y.running ≡ replicate 2 false → IsPolled x (m y))
      → (y : RpTarget T) → IsPolled x ((do halt_running except; ignored (select_core core); m) y)
  unfolding select_core
  halted-IsPolled x except core m h y =
      let P = IsRunning (replicate 2 false) in
      Ends-bind (λ u. P) _ (halt_running except) _ y (halt_running-none except y)
        λ u z k.
          Ends-bind (λ u. P) _ (ignored (select_core core)) _ z
            ((ignored-IsQuiet (replicate 2 false) _).quiet z k) λ u. h

  told-IsPolled :
      (x : RpTarget T) (core : ℕ) (y : RpTarget T)
      → y.running ≡ replicate 2 false
      → IsPolled x ((do why ← stop_reason core; pure (some why)) y)
  unfolding pure
  told-IsPolled x core y h =
      Ends-bind (λ why. IsRunning (replicate 2 false)) _ (stop_reason core) _ y
        ((stop_reason-IsQuiet (replicate 2 false) core).quiet y h) λ why z k. k

  found-IsPolled :
      (x : RpTarget T) (found : Option ℕ) (y : RpTarget T)
      → y.running ≡ x.running
      → IsPolled x (
          (elim found as (λ f. M (RpTarget T) ArmError (Option StopReason)) [
            | none ↦ pure none
            | some core ↦ do
              halt_running (some core)
              ignored (select_core core)
              why ← stop_reason core
              pure (some why)
          ])
            y)
  unfolding pure
  found-IsPolled x none y h = h
  found-IsPolled x (some core) y h = halted-IsPolled x (some core) core _ (told-IsPolled x core) y

  poll_running-IsPolled : (x : RpTarget T) → IsPolled x (poll_running x)
  unfolding poll_running gets
  poll_running-IsPolled x =
      let P = IsRunning x.running in
      Ends-bind (λ n. P) _ cores _ x refl
        λ n y h.
          Ends-bind (λ found. P) _ (find_halted n 0) _ y
            ((find_halted-IsQuiet x.running n 0).quiet y h) (found-IsPolled x)

  stepped-IsPolled :
      (x : RpTarget T) (stepped : Option ℕ)
      → IsPolled x (
          (elim stepped as (λ f. M (RpTarget T) ArmError (Option StopReason)) [
            | none ↦ poll_running
            | some core ↦ do
              modify (λ (x : RpTarget T). record x { stepped = none })
              halt_running none
              ignored (select_core core)
              pure (some (StopReason.sigtrap core))
          ])
            x)
  unfolding pure modify
  stepped-IsPolled x none = poll_running-IsPolled x
  stepped-IsPolled x (some core) =
      Ends-bind (λ u y. Unit) _ (modify (λ (x : RpTarget T). record x { stepped = none })) _ x tt
        λ u y h. halted-IsPolled x none core (pure (some (StopReason.sigtrap core))) (λ z k. k) y

  -- poll_stopped never ends with an error. Where it reports a stop, no core is noted as running
  -- afterwards; and where it reports none, what is noted is as it was. A panic, which a transport can
  -- bring, ends the program.
  pub poll_stopped-IsPolled : (x : RpTarget T) → IsPolled x (poll_stopped x)
  unfolding poll_stopped ◌>>=◌
  poll_stopped-IsPolled x = stepped-IsPolled x x.stepped
