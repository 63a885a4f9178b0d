-- ===== src/Gdb/Session/Running/Connects.antt =====
-- What a connection leaves of the cores that run (boards/rpi_pico/src/bin/gdb_server.rs,
-- `connect_and_halt`).
use rust_dap.Base.{
  ℕ, zero, suc, ◌+◌, ◌-◌, ◌≡◌, refl, Bool, false, List, replicate, if◌then◌else◌, ◌⊎◌, inl, inr, M,
  pure, modify, zoom, index, ◌>>=◌, ◌>>◌,
}
use rust_dap.Transport.{DapTransport}
use rust_dap.Arm.Port.{ArmError}
use rust_dap.Arm.Units.{debug_units_clear}
use rust_dap.Gdb.Family.{Family, set_state}
use rust_dap.Gdb.Session.{connect_detect, forget_core}
use rust_dap.Gdb.Session.Control.{
  RpTarget, set_diag, on_linked, ignored, arm_step, cores, select_core, halt_others, try_connect,
  connect_loop, connect_and_halt,
}
use rust_dap.Base.Quiet.{
  Ends, Ends-bind, IsQuiet, IsQuiet-bind, IsQuiet-pure, IsQuiet-index, IsQuiet-modify, quiet_rules,
}
use rust_dap.Gdb.Session.Running.Stops.{IsRunning, tried-IsQuiet, selected-IsQuiet, ignored-IsQuiet}

module _ {T : Type 0} ⦃t : DapTransport T⦄ (flags : List Bool) where
  set_state-IsQuiet :
      (f : Family → Family) → IsQuiet (IsRunning flags) (on_linked {T = T} (set_state f))
  unfolding modify zoom
  set_state-IsQuiet f = record { quiet = λ s h. h }

  set_diag-IsQuiet :
      (i v : ℕ) → IsQuiet {E = ArmError} (IsRunning {T = T} flags) (modify (set_diag i v))
  set_diag-IsQuiet i v = IsQuiet-modify (set_diag i v) λ x h. h

  noted-IsQuiet :
      (r : ArmError ⊎ ℕ)
      → IsQuiet {E = ArmError}
          (IsRunning {T = T} flags)
          (elim r [ inl e ↦ pure tt | inr dpidr ↦ modify (set_diag 6 dpidr) ])
  noted-IsQuiet (inl e) = IsQuiet-pure tt
  noted-IsQuiet (inr v) = set_diag-IsQuiet 6 v

  try_connect-IsQuiet : (n : ℕ) → IsQuiet (IsRunning flags) (try_connect {T = T} n)
  unfolding try_connect
  try_connect-IsQuiet n = IsQuiet-bind _ _ (search (quiet_rules, ignored-IsQuiet) depth 12) λ _.
      IsQuiet-bind _ _ (set_state-IsQuiet forget_core) λ _.
        IsQuiet-bind _ _ (tried-IsQuiet flags connect_detect) λ connected.
          IsQuiet-bind _ _ (noted-IsQuiet connected)
            λ _. search (quiet_rules, tried-IsQuiet, set_diag-IsQuiet) depth 20

  select_ignored-IsQuiet :
      (core : ℕ) → IsQuiet (IsRunning flags) (ignored (select_core {T = T} core))
  unfolding select_core
  select_ignored-IsQuiet core = ignored-IsQuiet flags _

  halt_others-IsQuiet : (left core : ℕ) → IsQuiet (IsRunning flags) (halt_others {T = T} left core)
  unfolding halt_others
  halt_others-IsQuiet zero core = IsQuiet-pure tt
  halt_others-IsQuiet (suc left) core = IsQuiet-bind _ _ (selected-IsQuiet flags core) λ selected.
      IsQuiet-bind _ _ (search (quiet_rules, ignored-IsQuiet) depth 12)
        λ _. halt_others-IsQuiet left (core + 1)

  settle-IsQuiet :
      (usable : Bool) (n : ℕ) (more : M (RpTarget T) ArmError (Unit {0}))
      → IsQuiet (IsRunning flags) more
      → IsQuiet (IsRunning flags) (
          if usable
          then (do
            modify (set_diag 1 n)
            ignored (arm_step debug_units_clear)
            k ← cores
            halt_others (k - 1) 1
            ignored (select_core 0))
          else more)
  settle-IsQuiet usable n more q =
      search
        (
          quiet_rules, ignored-IsQuiet, set_diag-IsQuiet, halt_others-IsQuiet,
          select_ignored-IsQuiet,
        )
        depth 20

  connect_loop-IsQuiet : (left n : ℕ) → IsQuiet (IsRunning flags) (connect_loop {T = T} left n)
  unfolding connect_loop
  connect_loop-IsQuiet zero n = set_diag-IsQuiet 1 0xdead
  connect_loop-IsQuiet (suc left) n =
      IsQuiet-bind _ _ (try_connect-IsQuiet n)
        λ usable. settle-IsQuiet usable n _ (connect_loop-IsQuiet left (n + 1))

module _ {T : Type 0} ⦃t : DapTransport T⦄ where
  -- connect_and_halt never ends with an error, and no core is noted as running afterwards, whether or
  -- not one of its four attempts reached a target. A panic, which a transport can bring, ends the
  -- program.
  pub connect_and_halt-none :
      (x : RpTarget T) → Ends (λ u x'. x'.running ≡ replicate 2 false) (connect_and_halt x)
  unfolding connect_and_halt modify zoom ◌>>=◌
  connect_and_halt-none x =
      Ends-bind (λ d y. Unit) _ (index x.diag 0) _ x
        ((IsQuiet-index {P = λ y. Unit} x.diag 0).quiet x tt)
        λ count z h. (connect_loop-IsQuiet (replicate 2 false) 4 1).quiet _ refl
