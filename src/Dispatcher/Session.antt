-- ===== src/Dispatcher/Session.antt =====
-- The dispatcher's state, and what a command handler works on (rust-dap/src/dispatcher.rs).
use rust_dap.Base.{
  ℕ, ◌≤◌, ◌≡◌, Option, none, List, [], ◌∷◌, length, take, drop, shorter, overwrite, if◌then◌else◌,
  M, ok, panic, zoom,
}
use rust_dap.CmsisDap.{DapError}
use rust_dap.Transport.{DapConfig, ActivePort}

pub record Dispatcher : Type 0 where
  pub config : DapConfig
  pub active : Option ActivePort

-- `Dispatcher::new`
abbrev pub new : DapConfig → Dispatcher
new config = record { config = config; active = none }

-- `&mut self`, `transport: &mut T` and `response: &mut [u8]` of a handler.
pub record Session (T : Type 0) : Type 0 where
  pub dispatcher : Dispatcher
  pub transport : T
  pub response : List ℕ

-- Request bytes consumed, response bytes produced.
abbrev pub CommandResult : Type 0 → Type 0
CommandResult T = M (Session T) DapError (ℕ × ℕ)

module _ {T : Type 0} where
  abbrev pub on_transport : {A : Type 0} → M T DapError A → M (Session T) DapError A
  on_transport = zoom (λ s. s.transport) (λ t s. record s { transport = t })

  abbrev pub set_config : DapConfig → Session T → Session T
  set_config c s = record s { dispatcher = record s.dispatcher { config = c } }

  abbrev pub set_active : Option ActivePort → Session T → Session T
  set_active a s = record s { dispatcher = record s.dispatcher { active = a } }

  -- `response[i..i + new.len()].copy_from_slice(new)`
  unfoldable pub put_slice : ℕ → List ℕ → M (Session T) DapError (Unit {0})
  put_slice i new_bytes s =
      if shorter (drop i s.response) (length new_bytes)
      then (panic, s)
      else (ok tt, record s { response = overwrite i new_bytes s.response })

  -- `response[i] = v`
  abbrev pub put : ℕ → ℕ → M (Session T) DapError (Unit {0})
  put i v = put_slice i (v ∷ [])

  -- A call of the transport that fills `response[i..i + n]`.
  unfoldable pub fill_slice :
      ℕ → ℕ → M (T × List ℕ) DapError (Unit {0}) → M (Session T) DapError (Unit {0})
  fill_slice i n m s =
      if shorter (drop i s.response) n
      then (panic, s)
      else let (r, after) = m (s.transport, take n (drop i s.response)) in
        (r, record s { transport = after.0; response = overwrite i after.1 s.response })

-- The response buffer keeps its length.
abbrev pub IsSized : {T : Type 0} → ℕ → Session T → Type 0
IsSized n s = length s.response ≡ n

-- A handler consumes no more than the request, and produces no more than the response buffer
-- holds.
abbrev pub Within : {T : Type 0} → List ℕ → ℕ → ℕ × ℕ → Session T → Type 0
Within request n (consumed, produced) s = (consumed ≤ length request) × (produced ≤ n)
