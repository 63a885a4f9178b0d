-- ===== src/Usb/Buffers.antt =====
-- The buffers of the USB class, and postconditions of its steps (rust-dap/src/usb.rs).
use rust_dap.Base.{
  ℕ, ◌≤◌, ◌<◌, ◌≡◌, Option, none, some, List, length, Result, ok, err, panic, M, continue, ◌>>=◌,
}
use rust_dap.Base.Hoare.{Post}
use rust_dap.Usb.Device.{UsbBus, CmsisDap}
use rust_dap.Usb.Process.{Stuck, Reply}

module _ {S A : Type 0} where
  -- A step that ends with `P` and a result with `Q`, or in a panic, but not in an error.
  abbrev pub Done : (S → Type 0) → (A → S → Type 0) → Result Stuck A × S → Type 0
  Done P Q (ok a, s) = P s × Q a s
  Done P Q (err e, s) = ⊥
  Done P Q (panic, s) = Unit

module _ {S A B : Type 0} {P : S → Type 0} where
  Done-continue :
      (P' : S → Type 0) (Q : A → S → Type 0) (R : B → S → Type 0) (x : Result Stuck A × S)
      (f : A → M S Stuck B)
      → Done P Q x
      → ((a : A) (s : S) → P s → Q a s → Done P' R (f a s))
      → Done P' R (continue x f)
  Done-continue P' Q R (ok a, s) f h k = k a s h.0 h.1
  Done-continue P' Q R (err e, s) f h k = absurd h
  Done-continue P' Q R (panic, s) f h k = tt

  -- The rest may end with another claim about the state.
  pub Done-then :
      (P' : S → Type 0) (Q : A → S → Type 0) (R : B → S → Type 0) (m : M S Stuck A)
      (f : A → M S Stuck B) (s : S)
      → Done P Q (m s)
      → ((a : A) (s : S) → P s → Q a s → Done P' R (f a s))
      → Done P' R ((m >>= f) s)
  unfolding ◌>>=◌
  Done-then P' Q R m f s = Done-continue P' Q R (m s) f

  pub Done-bind :
      (Q : A → S → Type 0) (R : B → S → Type 0) (m : M S Stuck A) (f : A → M S Stuck B) (s : S)
      → Done P Q (m s)
      → ((a : A) (s : S) → P s → Q a s → Done P R (f a s))
      → Done P R ((m >>= f) s)
  Done-bind = Done-then P

-- A size that is recorded is within the buffer.
abbrev pub Fits : ℕ → Option ℕ → Type 0
Fits max none = Unit
Fits max (some n) = n ≤ max

-- The buffers keep their length, and the sizes stay within them.
abbrev pub IsBuffered : {B T : Type 0} → ℕ → CmsisDap B T → Type 0
IsBuffered max d =
    (length d.next_in_packet ≡ max)
    × Fits max d.next_in_packet_size
    × (length d.pending_out_packet ≡ max)
    × (d.pending_out_packet_size ≤ max)

-- What the USB stack promises: a read does not change the length of the buffer, and tells no more
-- than fits in it.
pub record IsLawfulBus {B : Type 0} (bus : UsbBus B) : Type 0 where
  pub read_length :
      (b : B) (buffer : List ℕ) → length (bus.read_packet (b, buffer)).1.1 ≡ length buffer
  pub read_fits :
      (b : B) (buffer : List ℕ)
      → Post (λ s. Unit) (λ n s. n ≤ length buffer) (bus.read_packet (b, buffer))

-- The packet of `n` bytes is still there.
abbrev pub IsPending : {B T : Type 0} → ℕ → ℕ → CmsisDap B T → Type 0
IsPending max n d = IsBuffered max d × (d.pending_out_packet_size ≡ n)

-- An answer fills a whole buffer, no more of it is sent than there is, and it takes the packet
-- further than `from`.
abbrev pub Advances : {B T : Type 0} → ℕ → ℕ → Reply → CmsisDap B T → Type 0
Advances max from reply d =
    (length reply.response ≡ max) × (reply.response_size ≤ max) × (from < reply.bytes_processed)
