-- ===== src/Gdb/Rtt.antt =====
-- SEGGER RTT over the GDB server (boards/rpi_pico/src/bin/gdb_server.rs): bytes between ring buffers
-- in the target's memory and the queues of a serial port. What is printed is left out.
pub mod Hex
use rust_dap.Base.{
  ℕ, zero, suc, ◌+◌, ◌-◌, ◌*◌, ◌%◌, ◌^◌, min, Bool, true, false, not, ◌&&◌, ◌||◌, Option, none,
  some, List, [], ◌∷◌, length, take, drop, replicate, leb, ltb, ◌==◌, if◌then◌else◌, M, pure, gets,
  modify, attempt, zoom, ◌⊎◌, inl, inr, ◌>>=◌, ◌>>◌,
}
use rust_dap.Base.Words.{from_le}
use rust_dap.Transport.{DapTransport}
use rust_dap.Arm.Port.{ArmError}
use rust_dap.Arm.Memory.{write_word}
use rust_dap.Arm.Bytes.{filled, read_mem, write_mem}
use rust_dap.Gdb.Family.{minus}
use rust_dap.Gdb.Session.{in_flash_mode}
use rust_dap.Gdb.Session.Control.{RpTarget, arm_step, tried, is_ok}

-- `SEGGER RTT`, with zeros up to 16 bytes
abbrev pub rtt_id : List ℕ
rtt_id =
    0x53 ∷ 0x45 ∷ 0x47 ∷ 0x47 ∷ 0x45 ∷ 0x52 ∷ 0x20 ∷ 0x52 ∷ 0x54 ∷ 0x54 ∷ 0 ∷ 0 ∷ 0 ∷ 0 ∷ 0 ∷ 0 ∷ []

-- `(b as char).to_digit(16)`
abbrev pub hex_digit : ℕ → Option ℕ
hex_digit b =
    if leb 0x30 b && leb b 0x39
    then some (b - 0x30)
    else if leb 0x61 b && leb b 0x66
    then some (b - 0x61 + 10)
    else if leb 0x41 b && leb b 0x46
    then some (b - 0x41 + 10)
    else none

-- `(v << 4) | digit` on u32; the two have no bit in common, so that they are added.
unfoldable pub parse_loop : ℕ → List ℕ → Option ℕ
parse_loop v [] = some v
parse_loop v (b ∷ bs) = elim (hex_digit b) [
  | none ↦ none
  | some digit ↦ parse_loop (v * 16 % 2 ^ 32 + digit) bs
]

-- `s.strip_prefix(b"0x").unwrap_or(s)`
abbrev pub strip_prefix : List ℕ → List ℕ
strip_prefix [] = []
strip_prefix (a ∷ []) = a ∷ []
strip_prefix (a ∷ b ∷ bs) = if a == 0x30 && b == 0x78 then bs else a ∷ b ∷ bs

unfoldable pub parse_hex : List ℕ → Option ℕ
unfolding parse_loop
parse_hex text =
    let s = strip_prefix text in if length s == 0 || ltb 8 (length s) then none else parse_loop 0 s

-- What `rtt_desc` answers.
pub record Descriptor : Type 0 where
  pub name : ℕ
  pub buffer : ℕ
  pub size : ℕ
  pub written : ℕ
  pub read : ℕ

-- A queue of `heapless::spsc`, by its half: the room of the producer, and the bytes of the consumer.
pub record Queue (Q : Type 0) : Type 0 where
  pub room : Q → ℕ
  pub enqueue : ℕ → Q → Q
  pub dequeue : Q → Option (ℕ × Q)

pub record Streaming (T Q : Type 0) : Type 0 where
  pub target : RpTarget T
  pub tx : Q
  pub rx : Q

-- The bytes up to the end of the buffer, or to the writer before it.
abbrev pub run_length : Descriptor → ℕ
run_length d = if ltb d.read d.written then d.written - d.read else d.size - d.read

abbrev pub has_offsets : Descriptor → Bool
has_offsets d = ltb 0 d.size && ltb d.written d.size && ltb d.read d.size

abbrev pub can_read : Descriptor → Bool
can_read d = has_offsets d && not (d.written == d.read)

-- The bytes for which there is room without a wrap, up to 64.
abbrev pub room_down : Descriptor → ℕ
room_down d =
    min (min (minus ((d.read + d.size) % 2 ^ 32) (d.written + 1) % d.size) (d.size - d.written)) 64

-- Addresses are u32.
abbrev pub channel_desc : Bool → ℕ → ℕ → ℕ → ℕ → Option ℕ
channel_desc up cb channel max_up max_down =
    let base = if up then cb + 24 else cb + 24 + 24 * max_up in
    if leb (if up then max_up else max_down) channel
    then none
    else some ((base + 24 * channel) % 2 ^ 32)

-- `.ok().flatten()`
abbrev pub flattened : ArmError ⊎ Option ℕ → Option ℕ
flattened (inl e) = none
flattened (inr o) = o

module _ {Q : Type 0} ⦃q : Queue Q⦄ where
  unfoldable pub push_all : List ℕ → Q → Q
  push_all [] tx = tx
  push_all (b ∷ bs) tx = push_all bs (q.enqueue b tx)

  -- Up to `n` bytes.
  unfoldable pub take_bytes : ℕ → Q → List ℕ × Q
  take_bytes zero rx = ([], rx)
  take_bytes (suc n) rx = elim (q.dequeue rx) [
    | none ↦ ([], rx)
    | some (b, rx') ↦ let (bs, rx'') = take_bytes n rx' in (b ∷ bs, rx'')
  ]

module _ {T : Type 0} ⦃t : DapTransport T⦄ where
  abbrev pub read_bytes : ℕ → ℕ → M (RpTarget T) ArmError (List ℕ)
  read_bytes addr n = arm_step (λ a. filled (read_mem addr (a, replicate n 0)))

  unfoldable pub rtt_desc : ℕ → M (RpTarget T) ArmError Descriptor
  rtt_desc desc = do
    raw ← read_bytes desc 20
    pure (record {
      name = from_le (take 4 raw);
      buffer = from_le (take 4 (drop 4 raw));
      size = from_le (take 4 (drop 8 raw));
      written = from_le (take 4 (drop 12 raw));
      read = from_le (take 4 (drop 16 raw));
    })

  unfoldable pub rtt_channel_desc : Bool → M (RpTarget T) ArmError (Option ℕ)
  rtt_channel_desc up = do
    rtt ← gets (λ (x : RpTarget T). x.rtt)
    elim rtt.cb [
      | none ↦ pure none
      | some cb ↦ do
        counts ← read_bytes ((cb + 16) % 2 ^ 32) 8
        pure (channel_desc up cb rtt.channel (from_le (take 4 counts)) (from_le (drop 4 counts)))
    ]

  unfoldable pub rtt_cache_descs : M (RpTarget T) ArmError (Unit {0})
  rtt_cache_descs = do
    up ← tried (rtt_channel_desc true)
    modify (λ (x : RpTarget T). record x { rtt = record x.rtt { up_desc = flattened up } })
    down ← tried (rtt_channel_desc false)
    modify (λ (x : RpTarget T). record x { rtt = record x.rtt { down_desc = flattened down } })

module _ {T Q : Type 0} ⦃t : DapTransport T⦄ ⦃q : Queue Q⦄ where
  abbrev pub on_target : {A : Type 0} → M (RpTarget T) ArmError A → M (Streaming T Q) ArmError A
  on_target = zoom (λ s. s.target) (λ x s. record s { target = x })

  abbrev pub attempted :
      {A : Type 0} → M (RpTarget T) ArmError A → M (Streaming T Q) ArmError (ArmError ⊎ A)
  attempted m = attempt (on_target m)

  -- The bytes of one run go to the queue, and then RdOff is set behind them.
  unfoldable pub move_up : ℕ → Descriptor → ℕ → M (Streaming T Q) ArmError Bool
  unfolding push_all
  move_up desc d n = do
    chunk ← attempted (read_bytes ((d.buffer + d.read) % 2 ^ 32) n)
    elim chunk [
      | inl e ↦ pure false
      | inr bytes ↦ do
        modify (λ (s : Streaming T Q). record s { tx = push_all bytes s.tx })
        moved ← attempted (arm_step (write_word ((desc + 16) % 2 ^ 32) ((d.read + n) % d.size)))
        pure true
    ]

  unfoldable pub stream_up : M (Streaming T Q) ArmError Bool
  stream_up = do
    desc ← gets (λ (s : Streaming T Q). s.target.rtt.up_desc)
    room ← gets (λ (s : Streaming T Q). q.room s.tx)
    elim desc [
      | none ↦ pure false
      | some desc ↦ if ltb room 64 then pure false else (do
        found ← attempted (rtt_desc desc)
        elim found [
          | inl e ↦ pure false
          | inr d ↦
              if can_read d then move_up desc d (min (min (run_length d) 256) room) else pure false
        ])
    ]

  -- Bytes that were taken from the queue go to the ring, and then WrOff is set behind them.
  unfoldable pub move_down : ℕ → Descriptor → List ℕ → M (Streaming T Q) ArmError Bool
  move_down desc d [] = pure false
  move_down desc d (b ∷ bs) = do
    stored ← attempted (arm_step (write_mem ((d.buffer + d.written) % 2 ^ 32) (b ∷ bs)))
    if is_ok stored
        then (do
          moved ← attempted (
              arm_step (write_word ((desc + 12) % 2 ^ 32) ((d.written + length (b ∷ bs)) % d.size)))
          pure true)
        else pure false

  unfoldable pub dequeued : ℕ → M (Streaming T Q) ArmError (List ℕ)
  unfolding take_bytes
  dequeued n = do
    taken ← gets (λ (s : Streaming T Q). take_bytes n s.rx)
    modify (λ (s : Streaming T Q). record s { rx = taken.1 })
    pure taken.0

  unfoldable pub fill_down : ℕ → M (Streaming T Q) ArmError Bool
  fill_down desc = do
    found ← attempted (rtt_desc desc)
    elim found [
      | inl e ↦ pure false
      | inr d ↦
          if has_offsets d
          then (do bytes ← dequeued (room_down d); move_down desc d bytes)
          else pure false
    ]

  -- `rx.ready()` is that there is a byte.
  unfoldable pub stream_down : M (Streaming T Q) ArmError Bool
  stream_down = do
    desc ← gets (λ (s : Streaming T Q). s.target.rtt.down_desc)
    byte ← gets (λ (s : Streaming T Q). q.dequeue s.rx)
    elim desc [
      | none ↦ pure false
      | some desc ↦ elim byte [ none ↦ pure false | some b ↦ fill_down desc ]
    ]

  unfoldable pub rtt_stream : M (Streaming T Q) ArmError Bool
  rtt_stream = do
    mode ← gets (λ (s : Streaming T Q). in_flash_mode s.target.linked.state)
    if mode then pure false else (do up ← stream_up; down ← stream_down; pure (up || down))
