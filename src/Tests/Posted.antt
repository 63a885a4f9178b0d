-- ===== src/Tests/Posted.antt =====
-- Posted reads and matches on a target that answers every transfer with the number of those before it.
use rust_dap.Base.{
  Result, ◌>>=◌, zoom, ℕ, ◌+◌, ◌≡◌, refl, some, [], ◌∷◌, replicate, overwrite, ok, pure, arith,
}
use rust_dap.CmsisDap.{DapError, read_u32, read_or_zero, write_u32, dap_transfer_ok}
use rust_dap.Transport.{DapTransport, ActivePort, unsupported}
use rust_dap.Dispatcher.Session.{Session}
use rust_dap.Dispatcher.Retry.{transfer_with_retry, transfer_once, retry_loop}
use rust_dap.Dispatcher.Transfer.{transfer}
use rust_dap.Dispatcher.Transfer.Pipeline.{write_words}
use rust_dap.Dispatcher.Transfer.Pipeline.Room.{transfer-posted}
use rust_dap.Dispatcher.Transfer.{Xfer, start, call, match_read}
use rust_dap.Dispatcher.Transfer.Match.{IsMatched, without_value, match_read-IsMatched}
use rust_dap.Cursor.{read}
use rust_dap.Tests.Board.{config}

instance abbrev counting : DapTransport ℕ
counting = record {
  capabilities = λ s. 1;
  connect = λ port config. pure ActivePort.swd;
  disconnect = λ config. pure tt;
  swj_sequence = λ config count bits. unsupported;
  swj_pins = λ config output select wait. unsupported;
  swj_clock = λ hertz. unsupported;
  swd_transfer = λ config request bits s. (ok s, s + 1);
  swd_read_bits = λ config count. unsupported;
  swd_write_bits = λ config count bits. unsupported;
  swd_output_enable = λ enable. pure tt;
  jtag_transfer = λ config dap_index request bits. unsupported;
  jtag_sequence = λ config info bits. unsupported;
  jtag_idcode = λ config index. unsupported;
}

abbrev session : Session ℕ
session = record {
  dispatcher = record { config = config; active = some ActivePort.swd };
  transport = 20;
  response = replicate 14 0;
}

abbrev with_mask : Session ℕ
with_mask = record session {
  dispatcher = record session.dispatcher { config = record config { match_mask = 0xff } };
}

transfer-posted_example : transfer (0 ∷ 3 ∷ 3 ∷ 7 ∷ 15 ∷ []) session ≡ (
  ok (5, 14),
  record session {
    transport = 24;
    response = 3 ∷ dap_transfer_ok ∷ 21 ∷ 0 ∷ 0 ∷ 0 ∷ 22 ∷ 0 ∷ 0 ∷ 0 ∷ 23 ∷ 0 ∷ 0 ∷ 0 ∷ [];
  },
)
unfolding transfer_with_retry retry_loop transfer_once write_words write_u32 overwrite
transfer-posted_example =
    transfer-posted 0 3 20 23 (7 ∷ 15 ∷ []) (21 ∷ 22 ∷ []) 21 23 24 session (omega arith)
      (refl, refl, refl) ((refl, refl, refl), ((refl, refl, refl), tt)) refl
      (22, refl, (23, refl, refl)) refl

abbrev matching : Xfer ℕ
matching = start (0 ∷ 1 ∷ 22 ∷ 0 ∷ 0 ∷ 0 ∷ []) 1 with_mask

abbrev behind_value : Xfer ℕ
behind_value = record matching { request = record matching.request { position = 6 } }

-- The value comes with the second read behind the one ahead.
match_read-IsMatched_example :
    (r : Result DapError ℕ × Xfer ℕ) × IsMatched
      (call 0 0x13 0)
      22
      5
      (record behind_value { transport = 21 })
      r
    × (match_read 0 0x13 matching ≡ without_value r)
unfolding ◌>>=◌ pure zoom read_u32 read_or_zero read call transfer_with_retry retry_loop
    transfer_once
match_read-IsMatched_example =
    match_read-IsMatched 0 0x13 22 matching behind_value (record behind_value { transport = 21 })
      refl refl
