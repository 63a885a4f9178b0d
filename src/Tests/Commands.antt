-- ===== src/Tests/Commands.antt =====
-- The laws of the commands and of the packet loop at concrete inputs.
use rust_dap.Base.{
  ℕ, ◌+◌, ◌≤◌, ◌<◌, ◌≡◌, ◌⊎◌, refl, true, false, some, List, [], ◌∷◌, length, take, replicate, ok,
  err, arith,
}
use rust_dap.Base.Hoare.{Post}
use rust_dap.Cursor.{BufferCursor, new_with_position, write, read, insufficient_buffer}
use rust_dap.Cursor.Laws.{write-read}
use rust_dap.CmsisDap.{DapCommandId}
use rust_dap.Transport.{ActivePort}
use rust_dap.Dispatcher.Session.{Session, Dispatcher, IsSized, Within}
use rust_dap.Dispatcher.Retry.{transfer_once, transfer_with_retry}
use rust_dap.Dispatcher.Retry.Policy.{IsRetried, transfer_with_retry-IsRetried}
use rust_dap.Dispatcher.Execute.{execute}
use rust_dap.Dispatcher.Execute.Bounds.{execute-Within}
use rust_dap.BitBang.Swd.{SwdBits}
use rust_dap.BitBang.Transports.{swd_transport}
use rust_dap.BitBang.Lawful.{swd_transport-IsLawful}
use rust_dap.Usb.Device.{CmsisDap, new}
use rust_dap.Tests.Board.{Board, board_pins, config, with_levels, Host, host_bus}

abbrev connected : Dispatcher
connected = record { config = config; active = some ActivePort.swd }

-- The target answers WAIT, and then OK.
abbrev waiting : SwdBits Board
waiting = with_levels (false ∷ true ∷ false ∷ true ∷ false ∷ false ∷ [])

abbrev session : Session (SwdBits Board)
session = record { dispatcher = connected; transport = waiting; response = replicate 7 0 }

abbrev dp_write : List ℕ
dp_write = 0 ∷ 1 ∷ 0 ∷ 0x1e ∷ 0 ∷ 0 ∷ 0 ∷ []

execute-Within_example :
    Post (IsSized 7) (Within dp_write 7) (execute 64 DapCommandId.transfer dp_write session)
execute-Within_example =
    execute-Within swd_transport-IsLawful 64 DapCommandId.transfer dp_write 7 session refl

transfer_with_retry-IsRetried_example :
    IsRetried
      (transfer_once connected 0 0 0x1e)
      5
      waiting
      (transfer_with_retry connected 0 0 0x1e waiting)
transfer_with_retry-IsRetried_example = transfer_with_retry-IsRetried connected 0 0 0x1e waiting

abbrev device : CmsisDap Host (SwdBits Board)
device =
    new 8 (record { incoming = (0 ∷ 0xf0 ∷ 1 ∷ 0 ∷ 1 ∷ []) ∷ []; outgoing = [] }) (with_levels [])
      config

abbrev cursor : BufferCursor
cursor = new_with_position (0 ∷ 0 ∷ 0 ∷ []) 1

write-read_example :
    let (r, c') = write (7 ∷ 8 ∷ []) cursor in
    ((r ≡ ok tt)
      × (1 + 2 ≤ 3)
      × (read 2 (new_with_position c'.buffer 1) ≡ (ok (7 ∷ 8 ∷ []), c'))
      × (take 1 c'.buffer ≡ take 1 (0 ∷ 0 ∷ 0 ∷ []))
      × (length c'.buffer ≡ 3))
    ⊎ ((r ≡ err insufficient_buffer) × (3 < 1 + 2) × (c' ≡ cursor))
write-read_example = write-read (7 ∷ 8 ∷ []) cursor (omega arith)
