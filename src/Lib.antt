-- ===== src/Lib.antt =====
-- A CMSIS-DAP debug adapter: bytes of a USB packet become commands, and commands become levels on
-- the pins of an SWD or JTAG port.
--
-- The parts, and how they interact:
-- - Usb is `CmsisDap` of rust-dap/src/usb.rs. `process` takes a packet from the bus (`UsbBus`, a
--   parameter: the USB stack is not in the repository), runs the commands in it one by one, and
--   sends their answers. Usb/Device has the state and the endpoints, Usb/Process the loop, and
--   Usb/Buffers, Usb/Answers, Usb/Bounds and Usb/Served its theorems.
-- - Dispatcher is `DapDispatcher` of rust-dap/src/dispatcher.rs: one function for each handler, by
--   its name in the source. `Session` is what a handler works on: `&mut self`, the transport and
--   the response slice. Dispatcher/Retry is one transfer with its retries, Dispatcher/Transfer the
--   list of transfers, with Match for the read that waits for a value and Pipeline for posted
--   reads, and Dispatcher/Block the block of them. Dispatcher/Configured says what the
--   configuration keeps, and Dispatcher/Unconnected what happens without a port.
-- - Transport is the configuration and the trait `DapTransport` of rust-dap/src/transport.rs. A
--   method is a step on the transport; the trait is an instance argument.
-- - BitBang is rust-dap/src/bitbang.rs: the protocols on pins (Pins, Swd, Transfer, Jtag, Shift),
--   and the transports that they make (Transports, Combined). The pins (`BidirPin`, `Delay`) are a
--   parameter of the model, as they are of the source; `shift_start` of bitvec is one, too.
-- - Arm is `ArmDebug` of arm-debug/src/lib.rs: a debugger on a transport. Port has the transfers and
--   the access port registers, Memory and Bytes the words and bytes of memory, Connect the ways to
--   connect, Core and Call core control and calls, Units breakpoints and watchpoints, and Nordic
--   what is special to these parts. Arm/Target says what is expected of the target, a Debug Port and
--   a MEM-AP in front of a bus, and Arm/Ram reads the bus as bytes.
-- - Gdb is `RpTarget` of boards/rpi_pico/src/bin/gdb_server.rs, the target of the GDB server: an
--   `ArmDebug` with one of three families of parts. Gdb/Family has their flash (Rp2040, Nordic),
--   Gdb/Session what depends on the family, with Control for connection and reset and Running for
--   what stops and resumes the cores, Gdb/Points breakpoints and watchpoints, Gdb/Access registers
--   and memory, and Gdb/Rtt the stream of RTT. The queues of heapless are a parameter (`Queue`).
-- - Cursor and CmsisDap are the byte cursor and the constants and codecs of rust-dap/src/cursor.rs
--   and rust-dap/src/cmsis_dap.rs.
--
-- A `&mut` method is a function from a state to a result and a state, also after an error
-- (Base/Monad; Base/Hoare and Base/Quiet have a rule for each way to build one). A result is Ok, an
-- error, or a panic: an index or a slice out of range. A `break` from a loop of transfers is an error
-- of the step. Bytes and words are natural numbers; a `u8` or `u32` that can wrap has its modulus
-- written out, and a subtraction that saturates is that of ℕ.
--
-- Loops: `for` and `while` with a count are recursion on the count. The retry loops recurse on the
-- retries that are left. The packet loop of `process` recurses on fuel, one unit for each byte of
-- the packet, and the theorem on `process` says that this is enough. The loops of Arm and Gdb over
-- bytes and words have a unit of fuel for each, and use up one of them at least in a round; a wait
-- has the count of its polls. The search of the bootrom's table has the fuel `table_fuel`, as many
-- entries as the address space holds; behind that it would not end, and the model panics.
--
-- Not modelled: USB descriptors (rust-dap/src/interface.rs), the PIO transports, and the boards. Of
-- the GDB server, the monitor commands, whose work is printed text, the protocol (the gdbstub
-- library) and the loop that drives it. The endpoint callbacks of rust-dap/src/usb.rs only
-- call what is modelled. Time is a parameter of the pins.
pub mod Base
pub mod Cursor
pub mod CmsisDap
pub mod Transport
pub mod Dispatcher
pub mod BitBang
pub mod Arm
pub mod Gdb
pub mod Usb
mod Tests
