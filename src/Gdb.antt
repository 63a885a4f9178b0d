-- ===== src/Gdb.antt =====
-- The GDB server (boards/rpi_pico/src/bin/gdb_server.rs), built for all the families of targets and
-- with their detection (the features gdb-target-auto, -rp2040, -nrf52 and -nrf54).
pub mod Family
pub mod Session
pub mod Points
pub mod Access
pub mod Rtt
