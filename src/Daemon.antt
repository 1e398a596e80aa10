-- ===== src/Daemon.antt =====
-- The rest of src/daemon: the command line, the server's socket, the device state, the signals,
-- and `main`, which puts the parts together.
pub mod CmdLine
pub mod Server
pub mod DeviceState
pub mod Signals
pub mod Catching
pub mod Sockets
pub mod Logging
pub mod Exits
pub mod Main
