-- ===== src/Server.antt =====
-- service/src/serial_server.cpp and serial_server.hpp: the serial server.
pub mod Address
pub mod Setup
pub mod Ipc
pub mod Stream
pub mod Waits
pub mod Parser
pub mod Frames
pub mod Handlers
pub mod Exchange
