-- ===== src/Worker.antt =====
-- service/src/radio_worker.cpp and radio_worker.hpp: the radio worker.
pub mod State
pub mod Calls
pub mod Control
pub mod Transmit
pub mod Thermal
pub mod Receive
pub mod Sleep
