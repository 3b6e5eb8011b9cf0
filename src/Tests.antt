-- ===== src/Tests.antt =====
-- Runs on concrete inputs.
mod Samples
mod Host
mod Radio
mod Bursts
mod Thermal
mod Service
mod Transport
mod Links
mod Exchanges
mod Silence
