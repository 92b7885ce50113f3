-- ===== src/Gateway.antt =====
-- The gateway's own logic in main/main.c: transactions with the tanks over LoRa.
pub mod Ack
pub mod Receive
pub mod Health
pub mod Silence
pub mod Patch
pub mod Telemetry
mod Tests
