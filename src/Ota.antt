-- ===== src/Ota.antt =====
-- The firmware update of main/firmware_ota.c.
pub mod Version
pub mod State
pub mod Ble
pub mod Https
mod Tests
mod StartTests
pub mod Validation
pub mod Boot
pub mod Fetch
