-- ===== src/Bluetooth.antt =====
-- The configuration over Bluetooth: main/bluetooth.c and the callbacks of main/main.c that it calls.
pub mod State
pub mod Message
pub mod Window
mod Quiet
mod Steps
mod Still
mod Order
mod Closing
mod Starting
mod Tests
