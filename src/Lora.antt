-- ===== src/Lora.antt =====
-- The E32 radio: main/lora.c and the frame format of main/config.h.
pub mod Crc
pub mod Frame
pub mod Stream
pub mod Link
mod Tests
pub mod Radio
