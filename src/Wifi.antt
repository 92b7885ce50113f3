-- ===== src/Wifi.antt =====
-- The connection to the WiFi network: Driver is main/wifi.c, Monitor is `wifi_task` of main/main.c,
-- which watches the driver every five seconds.
mod Driver
pub mod Monitor
mod Tests
