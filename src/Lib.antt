-- ===== src/Lib.antt =====
-- The gateway of a LoRa network of water tanks, an ESP32 program of the directory main: tanks
-- report levels and pumps over an E32 radio module, and a server reaches them over HTTP and a
-- WebSocket.
--
-- Lora models main/lora.c and the frame of main/config.h with the functions of main/main.c on it.
-- Crc has the checksum, which the source writes out twice (`stream_crc16`, `lora_crc16`). Frame
-- has `lora_app_frame_t`, its layout in memory and what is sent and accepted. Stream has the
-- receive side, a buffer of 512 bytes: `lora_e32_receive_raw` is a loop on fuel, over a clock and
-- a UART driver whose answers are numbered by a tick. Radio has the set-up, the configuration
-- exchange and `lora_e32_send_raw`, whose loop has as much fuel as there are bytes. Link joins
-- both ends.
--
-- Gateway models the part of main/main.c that talks to the tanks. Ack has
-- `gtw_send_frame_wait_ack` and its callers: one task sends and waits while another one receives,
-- so that each attempt carries what the other task does during it. Receive has a round of that
-- other task, `gtw_lora_rx_task`, in the build that controls the tanks, and Telemetry in the
-- other build, with `gtw_send_ack` and the frames that become HTTP requests. Patch has the queue
-- of those requests, with 64 slots, and the loop that sends them. Health has the set-up of the
-- radio and the task that watches it, and Silence that task in the build that receives.
--
-- Ota models main/firmware_ota.c. Boot has `firmware_ota_init`, Version `parse_version` and the
-- comparisons; Ble the update over Bluetooth, with `begin`, `write`, `finish` and `abort` as
-- calls in any order; Https the update over HTTPS with `check_for_update_once` and
-- `ota_check_task`; Fetch the request for the version of an update. Validation has the
-- confirmation of the running image. What an update does to the flash is a state of the model:
-- the bytes written and whether the new partition was chosen to boot.
--
-- Network models main/network_mode.c, the transport of the WebSocket. Websocket models the task
-- that keeps the connection (`connect_to_websocket` of main/main.c), its events, the login task,
-- the memory task, and what starts and stops them: a pass of the task's loop is one step, and the
-- other tasks act between the passes. The SDK's clients, transports and addresses are counted
-- there. Command has `ws_msg_processor_task` and its handlers, with the transactions of Gateway
-- and the requests that they ask for.
--
-- Wifi models main/wifi.c and `wifi_task` of main/main.c, in both builds: in the one without a
-- WebSocket, a round finds it not connected. Driver is the driver with what the SDK holds of it
-- counted, Monitor a round of the task, which ends in a restart at most once.
--
-- Config has the globals of main/config.c, their copies in NVS (main/salvar_nvs.c and the `save_`
-- functions of main/main.c) and what `app_main` loads; Floats the two functions of
-- main/salvar_nvs.c for numbers with a fraction, which nothing calls. AppMain has `app_main`
-- itself, for the build that its role names, with the queues, mutexes and tasks of that build;
-- its wait for a configuration, which has no end in the code, is bounded by `rounds`, and a start
-- that is still waiting then is an outcome of its own. Bluetooth models main/bluetooth.c in
-- Window and Steps, as a step relation over its calls, and in Message the callbacks of
-- main/main.c, whose commands reach Ota and Config. Http models main/http_request.c.
--
-- The SDK's functions (UART, GPIO, timers, semaphores, NVS, JSON) are arguments that give their
-- answers. Delays, the watchdog and log lines are left out. A counter of w bits wraps at 2 ^ w.
--
-- Text has the C library's comparisons of texts, Esp the error codes, Prelude the shared names
-- and lemmas.
--
-- Not modelled: two calls at the same time of main/bluetooth.c, or of what starts and stops the
-- WebSocket: a call, or a pass of a loop, is one step. The state of the WebSocket in Websocket
-- and the two flags of it that Bluetooth uses are separate states of the model. The build files
-- and what the log lines print are left out.
pub mod Prelude
pub mod Lora
pub mod Esp
pub mod Text
pub mod Gateway
pub mod Ota
pub mod Network
pub mod Wifi
pub mod Config
pub mod Bluetooth
pub mod Http
pub mod Websocket
pub mod Command
pub mod AppMain
