-- ===== src/Bluetooth/State.antt =====
-- The static variables of main/bluetooth.c, those of main/main.c that the callbacks write, and what the
-- client is told.
use gtw_jalles_websoket_blue.Prelude.{
  ℕ, Bool, true, false, not, ◌||◌, Option, none, some, List, [], ◌∷◌, ◌++◌, ℤ, if◌then◌else◌,
}
use gtw_jalles_websoket_blue.Esp.{EspErr}
use gtw_jalles_websoket_blue.Ota.State.{Ota}
use gtw_jalles_websoket_blue.Config.{Globals, Store}

-- The texts that `set_status` stores: those of main/bluetooth.c, then the replies of main/main.c with
-- what is printed into them. The cut at 511 bytes is left out.
pub data Status : Type 0 where
  idle advertising payload_size payload_copy queue_full received closed : Status
  invalid_packet invalid_json no_mem json_print unknown_command ids_must_match : Status
  gtw_config_saved wifi_config_saved reset ota_invalid_size ota_ready ota_cancelled : Status
  ota_error : EspErr → Status
  ota_write_error : EspErr → (offset : ℕ) → Status
  ota_complete : (version : List ℕ) → Status
  config_device : (version : List ℕ) → Status
  config_wifi : (ssid password : List ℕ) → Status
  config_gateway : (user password : List ℕ) (id unidade : ℤ) → Status

-- `ble_config_mode_active`, `ble_startup_window_active`, whether `ble_config_mode_task_handle` is not
-- null, `Connectado`, `stop_websocket_task`, the update in progress, the configuration, and whether a
-- restart was asked for.
pub record App : Type 0 where
  pub config_mode : Bool
  pub startup_window : Bool
  pub mode_task : Bool
  pub connectado : Bool
  pub stop_websocket : Bool
  pub ota : Ota
  pub config : Globals × Store
  pub restart_due : Bool

-- `conn` is `active_conn_handle`, if it is one. `queue_made`, `task_made` and `timer_made` say that the
-- three handles are not null; `rx_queue` is what waits in the queue and `timer` the period of the timer
-- if it runs. A call is one step here, so that `ble_stack_stopping`, which is only set within a call, is
-- left out. What the calls do outside: `ports` counts the NimBLE ports that were initialised and not
-- given back, `on_air` says whether advertising was started and not stopped since, `adv_tasks` and
-- `stop_tasks` count the short tasks that were created and have not run, `notified` are the statuses
-- sent to the client and `delivered` the messages that `ble_rx_task` took.
pub record Ble : Type 0 where
  pub conn : Option ℕ
  pub tx_handle : ℕ
  pub stack_started : Bool
  pub window_open : Bool
  pub notify_enabled : Bool
  pub last_status : Status
  pub queue_made : Bool
  pub task_made : Bool
  pub timer_made : Bool
  pub rx_queue : List (List ℕ)
  pub timer : Option ℕ
  pub ports : ℕ
  pub on_air : Bool
  pub adv_tasks : ℕ
  pub stop_tasks : ℕ
  pub notified : List Status
  pub delivered : List (List ℕ)
  pub app : App

abbrev pub has_client : Option ℕ → Bool
has_client none = false
has_client (some handle) = true

unfoldable pub set_status : Status → Ble → Ble
set_status s b = record b { last_status = s }

-- `sent` says that there was a buffer and that the stack took the notification.
unfoldable pub notify_status : (sent : Bool) → Ble → Ble
notify_status sent b =
    if not b.window_open || not (has_client b.conn) || not b.notify_enabled
    then b
    else if sent
    then record b { notified = b.notified ++ (b.last_status ∷ []) }
    else b

unfoldable pub bluetooth_send_message : (sent : Bool) → Status → Ble → Ble
bluetooth_send_message sent s b = notify_status sent (set_status s b)
