-- ===== src/Bluetooth/Message.antt =====
-- The callbacks of main/main.c that main/bluetooth.c calls. What cJSON finds in a message is an argument.
use gtw_jalles_websoket_blue.Prelude.{
  ℕ, ◌+◌, ◌*◌, ◌^◌, Bool, true, false, not, ◌&&◌, ◌||◌, Option, none, some, List, [], ◌∷◌, length,
  drop, get_or, ltb, leb, ◌==◌, if◌then◌else◌, ℤ, pos, negsuc,
}
use gtw_jalles_websoket_blue.Esp.{EspErr, is_ok}
use gtw_jalles_websoket_blue.Text.{same_text}
use gtw_jalles_websoket_blue.Config.{Saves, set_wifi, set_gateway}
use gtw_jalles_websoket_blue.Ota.State.{Ota}
use gtw_jalles_websoket_blue.Ota.Ble.{
  Begin, Finish, firmware_ota_ble_begin, firmware_ota_ble_write, firmware_ota_ble_finish,
  firmware_ota_ble_abort,
}
use gtw_jalles_websoket_blue.Bluetooth.State.{
  Status, invalid_packet, invalid_json, no_mem, json_print, unknown_command, ids_must_match,
  gtw_config_saved, wifi_config_saved, reset, ota_invalid_size, ota_ready, ota_cancelled, ota_error,
  ota_write_error, ota_complete, config_device, config_wifi, config_gateway, App, Ble,
  bluetooth_send_message,
}

-- `made` says that the task could be created.
unfoldable pub bt_client_connected_callback : (made : Bool) → App → App
bt_client_connected_callback made a = record a {
  config_mode = true;
  startup_window = false;
  mode_task = a.mode_task || made;
}

-- `stored` is the answer of NVS to the state of an update that is given up.
unfoldable pub bt_client_disconnected_callback : EspErr → App → App
bt_client_disconnected_callback stored a = record a {
  ota = firmware_ota_ble_abort stored a.ota;
  config_mode = false;
  startup_window = false;
}

-- A run of `ble_config_mode_task`; `running` says that the task of the WebSocket runs.
unfoldable pub ble_config_mode_task : (running : Bool) → App → App
ble_config_mode_task running a = record a {
  startup_window = false;
  connectado = false;
  stop_websocket = a.stop_websocket || running;
  mode_task = false;
}

-- A round of `ble_startup_window_task`; `active` is `bluetooth_config_is_active`.
unfoldable pub ble_startup_window_task_round : (active : Bool) → App → App
ble_startup_window_task_round active a =
    if a.startup_window && (not active || a.config_mode)
    then record a { startup_window = false }
    else a

-- `ConnectRest` and `ble_ota_restart_task`.
unfoldable pub ask_restart : Ble → Ble
ask_restart b = let a : App = b.app in record b { app = record a { restart_due = true } }

unfoldable pub with_ota : Ota → Ble → Ble
with_ota o b = let a : App = b.app in record b { app = record a { ota = o } }

-- The four bytes behind the first one, the lowest first.
unfoldable pub packet_offset : List ℕ → ℕ
packet_offset packet =
    get_or packet 1 0
    + get_or packet 2 0 * 2 ^ 8
    + get_or packet 3 0 * 2 ^ 16
    + get_or packet 4 0 * 2 ^ 24

-- `esp_ota_write` answers `wrote`.
unfoldable pub bt_binary_received_callback : (sent : Bool) → EspErr → EspErr → List ℕ → Ble → Ble
bt_binary_received_callback sent wrote stored packet b =
    if leb (length packet) 5 || not (get_or packet 0 0 == 161)
    then bluetooth_send_message sent invalid_packet b
    else if is_ok (written.1).0
    then with_ota written.0 b
    else bluetooth_send_message sent (ota_write_error (written.1).0 (packet_offset packet))
        (with_ota written.0 b)
  where
    written : Ota × (EspErr × Option ℕ)
    written = firmware_ota_ble_write (packet_offset packet) (drop 5 packet) wrote stored b.app.ota

-- The answers to one message of `bt_send_config_snapshot`: whether the objects could be made, the text
-- printed, and the notification sent.
pub record Snapshot : Type 0 where
  pub made : Bool
  pub printed : Bool
  pub sent : Bool

unfoldable pub send_snapshot : Snapshot → Status → Ble → Ble
send_snapshot s text b =
    bluetooth_send_message s.sent
      (if not s.made then no_mem else if s.printed then text else json_print) b

unfoldable pub bt_send_config_snapshot : Snapshot → Snapshot → Snapshot → Ble → Ble
bt_send_config_snapshot device wifi gateway b =
    let first = send_snapshot device (config_device b.app.ota.current) b in
    let second =
      send_snapshot wifi (config_wifi (b.app.config.0).wifi_ssid (b.app.config.0).wifi_password)
        first in
    let third =
      send_snapshot gateway
        (config_gateway (b.app.config.0).user_name (b.app.config.0).user_password
          (b.app.config.0).id_gateway (b.app.config.0).device_id)
        second in
    if not device.made then first else if not wifi.made then second else third

-- The fields that are looked up in a message.
pub data Field : Type 0 where
  user_gtw id_user password_field unidade ssid_field size_field : Field

-- A number of cJSON: one whose `valuedouble` is a whole number, or another one.
pub data Number : Type 0 where
  whole : ℤ → Number
  broken : Number

-- What cJSON finds in a message: its fields "type" and "cmd" if they are texts, and its fields that are
-- texts or numbers.
pub record Json : Type 0 where
  pub type_text : Option (List ℕ)
  pub cmd_text : Option (List ℕ)
  pub text : Field → Option (List ℕ)
  pub number : Field → Option Number

-- The answers of the SDK while a message is handled.
pub record Answers : Type 0 where
  pub sent : Bool
  pub begins : Begin
  pub finishes : Finish
  pub stored : EspErr
  pub restart_made : Bool
  pub saves : Saves
  pub device : Snapshot
  pub wifi : Snapshot
  pub gateway : Snapshot

-- The size of an update, if the number is one: whole, positive and of 32 bits.
unfoldable pub update_size : Option Number → Option ℕ
update_size none = none
update_size (some broken) = none
update_size (some (whole (negsuc n))) = none
update_size (some (whole (pos n))) = if ltb 0 n && ltb n (2 ^ 32) then some n else none

unfoldable pub ota_begin_command : Answers → Json → Ble → Ble
ota_begin_command a json b = go (update_size (json.number size_field))
  where
    go : Option ℕ → Ble
    go none = bluetooth_send_message a.sent ota_invalid_size b
    go (some size) =
        let begun = firmware_ota_ble_begin size a.begins b.app.ota in
        bluetooth_send_message a.sent (if is_ok begun.1 then ota_ready else ota_error begun.1)
          (with_ota begun.0 b)

unfoldable pub ota_finish_command : Answers → Ble → Ble
ota_finish_command a b =
    if is_ok finished.1
    then if a.restart_made then ask_restart told else told
    else bluetooth_send_message a.sent (ota_error finished.1) (with_ota finished.0 b)
  where
    finished : Ota × EspErr
    finished = firmware_ota_ble_finish a.finishes b.app.ota

    told : Ble
    told = bluetooth_send_message a.sent (ota_complete finished.0.target) (with_ota finished.0 b)

-- `valueint` of a number that need not be whole only counts if it is, and fits an `int`.
abbrev pub same_ids : Number → Number → Option ℤ
same_ids (whole (pos m)) (whole (pos n)) =
    if ltb 0 m && m == n && ltb m (2 ^ 31) then some (pos m) else none
same_ids _ _ = none

unfoldable pub gtw_config_command : Answers → Json → Ble → Ble
gtw_config_command a json b =
    go (json.text user_gtw) (json.text password_field) (json.number id_user) (json.number unidade)
  where
    saved : List ℕ → List ℕ → Option ℤ → Ble
    saved user password none = bluetooth_send_message a.sent ids_must_match b
    saved user password (some id) =
        let old : App = b.app in
        bluetooth_send_message a.sent gtw_config_saved (record b {
          app = record old { config = set_gateway a.saves user password id old.config };
        })

    go : Option (List ℕ) → Option (List ℕ) → Option Number → Option Number → Ble
    go (some user) (some password) (some m) (some n) = saved user password (same_ids m n)
    go _ _ _ _ = b

unfoldable pub gtw_wifi_command : Answers → Json → Ble → Ble
gtw_wifi_command a json b = go (json.text ssid_field) (json.text password_field)
  where
    go : Option (List ℕ) → Option (List ℕ) → Ble
    go (some ssid) (some password) =
        let old : App = b.app in
        let told = bluetooth_send_message a.sent wifi_config_saved b in
        record told {
          app = record old { config = set_wifi (a.saves.texts) ssid password old.config };
        }
    go _ _ = b

-- "GetConfig".
abbrev pub get_config : List ℕ
get_config = 71 ∷ 101 ∷ 116 ∷ 67 ∷ 111 ∷ 110 ∷ 102 ∷ 105 ∷ 103 ∷ []

-- "BleOtaBegin".
abbrev pub ble_ota_begin : List ℕ
ble_ota_begin = 66 ∷ 108 ∷ 101 ∷ 79 ∷ 116 ∷ 97 ∷ 66 ∷ 101 ∷ 103 ∷ 105 ∷ 110 ∷ []

-- "BleOtaFinish".
abbrev pub ble_ota_finish : List ℕ
ble_ota_finish = 66 ∷ 108 ∷ 101 ∷ 79 ∷ 116 ∷ 97 ∷ 70 ∷ 105 ∷ 110 ∷ 105 ∷ 115 ∷ 104 ∷ []

-- "BleOtaCancel".
abbrev pub ble_ota_cancel : List ℕ
ble_ota_cancel = 66 ∷ 108 ∷ 101 ∷ 79 ∷ 116 ∷ 97 ∷ 67 ∷ 97 ∷ 110 ∷ 99 ∷ 101 ∷ 108 ∷ []

-- "GtwConfig".
abbrev pub gtw_config : List ℕ
gtw_config = 71 ∷ 116 ∷ 119 ∷ 67 ∷ 111 ∷ 110 ∷ 102 ∷ 105 ∷ 103 ∷ []

-- "GtwWifi".
abbrev pub gtw_wifi : List ℕ
gtw_wifi = 71 ∷ 116 ∷ 119 ∷ 87 ∷ 105 ∷ 102 ∷ 105 ∷ []

-- "Reset".
abbrev pub reset_name : List ℕ
reset_name = 82 ∷ 101 ∷ 115 ∷ 101 ∷ 116 ∷ []

unfoldable pub command_of : Option (List ℕ) → Option (List ℕ) → Option (List ℕ)
command_of (some t) c = some t
command_of none c = c

unfoldable pub run_command : Answers → Json → List ℕ → Ble → Ble
run_command a json cmd b =
    if same_text cmd get_config
    then bt_send_config_snapshot a.device a.wifi a.gateway b
    else if same_text cmd ble_ota_begin
    then ota_begin_command a json b
    else if same_text cmd ble_ota_finish
    then ota_finish_command a b
    else if same_text cmd ble_ota_cancel
    then bluetooth_send_message a.sent ota_cancelled
        (with_ota (firmware_ota_ble_abort a.stored b.app.ota) b)
    else if same_text cmd gtw_config
    then gtw_config_command a json b
    else if same_text cmd gtw_wifi
    then gtw_wifi_command a json b
    else if same_text cmd reset_name
    then ask_restart (bluetooth_send_message a.sent reset b)
    else bluetooth_send_message a.sent unknown_command b

-- `parsed` is what `cJSON_Parse` makes of the message.
unfoldable pub bt_message_received_callback : Answers → Option Json → Ble → Ble
bt_message_received_callback a none b = bluetooth_send_message a.sent invalid_json b
bt_message_received_callback a (some json) b = go (command_of json.type_text json.cmd_text)
  where
    go : Option (List ℕ) → Ble
    go none = bluetooth_send_message a.sent unknown_command b
    go (some cmd) = run_command a json cmd b
