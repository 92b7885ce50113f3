-- ===== src/Bluetooth/Tests.antt =====
-- Runs of the window and of its messages, and the theorems about them at concrete inputs.
use gtw_jalles_websoket_blue.Prelude.{
  ℕ, ◌≡◌, ◌↔◌, refl, true, false, not, ◌&&◌, ◌||◌, Option, none, some, List, [], ◌∷◌, ◌++◌, pos,
  if◌then◌else◌,
}
use gtw_jalles_websoket_blue.Esp.{esp_ok, invalid_state, is_ok}
use gtw_jalles_websoket_blue.Ota.State.{no_session, fresh}
use gtw_jalles_websoket_blue.Ota.Ble.{Finish, firmware_ota_ble_finish}
use gtw_jalles_websoket_blue.Config.{Nvs}
use gtw_jalles_websoket_blue.Bluetooth.State.{idle, App, Ble, has_client, set_status, notify_status}
use gtw_jalles_websoket_blue.Bluetooth.Message.{Json, Answers, Snapshot}
use gtw_jalles_websoket_blue.Bluetooth.Window.{
  Opening, Write, gatt_write, queue_message, refuse, ble_rx_task_round, bluetooth_config_start,
  bluetooth_config_stop, bluetooth_config_is_active, ble_prepare_runtime, open_window,
  deinit_within, set_window_timer,
}
use gtw_jalles_websoket_blue.Bluetooth.Steps.{write, receive, Reach, here, next}
use gtw_jalles_websoket_blue.Bluetooth.Order.{IsOrdered, messages_in_order}
use gtw_jalles_websoket_blue.Bluetooth.Closing.{bluetooth_config_stop_lem}
use gtw_jalles_websoket_blue.Bluetooth.Starting.{bluetooth_config_start_lem}

abbrev app : App
app = record {
  config_mode = false;
  startup_window = true;
  mode_task = false;
  connectado = false;
  stop_websocket = false;
  ota = record {
    initialized = true;
    ota_capable = true;
    current = [];
    target = [];
    state = fresh;
    busy = false;
    ble = no_session;
    flash = [];
    boot_chosen = false;
  };
  config = (
    record {
      wifi_ssid = [];
      wifi_password = [];
      user_name = [];
      user_password = [];
      id_gateway = pos 0;
      device_id = pos 0;
    },
    record { texts = λ k. none; id_gtw = none; id_unidade = none },
  );
  restart_due = false;
}

abbrev at_boot : Ble
at_boot = record {
  conn = none;
  tx_handle = 0;
  stack_started = false;
  window_open = false;
  notify_enabled = false;
  last_status = idle;
  queue_made = false;
  task_made = false;
  timer_made = false;
  rx_queue = [];
  timer = none;
  ports = 0;
  on_air = false;
  adv_tasks = 0;
  stop_tasks = 0;
  notified = [];
  delivered = [];
  app = app;
}

abbrev opening : Opening
opening = record {
  prepare = record { queue = true; task = true; timer = true };
  port = esp_ok;
  gatt = true;
  handle = 3;
  advert = record { fields = true; response = true; started = true };
}

abbrev good_write : Write
good_write = record { copied = true; sent = true; wrote = esp_ok; stored = esp_ok }

abbrev works : Nvs
works = record { opens = true; stores = true }

abbrev shown : Snapshot
shown = record { made = true; printed = true; sent = true }

abbrev finishing : Finish
finishing = record {
  end_result = esp_ok;
  read_result = esp_ok;
  same_project = true;
  boot = esp_ok;
  version = [];
  stored = esp_ok;
}

abbrev answers : Answers
answers = record {
  sent = true;
  begins = record { partition = none; stored = esp_ok; start = esp_ok };
  finishes = finishing;
  stored = esp_ok;
  restart_made = true;
  saves = record { texts = λ k. works; id_gtw = works; id_unidade = works };
  device = shown;
  wifi = shown;
  gateway = shown;
}

abbrev text : List ℕ
text = 123 ∷ 125 ∷ []

abbrev no_parse : List ℕ → Option Json
no_parse message = none

abbrev wrote : Ble
wrote = (gatt_write good_write text at_boot).0

-- Two texts are written and one is taken.
written :
    Reach at_boot
      ((([] ++ (text ∷ [])) ++ (text ∷ [])) ++ [])
      (ble_rx_task_round no_parse answers (gatt_write good_write text wrote).0)
unfolding gatt_write queue_message refuse notify_status set_status ble_rx_task_round
written =
    next (next (next here (write good_write text)) (write good_write text))
      (receive no_parse answers)

messages_in_order_example :
    IsOrdered
      (text ∷ text ∷ [])
      (ble_rx_task_round no_parse answers (gatt_write good_write text wrote).0)
messages_in_order_example =
    messages_in_order at_boot
      (ble_rx_task_round no_parse answers (gatt_write good_write text wrote).0) (text ∷ text ∷ [])
      refl refl written

abbrev opened : Ble
opened = (bluetooth_config_start 0 opening at_boot).0

opened_window : ((opened.window_open || opened.stack_started) ≡ true) × (opened.timer ≡ some 60000)
unfolding bluetooth_config_start ble_prepare_runtime open_window set_window_timer set_status
opened_window = (refl, refl)

bluetooth_config_stop_lem_example :
    ((bluetooth_config_stop (λ i. true) esp_ok opened).window_open ≡ false)
    × (has_client (bluetooth_config_stop (λ i. true) esp_ok opened).conn ≡ false)
    × ((bluetooth_config_stop (λ i. true) esp_ok opened).notify_enabled ≡ false)
    × ((bluetooth_config_stop (λ i. true) esp_ok opened).app.config_mode ≡ false)
    × ((bluetooth_config_stop (λ i. true) esp_ok opened).app.startup_window ≡ false)
    × (bluetooth_config_is_active (bluetooth_config_stop (λ i. true) esp_ok opened)
        ≡ (opened.stack_started && not (deinit_within 10 (λ i. true))))
    × ((firmware_ota_ble_finish finishing
          (bluetooth_config_stop (λ i. true) esp_ok opened).app.ota).1
        ≡ invalid_state)
    × ((bluetooth_config_stop (λ i. true) esp_ok opened).app.ota.boot_chosen
        ≡ opened.app.ota.boot_chosen)
bluetooth_config_stop_lem_example =
    bluetooth_config_stop_lem (λ i. true) esp_ok finishing opened (opened_window.0)

-- The services could not be registered.
abbrev no_gatt : Opening
no_gatt = record opening { gatt = false }

-- The port stays initialised, and the next stop does not give it back.
port_left_over :
    (bluetooth_config_stop (λ i. true) esp_ok (bluetooth_config_start 0 no_gatt at_boot).0).ports
    ≡ 1
unfolding bluetooth_config_start ble_prepare_runtime open_window set_status bluetooth_config_stop
port_left_over = refl

bluetooth_config_start_lem_example :
    (is_ok (bluetooth_config_start 0 no_gatt at_boot).1
      ≡ (is_ok (ble_prepare_runtime no_gatt.prepare at_boot).1 && (false || (true && false))))
    × ((bluetooth_config_start 0 no_gatt at_boot).0.window_open ≡ (
        if is_ok (ble_prepare_runtime no_gatt.prepare at_boot).1
        then is_ok (bluetooth_config_start 0 no_gatt at_boot).1
        else false))
    × (((bluetooth_config_start 0 no_gatt at_boot).0.ports
          ≡ (if (bluetooth_config_start 0 no_gatt at_boot).0.stack_started then 1 else 0))
        ↔ ((is_ok (ble_prepare_runtime no_gatt.prepare at_boot).1 && true && true && true) ≡ false))
bluetooth_config_start_lem_example = bluetooth_config_start_lem 0 no_gatt at_boot refl
