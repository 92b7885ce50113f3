-- ===== src/Bluetooth/Window.antt =====
-- main/bluetooth.c: the window that it opens and closes, the events of the client, and the messages that
-- the client writes.
use gtw_jalles_websoket_blue.Prelude.{
  ℕ, zero, suc, ◌+◌, ◌-◌, ◌^◌, Bool, true, false, not, ◌&&◌, ◌||◌, Option, none, some, List, [],
  ◌∷◌, ◌++◌, length, get_or, ltb, ◌==◌, if◌then◌else◌,
}
use gtw_jalles_websoket_blue.Esp.{EspErr, esp_ok, esp_fail, no_mem, is_ok}
use gtw_jalles_websoket_blue.Text.{c_string}
use gtw_jalles_websoket_blue.Bluetooth.State.{
  Status, advertising, payload_size, payload_copy, queue_full, received, closed, Ble, has_client,
  set_status, notify_status,
}
use gtw_jalles_websoket_blue.Bluetooth.Message.{
  Json, Answers, bt_client_connected_callback, bt_client_disconnected_callback,
  bt_binary_received_callback, bt_message_received_callback,
}

-- `BLE_RX_MAX_LEN`, `BLE_QUEUE_LEN`, `BLE_DEFAULT_WINDOW_MS`.
abbrev pub rx_max_len : ℕ
rx_max_len = 512

abbrev pub ble_queue_len : ℕ
ble_queue_len = 16

abbrev pub default_window_ms : ℕ
default_window_ms = 60000

-- The answers to `ble_advertise`: to the fields, to those of the scan response, and whether advertising
-- was started or already on.
pub record Advert : Type 0 where
  pub fields : Bool
  pub response : Bool
  pub started : Bool

unfoldable pub ble_advertise : Advert → Ble → Ble
ble_advertise a b = if a.fields && a.response && a.started then record b { on_air = true } else b

-- `made` says that the task could be created.
unfoldable pub ble_advertise_async : (made : Bool) → Ble → Ble
ble_advertise_async made b = if made then record b { adv_tasks = b.adv_tasks + 1 } else b

unfoldable pub ble_stop_async : (made : Bool) → Ble → Ble
ble_stop_async made b = if made then record b { stop_tasks = b.stop_tasks + 1 } else b

unfoldable pub ble_advertise_task : Advert → Ble → Ble
ble_advertise_task a b =
    let done = record b { adv_tasks = b.adv_tasks - 1 } in
    if b.window_open then ble_advertise a done else done

unfoldable pub ble_on_sync : (inferred : Bool) → Advert → Ble → Ble
ble_on_sync inferred a b = if inferred && b.window_open then ble_advertise a b else b

-- The events of the client.
pub data GapEvent : Type 0 where
  connect : (handle : ℕ) → GapEvent
  connect_failed disconnect adv_complete other_event : GapEvent
  subscribe : (attr_handle : ℕ) (cur_notify : Bool) → GapEvent

-- `made` is the answer to the creation of a task and `sent` to a notification.
unfoldable pub gap_event_cb : (made sent : Bool) → GapEvent → Ble → Ble
gap_event_cb made sent (connect handle) b = record b {
  conn = some handle;
  timer = if b.timer_made then none else b.timer;
  app = bt_client_connected_callback made b.app;
}
gap_event_cb made sent connect_failed b =
    let lost = record b { conn = none; notify_enabled = false } in
    if b.window_open then ble_advertise_async made lost else lost
gap_event_cb made sent disconnect b =
    let lost = record b { conn = none; notify_enabled = false } in
    if b.window_open then ble_stop_async made lost else lost
gap_event_cb made sent adv_complete b = if b.window_open then ble_advertise_async made b else b
gap_event_cb made sent (subscribe attr_handle cur_notify) b =
    if attr_handle == b.tx_handle
    then notify_status sent (record b { notify_enabled = cur_notify })
    else b
gap_event_cb made sent other_event b = b

-- What `gatt_access_cb` answers to the client.
pub data AttResult : Type 0 where
  att_ok invalid_attr_value_len unlikely insufficient_res : AttResult

-- A write of `payload`. The answers: whether the bytes could be copied, the notification sent, and those
-- to a block of an update.
pub record Write : Type 0 where
  pub copied : Bool
  pub sent : Bool
  pub wrote : EspErr
  pub stored : EspErr

unfoldable pub refuse : (sent : Bool) → Status → AttResult → Ble → Ble × AttResult
refuse sent s result b = (notify_status sent (set_status s b), result)

-- `xQueueSend` without a wait fails when the queue holds all it can.
unfoldable pub queue_message : (sent : Bool) → List ℕ → Ble → Ble × AttResult
queue_message sent payload b =
    if ltb (length b.rx_queue) ble_queue_len
    then refuse sent received att_ok (record b { rx_queue = b.rx_queue ++ (payload ∷ []) })
    else refuse sent queue_full insufficient_res b

unfoldable pub gatt_write : Write → List ℕ → Ble → Ble × AttResult
gatt_write w payload b =
    if length payload == 0 || ltb rx_max_len (length payload)
    then refuse w.sent payload_size invalid_attr_value_len b
    else if not w.copied
    then refuse w.sent payload_copy unlikely b
    else if get_or payload 0 0 == 161
    then (bt_binary_received_callback w.sent w.wrote w.stored payload b, att_ok)
    else queue_message w.sent payload b

-- A round of `ble_rx_task`, which waits while the queue is empty; `parse` is `cJSON_Parse`.
unfoldable pub ble_rx_task_round : (List ℕ → Option Json) → Answers → Ble → Ble
ble_rx_task_round parse a b = go b.rx_queue
  where
    go : List (List ℕ) → Ble
    go [] = b
    go (msg ∷ rest) =
        bt_message_received_callback a (parse (c_string msg))
          (record b { rx_queue = rest; delivered = b.delivered ++ (msg ∷ []) })

unfoldable pub ble_window_timeout_cb : (made : Bool) → Ble → Ble
ble_window_timeout_cb made b =
    let over = record b { timer = none } in
    if has_client b.conn then over else ble_stop_async made over

-- Whether the queue, the task and the timer could be created.
pub record Prepare : Type 0 where
  pub queue : Bool
  pub task : Bool
  pub timer : Bool

unfoldable pub ble_prepare_runtime : Prepare → Ble → Ble × EspErr
ble_prepare_runtime p b =
    if not b.queue_made && not p.queue
    then (b, no_mem)
    else if not b.task_made && not p.task
    then (record b { queue_made = true }, no_mem)
    else if not b.timer_made && not p.timer
    then (record b { queue_made = true; task_made = true }, no_mem)
    else (record b { queue_made = true; task_made = true; timer_made = true }, esp_ok)

-- The answers to `bluetooth_config_start`: of the preparation, of `nimble_port_init`, whether the
-- services were registered and the handle that the status then has, and of the advertising.
pub record Opening : Type 0 where
  pub prepare : Prepare
  pub port : EspErr
  pub gatt : Bool
  pub handle : ℕ
  pub advert : Advert

-- The timer of the window.
unfoldable pub set_window_timer : ℕ → Ble → Ble
set_window_timer timeout_ms b =
    if timeout_ms == 2 ^ 32 - 1
    then record b { timer = none }
    else record b { timer = some (if timeout_ms == 0 then default_window_ms else timeout_ms) }

-- With the runtime prepared.
unfoldable pub open_window : ℕ → Opening → Ble → Ble × EspErr
open_window timeout_ms o b =
    if b.stack_started
    then (set_window_timer timeout_ms (ble_advertise o.advert opened), esp_ok)
    else if not (is_ok o.port)
    then (record opened { window_open = false }, o.port)
    else if not o.gatt
    then (record opened { window_open = false; ports = b.ports + 1 }, esp_fail)
    else (
      set_window_timer timeout_ms
          (record opened { ports = b.ports + 1; stack_started = true; tx_handle = o.handle }),
      esp_ok,
    )
  where
    opened : Ble
    opened = set_status advertising (record b { window_open = true })

unfoldable pub bluetooth_config_start : ℕ → Opening → Ble → Ble × EspErr
bluetooth_config_start timeout_ms o b =
    if is_ok prepared.1 then open_window timeout_ms o prepared.0 else prepared
  where
    prepared : Ble × EspErr
    prepared = ble_prepare_runtime o.prepare b

-- `nimble_port_deinit` answers ESP_OK to one of at most `tries` calls.
unfoldable pub deinit_within : ℕ → (ℕ → Bool) → Bool
deinit_within zero answers = false
deinit_within (suc tries) answers = answers 0 || deinit_within tries (λ i. answers (suc i))

-- `stored` is the answer of NVS to the state of an update that is given up.
unfoldable pub bluetooth_config_stop : (ℕ → Bool) → EspErr → Ble → Ble
bluetooth_config_stop answers stored b =
    if not b.window_open && not b.stack_started
    then b
    else record (set_status closed stopped) { app = bt_client_disconnected_callback stored b.app }
  where
    shut : Ble
    shut = record b {
      window_open = false;
      notify_enabled = false;
      timer = if b.timer_made then none else b.timer;
      conn = none;
      on_air = false;
    }

    stopped : Ble
    stopped =
        if b.stack_started && deinit_within 10 answers
        then record shut { stack_started = false; tx_handle = 0; ports = b.ports - 1 }
        else shut

unfoldable pub ble_stop_task : (ℕ → Bool) → EspErr → Ble → Ble
ble_stop_task answers stored b =
    let done = bluetooth_config_stop answers stored b in
    record done { stop_tasks = done.stop_tasks - 1 }

unfoldable pub bluetooth_config_is_active : Ble → Bool
bluetooth_config_is_active b = b.window_open || b.stack_started

unfoldable pub bluetooth_init : Opening → Ble → Ble × EspErr
bluetooth_init = bluetooth_config_start default_window_ms
