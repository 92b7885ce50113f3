-- ===== src/Bluetooth/Steps.antt =====
-- The calls of main/bluetooth.c in any order, as a step relation that says which texts a step accepts
-- from the client.
use gtw_jalles_websoket_blue.Prelude.{
  ℕ, Bool, Option, List, [], ◌∷◌, ◌++◌, ◌==◌, get_or, if◌then◌else◌,
}
use gtw_jalles_websoket_blue.Esp.{EspErr}
use gtw_jalles_websoket_blue.Bluetooth.State.{Status, Ble, bluetooth_send_message}
use gtw_jalles_websoket_blue.Bluetooth.Message.{
  Json, Answers, ble_config_mode_task, ble_startup_window_task_round,
}
use gtw_jalles_websoket_blue.Bluetooth.Window.{
  Advert, ble_advertise_task, ble_on_sync, GapEvent, gap_event_cb, AttResult, att_ok, Write,
  gatt_write, ble_rx_task_round, ble_window_timeout_cb, Opening, bluetooth_config_start,
  bluetooth_config_stop, ble_stop_task, bluetooth_config_is_active,
}

-- The text that a write puts in the queue: an accepted payload that is not a block of an update.
abbrev pub accepted : List ℕ → AttResult → List (List ℕ)
accepted payload att_ok = if get_or payload 0 0 == 161 then [] else payload ∷ []
accepted payload _ = []

pub data Step (b : Ble) : List (List ℕ) → Ble → Type 0 where
  start : (timeout_ms : ℕ) (o : Opening) → Step b [] (bluetooth_config_start timeout_ms o b).0
  stop : (answers : ℕ → Bool) (stored : EspErr) → Step b [] (bluetooth_config_stop answers stored b)
  stop_task : (answers : ℕ → Bool) (stored : EspErr) → Step b [] (ble_stop_task answers stored b)
  advertise_task : (a : Advert) → Step b [] (ble_advertise_task a b)
  sync : (inferred : Bool) (a : Advert) → Step b [] (ble_on_sync inferred a b)
  event : (made sent : Bool) (e : GapEvent) → Step b [] (gap_event_cb made sent e b)
  write :
      (w : Write) (payload : List ℕ)
      → Step b (accepted payload (gatt_write w payload b).1) (gatt_write w payload b).0
  receive : (parse : List ℕ → Option Json) (a : Answers) → Step b [] (ble_rx_task_round parse a b)
  timeout : (made : Bool) → Step b [] (ble_window_timeout_cb made b)
  send : (sent : Bool) (s : Status) → Step b [] (bluetooth_send_message sent s b)
  mode_task : (running : Bool) → Step b [] (record b { app = ble_config_mode_task running b.app })
  startup_task :
      Step b []
        (record b { app = ble_startup_window_task_round (bluetooth_config_is_active b) b.app })

-- Any number of steps, with the texts accepted in them, in order.
pub data Reach (b : Ble) : List (List ℕ) → Ble → Type 0 where
  here : Reach b [] b
  next :
      {texts more : List (List ℕ)} {c d : Ble}
      → Reach b texts c
      → Step c more d
      → Reach b (texts ++ more) d
