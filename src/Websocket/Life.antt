-- ===== src/Websocket/Life.antt =====
-- What the tasks of main/main.c do to the WebSocket, one action at a time, in any order.
use gtw_jalles_websoket_blue.Prelude.{ℕ, Bool, true, false, List, [], ◌∷◌, ltb, if◌then◌else◌}
use gtw_jalles_websoket_blue.Http.{Http}
use gtw_jalles_websoket_blue.Websocket.{
  Ws, Start, Setup, websocket_task_is_running, websocket_is_connected, connect_to_websocket_pass,
}
use gtw_jalles_websoket_blue.Websocket.Events.{WsEvent, websocket_event_handler, take_message}
use gtw_jalles_websoket_blue.Websocket.Login.{
  LoginTry, login_task_try, login_task_stopped, restart_websocket,
}

-- A pass of the task; an event, which the SDK raises only for a client that exists; a login and what
-- follows its wait; a round of the memory task; the request of the Bluetooth window to end; an HTTP
-- request, which may change the token; what `wifi_task` stores in `Connectado`; and the processor of
-- messages.
pub data Action : Type 0 where
  pass : Setup → Bool → Action
  event : WsEvent → Action
  login : LoginTry → Action
  login_resumed : Bool → Start → Action
  memory : ℕ → Bool → Start → Action
  ble_opened : Bool → Action
  requested : Http → Action
  observed : Bool → Bool → Action
  offline : Action
  processed : Action

-- `ble_config_mode_task` up to its wait.
unfoldable pub ask_stop : Bool → Ws → Ws
ask_stop look w =
    if websocket_task_is_running look w
    then record w { connectado = false; stop = true }
    else record w { connectado = false }

unfoldable pub perform : Action → Ws → Ws
perform (pass s connected) w = connect_to_websocket_pass s connected w
perform (event e) w = if ltb 0 w.clients then websocket_event_handler e w else w
perform (login e) w = (login_task_try e w).0
perform (login_resumed look a) w = (login_task_stopped look a w).0
perform (memory boot_cycles look a) w = restart_websocket boot_cycles look a w
perform (ble_opened look) w = ask_stop look w
perform (requested h) w = record w { http = h }
perform (observed lock connected) w = record w {
  connectado = websocket_is_connected lock connected w;
}
perform offline w = record w { connectado = false }
perform processed w = (take_message w.messages w).0

unfoldable pub perform_all : List Action → Ws → Ws
perform_all [] w = w
perform_all (a ∷ actions) w = perform_all actions (perform a w)
