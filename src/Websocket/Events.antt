-- ===== src/Websocket/Events.antt =====
-- The events of the WebSocket, its messages and `ws_send_json`, in main/main.c.
use gtw_jalles_websoket_blue.Prelude.{
  ℕ, ◌+◌, Bool, true, false, not, ◌||◌, Option, none, some, List, [], ◌∷◌, ◌++◌, ℤ, pos, negsuc,
  ltb, leb, ◌==◌, if◌then◌else◌, length,
}
use gtw_jalles_websoket_blue.Http.{Http}
use gtw_jalles_websoket_blue.Websocket.{Ws}

abbrev pub ws_queue_len : ℕ
ws_queue_len = 20

abbrev pub ws_msg_max_len : ℕ
ws_msg_max_len = 512

-- An event: of a text frame its opcode, its bytes, and whether memory could be had for them; of an error
-- the status of the handshake.
pub data WsEvent : Type 0 where
  event_connected event_disconnected : WsEvent
  event_data : ℕ → List ℕ → Bool → WsEvent
  event_error : ℕ → WsEvent
  event_other : WsEvent

abbrev pub is_refused : ℕ → Bool
is_refused status = status == 401 || status == 403

unfoldable pub queue_message : ℕ → List ℕ → Bool → Ws → Ws
queue_message op_code bytes allocated w =
    if not (op_code == 1)
    then w
    else if length bytes == 0 || leb ws_msg_max_len (length bytes)
    then w
    else if not allocated
    then w
    else if ltb (length w.messages) ws_queue_len
    then record w { messages = w.messages ++ bytes ∷ [] }
    else w

-- The token is dropped, the task is to end and be made again, and the login task is notified.
unfoldable pub token_refused : Ws → Ws
token_refused w = record w {
  http = record http {
    token = [];
    token_ok = false;
    login_asked = http.login_asked + (if http.login_task then 1 else 0);
  };
  restart_requested = true;
  stop = true;
}
  where
    http : Http
    http = w.http

unfoldable pub websocket_event_handler : WsEvent → Ws → Ws
websocket_event_handler event_connected w = record w { connectado = true }
websocket_event_handler event_disconnected w = record w { connectado = false }
websocket_event_handler (event_data op_code bytes allocated) w =
    queue_message op_code bytes allocated w
websocket_event_handler (event_error status) w =
    if is_refused status
    then token_refused (record w { connectado = false })
    else record w { connectado = false }
websocket_event_handler event_other w = w

-- `ws_msg_processor_task` takes a message.
unfoldable pub take_message : List (List ℕ) → Ws → Ws × Option (List ℕ)
take_message [] w = (w, none)
take_message (m ∷ rest) w = (record w { messages = rest }, some m)

-- Whether the mutex was taken, the client is connected, and what the send answers. A text is given; the
-- texts that went to the client are the last component.
unfoldable pub ws_send_json : Bool → Bool → (List ℕ → ℤ) → List ℕ → Ws → Bool × List (List ℕ)
ws_send_json lock connected send text w =
    if not lock
    then (false, [])
    else if not w.client
    then (false, [])
    else if not connected
    then (false, [])
    else (sent (send text), text ∷ [])
  where
    sent : ℤ → Bool
    sent (pos n) = true
    sent (negsuc n) = false
