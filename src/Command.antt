-- ===== src/Command.antt =====
-- The commands that arrive on the WebSocket, in main/main.c: `ws_msg_processor_task`,
-- `handle_bomba_control`, `handle_PingTanque` and `handle_BTOn`, with the transactions, requests and
-- windows that they ask for. What cJSON finds in a text, and what `snprintf` prints of a fraction, are
-- arguments; log lines are left out.
pub mod Fields
pub mod Orders
pub mod Handles
pub mod Pings
mod Tests
use gtw_jalles_websoket_blue.Prelude.{
  ℕ, suc, ◌+◌, ◌-◌, ◌%◌, ◌^◌, Bool, true, false, not, ◌&&◌, ◌||◌, Option, none, some, List, [], ◌∷◌,
  ◌++◌, ℤ, pos, negsuc, length, take, ltb, leb, ◌==◌, if◌then◌else◌,
}
use gtw_jalles_websoket_blue.Text.{same_text, c_string, print_number}
use gtw_jalles_websoket_blue.Esp.{EspErr}
use gtw_jalles_websoket_blue.Config.{same_int}
use gtw_jalles_websoket_blue.Http.{Http, GetExchange, server_get_json}
use gtw_jalles_websoket_blue.Bluetooth.State.{Ble}
use gtw_jalles_websoket_blue.Bluetooth.Window.{Opening, bluetooth_config_start}
use gtw_jalles_websoket_blue.Gateway.Ack.{Gateway, Surroundings, gtw_send_to_tank, gtw_ping_tank}
use gtw_jalles_websoket_blue.Websocket.{Ws}
use gtw_jalles_websoket_blue.Websocket.Events.{take_message, ws_send_json}
use gtw_jalles_websoket_blue.Command.Fields.{
  CommandField, DataObject, Double, Item, Order, WsMessage, above_zero, at_most, between, bomba_id,
  bomba_order, boolean, comando, control_id, control_key, execute_key, flow_key, flow_text,
  from_zero, gtw_id, gtw_tanque, int_of, is_boolean, is_given, is_int, is_number, is_true,
  not_finite, null_item, number, order_of, order_text, other_item, print_int, status_bomba,
  status_key, tanque_id, valid_flow, valid_gtw, valid_id, valid_order, valid_status, vazao, whole,
}

-- An argument of type `uint16_t`.
abbrev pub to_u16 : ℤ → ℕ
to_u16 (pos n) = n % 2 ^ 16
to_u16 (negsuc n) = 2 ^ 16 - 1 - n % 2 ^ 16

-- What a command meets: the route of the server, whether `MutexHTTP` was taken, the server, what cJSON
-- finds as "online" in an answer that it can parse, `%.2f`, and the transaction.
pub record Consult : Type 0 where
  pub route : List ℕ
  pub http_lock : Bool
  pub server : List ℕ → List ℕ → GetExchange
  pub parse_online : List ℕ → Option (Option Item)
  pub print : Double → List ℕ
  pub surroundings : Surroundings

-- /users/gtw/
abbrev pub reading_path : List ℕ
reading_path = 47 ∷ 117 ∷ 115 ∷ 101 ∷ 114 ∷ 115 ∷ 47 ∷ 103 ∷ 116 ∷ 119 ∷ 47 ∷ []

-- What `snprintf` keeps of the address in 96 bytes.
unfoldable pub order_url : List ℕ → ℤ → List ℕ
order_url route tank = take 95 (route ++ (reading_path ++ print_int tank []))

-- The server says that the tank is online.
abbrev pub says_online : Option (Option Item) → Bool
says_online (some (some (boolean b))) = b
says_online _ = false

abbrev pub answer_online : (List ℕ → Option (Option Item)) → ℤ × Option (List ℕ) → Bool
answer_online parse (pos n, some bytes) = n == 1 && says_online (parse (c_string bytes))
answer_online parse _ = false

-- The transaction of a command; its result is only logged.
unfoldable pub send_order : Consult → Order → Gateway → Gateway × Option Bool
send_order c o g =
    if leb 64 (length (order_text c.print o)) then (g, none) else ((sent.0), some sent.1)
  where
    sent : Gateway × Bool
    sent = gtw_send_to_tank (to_u16 o.tank) (order_text c.print o) (to_u16 o.pump) c.surroundings g

-- The tank is asked by radio, unless the server answers that it is online. The last component is the
-- result of the transaction, if there was one.
unfoldable pub obey : Consult → Order → Gateway → Http → Gateway × (Http × Option Bool)
obey c o g h =
    if not c.http_lock
    then ((send_order c o g).0, (h, (send_order c o g).1))
    else if answer_online c.parse_online asked.1
    then (g, (asked.0, none))
    else ((send_order c o g).0, (asked.0, (send_order c o g).1))
  where
    asked : Http × (ℤ × Option (List ℕ))
    asked = server_get_json c.server (some (order_url c.route o.tank)) h

unfoldable pub handle_bomba_control :
    Consult → Option DataObject → Gateway → Http → Gateway × (Http × Option Bool)
handle_bomba_control c none g h = (g, (h, none))
handle_bomba_control c (some d) g h = go (bomba_order g.device_id d)
  where
    go : Option Order → Gateway × (Http × Option Bool)
    go none = (g, (h, none))
    go (some o) = obey c o g h

-- {"type":"ping_result","tankId":
abbrev pub result_head : List ℕ
result_head =
    123 ∷ 34 ∷ 116 ∷ 121 ∷ 112 ∷ 101 ∷ 34 ∷ 58 ∷ 34 ∷ 112 ∷ 105 ∷ 110 ∷ 103 ∷ 95 ∷ 114 ∷ 101 ∷ 115
    ∷ 117 ∷ 108 ∷ 116 ∷ 34 ∷ 44 ∷ 34 ∷ 116 ∷ 97 ∷ 110 ∷ 107 ∷ 73 ∷ 100 ∷ 34 ∷ 58 ∷ []

-- ,"status":"success"}
abbrev pub success_tail : List ℕ
success_tail =
    44 ∷ 34 ∷ 115 ∷ 116 ∷ 97 ∷ 116 ∷ 117 ∷ 115 ∷ 34 ∷ 58 ∷ 34 ∷ 115 ∷ 117 ∷ 99 ∷ 99 ∷ 101 ∷ 115
    ∷ 115 ∷ 34 ∷ 125 ∷ []

-- ,"status":"fail"}
abbrev pub fail_tail : List ℕ
fail_tail =
    44 ∷ 34 ∷ 115 ∷ 116 ∷ 97 ∷ 116 ∷ 117 ∷ 115 ∷ 34 ∷ 58 ∷ 34 ∷ 102 ∷ 97 ∷ 105 ∷ 108 ∷ 34 ∷ 125 ∷ []

unfoldable pub ping_text : ℤ → Bool → List ℕ
ping_text tank ok = result_head ++ print_int tank (if ok then success_tail else fail_tail)

-- The last component holds the result that is reported on the WebSocket.
unfoldable pub handle_ping_tanque :
    Surroundings → Option DataObject → Gateway → Gateway × Option (List ℕ)
handle_ping_tanque e none g = (g, none)
handle_ping_tanque e (some d) g =
    if not (is_number (d.field gtw_tanque) && is_number (d.field control_id))
    then (g, none)
    else if not (same_int (int_of (d.field gtw_tanque)) (pos g.device_id))
    then (g, none)
    else (pinged.0, some (ping_text tank pinged.1))
  where
    tank : ℤ
    tank = int_of (d.field control_id)

    pinged : Gateway × Bool
    pinged = gtw_ping_tank (to_u16 tank) e g

unfoldable pub handle_bt_on : Opening → ℕ → Option DataObject → Ble → Ble × Option EspErr
handle_bt_on o device_id none b = (b, none)
handle_bt_on o device_id (some d) b =
    if not d.is_object
    then (b, none)
    else if not (is_number (d.field control_id))
    then (b, none)
    else if not (same_int (int_of (d.field control_id)) (pos device_id))
    then (b, none)
    else (started.0, some started.1)
  where
    started : Ble × EspErr
    started = bluetooth_config_start 30000 o b

-- ControlerBomba_edit
abbrev pub event_bomba : List ℕ
event_bomba =
    67 ∷ 111 ∷ 110 ∷ 116 ∷ 114 ∷ 111 ∷ 108 ∷ 101 ∷ 114 ∷ 66 ∷ 111 ∷ 109 ∷ 98 ∷ 97 ∷ 95 ∷ 101 ∷ 100
    ∷ 105 ∷ 116 ∷ []

-- PingGtw
abbrev pub event_ping : List ℕ
event_ping = 80 ∷ 105 ∷ 110 ∷ 103 ∷ 71 ∷ 116 ∷ 119 ∷ []

-- BtON_gateway
abbrev pub event_bt : List ℕ
event_bt = 66 ∷ 116 ∷ 79 ∷ 78 ∷ 95 ∷ 103 ∷ 97 ∷ 116 ∷ 101 ∷ 119 ∷ 97 ∷ 121 ∷ []

-- The gateway, Bluetooth and the WebSocket together; `reported` are the texts given to the WebSocket.
pub record Hub : Type 0 where
  pub gateway : Gateway
  pub ble : Ble
  pub ws : Ws
  pub reported : List (List ℕ)

-- What a message meets: the parser, the command, the window, and the send of the result.
pub record Errand : Type 0 where
  pub parse : List ℕ → Option WsMessage
  pub consult : Consult
  pub opening : Opening
  pub lock : Bool
  pub connected : Bool
  pub send : List ℕ → ℤ

unfoldable pub do_bomba : Errand → Option DataObject → Hub → Hub
do_bomba r d x = record x { gateway = done.0; ws = record ws { http = (done.1).0 } }
  where
    ws : Ws
    ws = x.ws

    done : Gateway × (Http × Option Bool)
    done = handle_bomba_control r.consult d x.gateway ws.http

unfoldable pub report : Errand → Option (List ℕ) → Hub → Hub
report r none x = x
report r (some text) x = record x {
  reported = x.reported ++ (ws_send_json r.lock r.connected r.send text x.ws).1;
}

unfoldable pub do_ping : Errand → Option DataObject → Hub → Hub
do_ping r d x = report r done.1 (record x { gateway = done.0 })
  where
    c : Consult
    c = r.consult

    done : Gateway × Option (List ℕ)
    done = handle_ping_tanque c.surroundings d x.gateway

unfoldable pub do_bt : Errand → Option DataObject → Hub → Hub
do_bt r d x = record x { ble = (handle_bt_on r.opening g.device_id d x.ble).0 }
  where
    g : Gateway
    g = x.gateway

-- By the name of the event; the others, "reset_gtw" too, do nothing.
unfoldable pub dispatch : Errand → List ℕ → Option DataObject → Hub → Hub
dispatch r event d x =
    if same_text event event_bomba
    then do_bomba r d x
    else if same_text event event_ping
    then do_ping r d x
    else if same_text event event_bt
    then do_bt r d x
    else x

unfoldable pub process_text : Errand → Option (List ℕ) → Hub → Hub
process_text r none x = x
process_text r (some text) x = go (r.parse text)
  where
    named : Option (List ℕ) → Option DataObject → Hub
    named none d = x
    named (some event) d = dispatch r event d x

    go : Option WsMessage → Hub
    go none = x
    go (some m) = named m.event m.data_object

-- A round of `ws_msg_processor_task`.
unfoldable pub ws_msg_processor_task_round : Errand → Hub → Hub
ws_msg_processor_task_round r x = process_text r taken.1 (record x { ws = taken.0 })
  where
    ws : Ws
    ws = x.ws

    taken : Ws × Option (List ℕ)
    taken = take_message ws.messages ws
