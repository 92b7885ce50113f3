-- ===== src/Websocket/Actions.antt =====
-- Every action of the tasks keeps the books of the WebSocket's task.
use gtw_jalles_websoket_blue.Prelude.{
  ℕ, ◌≤◌, ◌≡◌, refl, ap, ◌∙◌, Bool, true, false, not, ◌&&◌, ◌||◌, List, [], ◌∷◌, length,
  length-append, ltb, leb, ◌==◌, if◌then◌else◌, inl, inr, Bool-cases, if-elim, All, All-append,
  arith, subst, sym,
}
use gtw_jalles_websoket_blue.Http.{Http, fazer_login}
use gtw_jalles_websoket_blue.Websocket.{
  Place, ended, connecting, watching, Ws, websocket_task_is_running, websocket_is_connected,
  has_token, Start, websocket_task_start_if_needed, connect_to_websocket_pass,
}
use gtw_jalles_websoket_blue.Websocket.Events.{
  WsEvent, event_connected, event_disconnected, event_data, event_error, event_other, is_refused,
  queue_message, token_refused, websocket_event_handler, take_message,
}
use gtw_jalles_websoket_blue.Websocket.Login.{
  LoginTry, login_done, login_task_try, login_task_stopped, restart_websocket,
}
use gtw_jalles_websoket_blue.Websocket.Life.{
  Action, pass, event, login, login_resumed, memory, ble_opened, requested, observed, offline,
  processed, ask_stop, perform, perform_all,
}
use gtw_jalles_websoket_blue.Websocket.Settled.{
  is_watching, is_running, if_one, IsMessage, IsSettled, IsBare, settle_bare, nothing_left,
}
use gtw_jalles_websoket_blue.Websocket.Passes.{pass_at-IsSettled}

-- Fields that the books look at only for `Connectado`.
IsSettled-record :
    (w : Ws) (http : Http) (connectado stop restart : Bool)
    → (connectado ≡ true → is_watching w.place ≡ true)
    → IsSettled w
    → IsSettled (record w {
      http = http;
      connectado = connectado;
      stop = stop;
      restart_requested = restart;
    })
IsSettled-record w http connectado stop restart seen v = record {
  handle = v.handle;
  client = v.client;
  url = v.url;
  clients = v.clients;
  urls = v.urls;
  tls = v.tls;
  websocket = v.websocket;
  transports = v.transports;
  connected = seen;
  waited = v.waited;
  room = v.room;
  messages = v.messages;
}

never : (b : Bool) → false ≡ true → b ≡ true
never b h = cc

ended_of : (p : Place) → is_running p ≡ false → is_watching p ≡ false
ended_of ended h = refl
ended_of (connecting f) h = cc
ended_of (watching l t) h = cc

abbrev Settles : Ws × Bool → Type 0
Settles x = IsSettled x.0

start-IsSettled :
    (a : Start) (w : Ws) → IsSettled w → IsSettled (websocket_task_start_if_needed a w).0
unfolding websocket_task_start_if_needed
start-IsSettled a w v =
    if-elim Settles (not (has_token w && a.net)) (λ not_ready. v)
      (λ ready.
        if-elim Settles (not a.lock) (λ busy. v)
          (λ locked.
            if-elim Settles w.handle (λ runs. v)
              (λ gone.
                if-elim Settles (not a.created)
                  (λ refused. IsSettled-record w w.http false false w.restart_requested (λ h. cc) v)
                  (λ created. starts (nothing_left w v (ended_of w.place (sym v.handle ∙ gone)))))))
  where
    starts :
        IsBare w
        → IsSettled (record w {
          connectado = false;
          stop = false;
          handle = true;
          restart_requested = false;
          place = connecting 0;
        })
    starts b =
        settle_bare _
          (record {
            client = b.client;
            url = b.url;
            clients = b.clients;
            urls = b.urls;
            tls = b.tls;
            websocket = b.websocket;
            transports = b.transports;
            room = b.room;
            messages = b.messages;
          })
          refl refl refl (omega arith)

login_done-IsSettled : (e : LoginTry) (w : Ws) → IsSettled w → IsSettled (login_done e w).0
unfolding login_done
login_done-IsSettled e w v = elim (Bool-cases (websocket_task_is_running e.look w)) [
  | inl runs ↦ simp runs (IsSettled-record w w.http false true w.restart_requested (λ h. cc) v)
  | inr gone ↦ simp gone (start-IsSettled e.start w v)
]

login_task_try-IsSettled : (e : LoginTry) (w : Ws) → IsSettled w → IsSettled (login_task_try e w).0
unfolding login_task_try
login_task_try-IsSettled e w v =
    let kept =
      λ (h : Http). IsSettled-record w h w.connectado w.stop w.restart_requested v.connected v in
    elim (Bool-cases e.net) [
      | inr off ↦ simp off v
      | inl net ↦ elim (Bool-cases e.lock) [
        | inr busy ↦ simp (net, busy) v
        | inl free ↦ elim (Bool-cases (fazer_login e.parse e.server e.user e.password w.http).1) [
          | inr failed ↦ simp (net, free, failed) (kept _)
          | inl logged ↦ simp (net, free, logged) (login_done-IsSettled e _ (kept _))
        ]
      ]
    ]

login_task_stopped-IsSettled :
    (look : Bool) (a : Start) (w : Ws) → IsSettled w → IsSettled (login_task_stopped look a w).0
unfolding login_task_stopped
login_task_stopped-IsSettled look a w v = elim (Bool-cases (websocket_task_is_running look w)) [
  | inl runs ↦ simp runs v
  | inr gone ↦ simp gone (start-IsSettled a w v)
]

restart_websocket-IsSettled :
    (boot_cycles : ℕ) (look : Bool) (a : Start) (w : Ws)
    → IsSettled w
    → IsSettled (restart_websocket boot_cycles look a w)
unfolding restart_websocket
restart_websocket-IsSettled boot_cycles look a w v =
    if-elim IsSettled
      ((ltb 3 boot_cycles || w.restart_requested)
        && not (websocket_task_is_running look w)
        && (has_token w && a.net))
      (λ wanted. start-IsSettled a w v) (λ not_wanted. v)

ask_stop-IsSettled : (look : Bool) (w : Ws) → IsSettled w → IsSettled (ask_stop look w)
unfolding ask_stop
ask_stop-IsSettled look w v =
    if-elim IsSettled (websocket_task_is_running look w)
      (λ runs. IsSettled-record w w.http false true w.restart_requested (λ h. cc) v)
      (λ gone. IsSettled-record w w.http false w.stop w.restart_requested (λ h. cc) v)

with_messages :
    (w : Ws) (ms : List (List ℕ))
    → length ms ≤ 20
    → All IsMessage ms
    → IsSettled w
    → IsSettled (record w { messages = ms })
with_messages w ms room all v = record {
  handle = v.handle;
  client = v.client;
  url = v.url;
  clients = v.clients;
  urls = v.urls;
  tls = v.tls;
  websocket = v.websocket;
  transports = v.transports;
  connected = v.connected;
  waited = v.waited;
  room = room;
  messages = all;
}

queue_message-IsSettled :
    (op_code : ℕ) (bytes : List ℕ) (allocated : Bool) (w : Ws)
    → IsSettled w
    → IsSettled (queue_message op_code bytes allocated w)
unfolding queue_message
queue_message-IsSettled op_code bytes allocated w v =
    if-elim IsSettled (not (op_code == 1)) (λ no_text. v)
      (λ text.
        if-elim IsSettled (length bytes == 0 || leb 512 (length bytes)) (λ unfit. v)
          (λ fits.
            if-elim IsSettled (not allocated) (λ no_memory. v)
              (λ there.
                if-elim IsSettled (ltb (length w.messages) 20)
                  (λ free.
                    with_messages w _ (ground (arith, length-append w.messages (bytes ∷ [])))
                      (All-append IsMessage w.messages (bytes ∷ []) v.messages (message fits, _)) v)
                  (λ full. v))))
  where
    message : (length bytes == 0 || leb 512 (length bytes)) ≡ false → IsMessage bytes
    message fits = record { some_bytes = ground arith; short = ground arith }

take_message-IsSettled :
    (ms : List (List ℕ)) (w : Ws) → w.messages ≡ ms → IsSettled w → IsSettled (take_message ms w).0
unfolding take_message
take_message-IsSettled [] w e v = v
take_message-IsSettled (m ∷ rest) w e v =
    with_messages w rest (omega (arith, v.room, ap length e)) (subst (All IsMessage) e v.messages).1
      v

websocket_event_handler-IsSettled :
    (e : WsEvent) (w : Ws)
    → is_watching w.place ≡ true
    → IsSettled w
    → IsSettled (websocket_event_handler e w)
unfolding websocket_event_handler token_refused
websocket_event_handler-IsSettled event_connected w at v =
    IsSettled-record w w.http true w.stop w.restart_requested (λ h. at) v
websocket_event_handler-IsSettled event_disconnected w at v =
    IsSettled-record w w.http false w.stop w.restart_requested (λ h. cc) v
websocket_event_handler-IsSettled (event_data op_code bytes allocated) w at v =
    queue_message-IsSettled op_code bytes allocated w v
websocket_event_handler-IsSettled (event_error status) w at v =
    if-elim IsSettled (is_refused status)
      (λ refused. IsSettled-record w _ false true true (λ h. cc) v)
      (λ other. IsSettled-record w w.http false w.stop w.restart_requested (λ h. cc) v)
websocket_event_handler-IsSettled event_other w at v = v

perform-IsSettled : (a : Action) (w : Ws) → IsSettled w → IsSettled (perform a w)
unfolding perform connect_to_websocket_pass websocket_is_connected
perform-IsSettled (pass s connected) w v = pass_at-IsSettled w.place s connected w refl v
perform-IsSettled (event e) w v =
    if-elim IsSettled (ltb 0 w.clients)
      (λ exists.
        websocket_event_handler-IsSettled e w (one_open (is_watching w.place) v.clients exists) v)
      (λ closed. v)
  where
    one_open : (b : Bool) → w.clients ≡ if_one b → ltb 0 w.clients ≡ true → b ≡ true
    one_open true h o = refl
    one_open false h o = ground arith
perform-IsSettled (login e) w v = login_task_try-IsSettled e w v
perform-IsSettled (login_resumed look a) w v = login_task_stopped-IsSettled look a w v
perform-IsSettled (memory boot_cycles look a) w v =
    restart_websocket-IsSettled boot_cycles look a w v
perform-IsSettled (ble_opened look) w v = ask_stop-IsSettled look w v
perform-IsSettled (requested h) w v =
    IsSettled-record w h w.connectado w.stop w.restart_requested v.connected v
perform-IsSettled (observed lock connected) w v =
    IsSettled-record w w.http _ w.stop w.restart_requested (λ h. sym v.client ∙ has_client lock h) v
  where
    has_client :
        (lock : Bool) → (if lock then w.client && connected else false) ≡ true → w.client ≡ true
    has_client lock h = ground arith
perform-IsSettled offline w v =
    IsSettled-record w w.http false w.stop w.restart_requested (λ h. cc) v
perform-IsSettled processed w v = take_message-IsSettled w.messages w refl v

-- Through any actions in any order, whatever the SDK answers: the task has its handle exactly while it
-- runs; in its inner loop there are one client, one address and two transports, and outside of it none,
-- so that nothing leaks; `Connectado` is set only in the inner loop; the task has waited for less than a
-- minute; and at most 20 messages of 1 to 511 bytes wait.
pub perform_all-IsSettled :
    (actions : List Action) (w : Ws) → IsSettled w → IsSettled (perform_all actions w)
unfolding perform_all
perform_all-IsSettled [] w v = v
perform_all-IsSettled (a ∷ actions) w v = perform_all-IsSettled actions _ (perform-IsSettled a w v)
