-- ===== src/Websocket/Request.antt =====
-- What the actions do with a request for a new task, and when they make a client.
use gtw_jalles_websoket_blue.Prelude.{
  ℕ, ◌+◌, ◌%◌, ◌^◌, ◌≡◌, refl, ◌∙◌, Bool, true, false, not, ◌&&◌, ◌||◌, List, [], ◌∷◌, length, ltb,
  leb, ◌==◌, inl, inr, ◌⊎◌, Bool-cases, if-elim, sym,
}
use gtw_jalles_websoket_blue.Esp.{is_ok}
use gtw_jalles_websoket_blue.Http.{fazer_login}
use gtw_jalles_websoket_blue.Network.{gtw_websocket_transport_init}
use gtw_jalles_websoket_blue.Websocket.{
  Place, ended, connecting, watching, Ws, websocket_task_is_running, has_token, Start,
  websocket_task_start_if_needed, websocket_wait_before_setup_retry, finish, retry_or_finish,
  setup_failed, Setup, open_client, connect_pass, close_client, watch_pass, pass_at,
  connect_to_websocket_pass,
}
use gtw_jalles_websoket_blue.Websocket.Events.{
  WsEvent, event_connected, event_disconnected, event_data, event_error, event_other, is_refused,
  queue_message, token_refused, websocket_event_handler, take_message,
}
use gtw_jalles_websoket_blue.Websocket.Login.{
  LoginTry, login_done, login_task_try, login_task_stopped, restart_websocket,
}
use gtw_jalles_websoket_blue.Websocket.Life.{
  Action, pass, event, login, login_resumed, memory, ble_opened, requested, observed, offline,
  processed, ask_stop, perform,
}

-- A request for a new task stands, unless the task is made.
pub record KeepsRequest (w u : Ws) : Type 0 where
  pub kept : (u.restart_requested ≡ true) ⊎ ((w.handle ≡ false) × (u.handle ≡ true))

stands : (w u : Ws) → u.restart_requested ≡ true → KeepsRequest w u
stands w u h = record { kept = inl h }

setup_failed-stands :
    (w u : Ws) (failure_ms : ℕ)
    → u.restart_requested ≡ true
    → KeepsRequest w (setup_failed failure_ms u)
unfolding setup_failed websocket_wait_before_setup_retry retry_or_finish finish
setup_failed-stands w u failure_ms h = elim (Bool-cases u.stop) [
  | inl stopped ↦ simp stopped (stands w _ h)
  | inr going ↦ elim (Bool-cases (leb 60000 ((failure_ms + 5000) % 2 ^ 32))) [
    | inl late ↦ simp (going, late) (stands w _ refl)
    | inr soon ↦ simp (going, soon) (stands w _ h)
  ]
]

pass_at-stands :
    (p : Place) (s : Setup) (connected : Bool) (w : Ws)
    → w.restart_requested ≡ true
    → KeepsRequest w (pass_at p s connected w)
unfolding pass_at connect_pass watch_pass open_client close_client finish
pass_at-stands ended s connected w h = stands w w h
pass_at-stands (connecting failure_ms) s connected w h =
    if-elim (KeepsRequest w) w.stop (λ stopped. stands w _ h)
      (λ going.
        if-elim (KeepsRequest w) (not (has_token w && s.net)) (λ not_ready. stands w _ h)
          (λ ready.
            if-elim (KeepsRequest w) (not s.copied)
              (λ no_memory. setup_failed-stands w _ failure_ms h)
              (λ copied.
                if-elim (KeepsRequest w)
                  (not (is_ok (gtw_websocket_transport_init s.making w.transport).1))
                  (λ bad. setup_failed-stands w _ failure_ms h)
                  (λ good.
                    if-elim (KeepsRequest w) (not s.client_made)
                      (λ no_client. setup_failed-stands w _ failure_ms h)
                      (λ made.
                        if-elim (KeepsRequest w) (not (is_ok s.registered))
                          (λ deaf. setup_failed-stands w _ failure_ms h)
                          (λ hears.
                            if-elim (KeepsRequest w) (not (is_ok s.started))
                              (λ still. setup_failed-stands w _ failure_ms h)
                              (λ starts. stands w _ h)))))))
pass_at-stands (watching log_ms total_ms) s connected w h =
    if-elim (KeepsRequest w) w.stop (λ stopped. stands w _ h)
      (λ going.
        if-elim (KeepsRequest w) connected (λ up. stands w _ h)
          (λ down.
            if-elim (KeepsRequest w) (leb 60000 (total_ms + 1000)) (λ late. stands w _ refl)
              (λ soon. stands w _ h)))

abbrev Keeps : Ws → Ws × Bool → Type 0
Keeps w x = KeepsRequest w x.0

start-stands :
    (a : Start) (w u : Ws)
    → u.restart_requested ≡ true
    → u.handle ≡ w.handle
    → KeepsRequest w (websocket_task_start_if_needed a u).0
unfolding websocket_task_start_if_needed
start-stands a w u h same =
    if-elim (Keeps w) (not (has_token u && a.net)) (λ not_ready. stands w _ h)
      (λ ready.
        if-elim (Keeps w) (not a.lock) (λ busy. stands w _ h)
          (λ free.
            if-elim (Keeps w) u.handle (λ runs. stands w _ h)
              (λ gone.
                if-elim (Keeps w) (not a.created) (λ refused. stands w _ h)
                  (λ new. record { kept = inr (sym same ∙ gone, refl) }))))

login-stands :
    (e : LoginTry) (w : Ws) → w.restart_requested ≡ true → KeepsRequest w (login_task_try e w).0
unfolding login_task_try login_done
login-stands e w h = elim (Bool-cases e.net) [
  | inr off ↦ simp off (stands w _ h)
  | inl net ↦ elim (Bool-cases e.lock) [
    | inr busy ↦ simp (net, busy) (stands w _ h)
    | inl free ↦ elim (Bool-cases (fazer_login e.parse e.server e.user e.password w.http).1) [
      | inr failed ↦ simp (net, free, failed) (stands w _ h)
      | inl logged ↦
          elim (Bool-cases (
            websocket_task_is_running e.look (record w {
              http = record (fazer_login e.parse e.server e.user e.password w.http).0 {
                token_ok = true;
              };
            }))) [
              | inl runs ↦ simp (net, free, logged, runs) (stands w _ h)
              | inr gone ↦ simp (net, free, logged, gone) (start-stands e.start w _ h refl)
            ]
    ]
  ]
]

queue_message-stands :
    (op_code : ℕ) (bytes : List ℕ) (allocated : Bool) (w : Ws)
    → w.restart_requested ≡ true
    → KeepsRequest w (queue_message op_code bytes allocated w)
unfolding queue_message
queue_message-stands op_code bytes allocated w h =
    if-elim (KeepsRequest w) (not (op_code == 1)) (λ no_text. stands w _ h)
      (λ text.
        if-elim (KeepsRequest w) (length bytes == 0 || leb 512 (length bytes))
          (λ unfit. stands w _ h)
          (λ fits.
            if-elim (KeepsRequest w) (not allocated) (λ no_memory. stands w _ h)
              (λ there.
                if-elim (KeepsRequest w) (ltb (length w.messages) 20) (λ free. stands w _ h)
                  (λ full. stands w _ h))))

event-stands :
    (e : WsEvent) (w : Ws)
    → w.restart_requested ≡ true
    → KeepsRequest w (websocket_event_handler e w)
unfolding websocket_event_handler token_refused
event-stands event_connected w h = stands w _ h
event-stands event_disconnected w h = stands w _ h
event-stands (event_data op_code bytes allocated) w h =
    queue_message-stands op_code bytes allocated w h
event-stands (event_error status) w h =
    if-elim (KeepsRequest w) (is_refused status) (λ refused. stands w _ refl)
      (λ other. stands w _ h)
event-stands event_other w h = stands w _ h

take_message-stands :
    (ms : List (List ℕ)) (w : Ws)
    → w.restart_requested ≡ true
    → KeepsRequest w (take_message ms w).0
unfolding take_message
take_message-stands [] w h = stands w _ h
take_message-stands (m ∷ rest) w h = stands w _ h

resumed-stands :
    (look : Bool) (a : Start) (w : Ws)
    → w.restart_requested ≡ true
    → KeepsRequest w (login_task_stopped look a w).0
unfolding login_task_stopped
resumed-stands look a w h = elim (Bool-cases (websocket_task_is_running look w)) [
  | inl runs ↦ simp runs (stands w _ h)
  | inr gone ↦ simp gone (start-stands a w w h refl)
]

-- A request for a new task stays set through every action, whatever the SDK answers, until an action
-- makes a task where there was none.
pub perform-KeepsRequest :
    (a : Action) (w : Ws) → w.restart_requested ≡ true → KeepsRequest w (perform a w)
unfolding perform connect_to_websocket_pass login_task_stopped restart_websocket ask_stop
perform-KeepsRequest (pass s connected) w h = pass_at-stands w.place s connected w h
perform-KeepsRequest (event e) w h =
    if-elim (KeepsRequest w) (ltb 0 w.clients) (λ exists. event-stands e w h)
      (λ closed. stands w _ h)
perform-KeepsRequest (login e) w h = login-stands e w h
perform-KeepsRequest (login_resumed look a) w h = resumed-stands look a w h
perform-KeepsRequest (memory boot_cycles look a) w h =
    if-elim (KeepsRequest w)
      ((ltb 3 boot_cycles || w.restart_requested)
        && not (websocket_task_is_running look w)
        && (has_token w && a.net))
      (λ wanted. start-stands a w w h refl) (λ not_wanted. stands w _ h)
perform-KeepsRequest (ble_opened look) w h =
    if-elim (KeepsRequest w) (websocket_task_is_running look w) (λ runs. stands w _ h)
      (λ gone. stands w _ h)
perform-KeepsRequest (requested x) w h = stands w _ h
perform-KeepsRequest (observed lock connected) w h = stands w _ h
perform-KeepsRequest offline w h = stands w _ h
perform-KeepsRequest processed w h = take_message-stands w.messages w h
