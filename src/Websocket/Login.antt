-- ===== src/Websocket/Login.antt =====
-- `login_task`, `start_token_timer` and `vTaskImprimirUsoMemoria` of main/main.c, in the build with a
-- WebSocket: the two tasks that start the WebSocket's task.
use gtw_jalles_websoket_blue.Prelude.{
  ℕ, ◌+◌, Bool, true, false, not, ◌&&◌, ◌||◌, Option, List, ltb, leb, if◌then◌else◌,
}
use gtw_jalles_websoket_blue.Esp.{EspErr, is_ok}
use gtw_jalles_websoket_blue.Http.{Http, Exchange, fazer_login}
use gtw_jalles_websoket_blue.Websocket.{
  Ws, has_token, Start, websocket_task_is_running, websocket_task_start_if_needed,
}

-- What a login of the task meets: whether WiFi has a connection and an address, whether `MutexHTTP` was
-- taken (or does not exist), the parser and the server of `fazer_login`, the user and the password,
-- whether `ws_lifecycle_mutex` was taken for the test, and the start.
pub record LoginTry : Type 0 where
  pub net : Bool
  pub lock : Bool
  pub parse : List ℕ → Option (Option (List ℕ))
  pub server : List ℕ → Exchange
  pub user : List ℕ
  pub password : List ℕ
  pub look : Bool
  pub start : Start

-- What the task does next: it tries again after a delay, it waits at most 40 s for the WebSocket's task
-- to end, or it sets the timer.
pub data LoginPlace : Type 0 where
  trying stopping scheduling : LoginPlace

-- The token is stored: the task of the WebSocket is started, or asked to end.
unfoldable pub login_done : LoginTry → Ws → Ws × LoginPlace
login_done e w =
    if websocket_task_is_running e.look w
    then (record w { connectado = false; stop = true }, stopping)
    else ((websocket_task_start_if_needed e.start w).0, scheduling)

unfoldable pub login_task_try : LoginTry → Ws → Ws × LoginPlace
login_task_try e w =
    if not e.net
    then (w, trying)
    else if not e.lock
    then (w, trying)
    else if logged.1
    then login_done e (record w { http = record got { token_ok = true } })
    else (record w { http = got }, trying)
  where
    logged : Http × Bool
    logged = fazer_login e.parse e.server e.user e.password w.http

    got : Http
    got = logged.0

-- After the wait for the task to end; `look` is the mutex at the last test.
unfoldable pub login_task_stopped : Bool → Start → Ws → Ws × LoginPlace
login_task_stopped look a w =
    if websocket_task_is_running look w
    then (w, scheduling)
    else ((websocket_task_start_if_needed a w).0, scheduling)

-- Whether `token_timer` exists, before and after, and whether it was started.
unfoldable pub start_token_timer : EspErr → EspErr → Bool → Bool × Bool
start_token_timer create start made =
    if not made && not (is_ok create) then (false, false) else (true, is_ok start)

-- A round of `vTaskImprimirUsoMemoria`: it closes Bluetooth, restarts the gateway, or goes on.
pub data MemoryRound : Type 0 where
  closes_ble restarts : MemoryRound
  goes_on : Ws → ℕ → MemoryRound

-- The part on the WebSocket; `boot_cycles` is a `uint8_t` that stops at 4.
unfoldable pub restart_websocket : ℕ → Bool → Start → Ws → Ws
restart_websocket boot_cycles look a w =
    if (ltb 3 boot_cycles || w.restart_requested)
      && not (websocket_task_is_running look w)
      && (has_token w && a.net)
    then (websocket_task_start_if_needed a w).0
    else w

-- `critical` says that more than 94% of the heap is in use, `ble` that a Bluetooth window is open.
unfoldable pub v_task_imprimir_uso_memoria : Bool → Bool → ℕ → Bool → Start → Ws → MemoryRound
v_task_imprimir_uso_memoria critical ble boot_cycles look a w =
    if critical
    then if ble then closes_ble else restarts
    else goes_on (restart_websocket boot_cycles look a w)
        (if leb boot_cycles 3 then boot_cycles + 1 else 4)
