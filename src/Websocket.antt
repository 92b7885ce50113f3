-- ===== src/Websocket.antt =====
-- The task that keeps the WebSocket, `connect_to_websocket` of main/main.c, and what starts and stops
-- it. The SDK's clients, its transports and the copied addresses are counted, so that a leak shows. A
-- pass of a loop of the task is one step, and the other tasks act between the passes; delays, the watchdog
-- and the log lines are left out.
pub mod Events
pub mod Login
pub mod Life
pub mod Settled
pub mod Passes
pub mod Actions
pub mod Gone
pub mod Restart
pub mod Request
mod Tests
use gtw_jalles_websoket_blue.Prelude.{
  ℕ, ◌+◌, ◌-◌, ◌%◌, ◌^◌, Bool, true, false, not, ◌&&◌, List, [], ltb, leb, ◌==◌, if◌then◌else◌,
  length,
}
use gtw_jalles_websoket_blue.Esp.{EspErr, is_ok}
use gtw_jalles_websoket_blue.Http.{Http}
use gtw_jalles_websoket_blue.Network.{
  Transport, Making, gtw_websocket_transport_init, gtw_websocket_transport_cleanup,
}

abbrev pub ws_retry_delay_ms : ℕ
ws_retry_delay_ms = 5000

abbrev pub ws_recreate_after_ms : ℕ
ws_recreate_after_ms = 60000

-- Where the task stands: there is none, it is at the top of its outer loop (with `setup_failure_ms`), or
-- at the top of its inner loop (with `disconnected_log_ms` and `disconnected_total_ms`).
pub data Place : Type 0 where
  ended : Place
  connecting : ℕ → Place
  watching : ℕ → ℕ → Place

-- `Connectado`, `stop_websocket_task`, `websocket_restart_requested`, and whether
-- `taskConnect_to_websocket`, `ws_client` and `websocket_url` are not null; `network_transport`, the
-- clients and the copied addresses that exist; and `ws_msg_queue`.
pub record Ws : Type 0 where
  pub http : Http
  pub connectado : Bool
  pub stop : Bool
  pub restart_requested : Bool
  pub handle : Bool
  pub client : Bool
  pub url : Bool
  pub transport : Transport
  pub clients : ℕ
  pub urls : ℕ
  pub messages : List (List ℕ)
  pub place : Place

-- The first argument says whether `ws_lifecycle_mutex` was taken in time.
unfoldable pub websocket_task_is_running : Bool → Ws → Bool
websocket_task_is_running lock w = if lock then w.handle else true

-- `connected` is the SDK's answer for the client.
unfoldable pub websocket_is_connected : Bool → Bool → Ws → Bool
websocket_is_connected lock connected w = if lock then w.client && connected else false

abbrev pub has_token : Ws → Bool
has_token w = http.token_ok && not (length http.token == 0)
  where
    http : Http
    http = w.http

-- Whether WiFi has a connection and an address, the mutex was taken, and the task could be created.
pub record Start : Type 0 where
  pub net : Bool
  pub lock : Bool
  pub created : Bool

unfoldable pub websocket_task_start_if_needed : Start → Ws → Ws × Bool
websocket_task_start_if_needed a w =
    if not (has_token w && a.net)
    then (w, false)
    else if not a.lock
    then (w, false)
    else if w.handle
    then (w, true)
    else if not a.created
    then (record w { connectado = false; stop = false }, false)
    else (
      record w {
        connectado = false;
        stop = false;
        handle = true;
        restart_requested = false;
        place = connecting 0;
      },
      true,
    )

-- With the new `setup_failure_ms`, and whether the task goes on.
unfoldable pub websocket_wait_before_setup_retry : ℕ → Ws → Ws × (ℕ × Bool)
websocket_wait_before_setup_retry failure_ms w =
    if w.stop
    then (record w { connectado = false }, (failure_ms, false))
    else if leb ws_recreate_after_ms waited
    then (record w { connectado = false; restart_requested = true; stop = true }, (waited, false))
    else (record w { connectado = false }, (waited, true))
  where
    waited : ℕ
    waited = (failure_ms + ws_retry_delay_ms) % 2 ^ 32

-- The end of the task.
unfoldable pub finish : Ws → Ws
finish w = record w { connectado = false; handle = false; place = ended }

-- After a failed set-up.
unfoldable pub retry_or_finish : Ws × (ℕ × Bool) → Ws
retry_or_finish (w, (failure_ms, true)) = record w { place = connecting failure_ms }
retry_or_finish (w, (failure_ms, false)) = finish w

unfoldable pub setup_failed : ℕ → Ws → Ws
setup_failed failure_ms w = retry_or_finish (websocket_wait_before_setup_retry failure_ms w)

-- What a pass of the outer loop meets: whether WiFi has a connection and an address, whether the address
-- could be copied, and the answers of the SDK.
pub record Setup : Type 0 where
  pub net : Bool
  pub copied : Bool
  pub making : Making
  pub client_made : Bool
  pub registered : EspErr
  pub started : EspErr

abbrev pub free_url : Ws → Ws
free_url w = record w { urls = w.urls - 1 }

abbrev pub cleanup_transport : Ws → Ws
cleanup_transport w = record w { transport = gtw_websocket_transport_cleanup w.transport }

abbrev pub destroy_client : Ws → Ws
destroy_client w = record w { clients = w.clients - 1 }

-- From the transport on; `w` has the copy of the address already.
unfoldable pub open_client : Setup → ℕ → Ws → Ws
open_client s failure_ms w =
    if not (is_ok made.1)
    then setup_failed failure_ms (free_url (record w { transport = made.0 }))
    else if not s.client_made
    then setup_failed failure_ms (free_url (cleanup_transport (record w { transport = made.0 })))
    else if not (is_ok s.registered)
    then setup_failed failure_ms (free_url (cleanup_transport (destroy_client opened)))
    else if not (is_ok s.started)
    then setup_failed failure_ms (
        free_url
          (cleanup_transport (destroy_client (record opened { client = false; url = false }))))
    else record opened { client = true; url = true; place = watching 0 0 }
  where
    made : Transport × EspErr
    made = gtw_websocket_transport_init s.making w.transport

    opened : Ws
    opened = record w { transport = made.0; clients = w.clients + 1 }

-- A pass of the outer loop, up to the inner one.
unfoldable pub connect_pass : Setup → ℕ → Ws → Ws
connect_pass s failure_ms w =
    if w.stop
    then finish w
    else if not (has_token w && s.net)
    then w
    else if not s.copied
    then setup_failed failure_ms w
    else open_client s failure_ms (record w { urls = w.urls + 1 })

-- After the inner loop: nobody else sets `ws_client` and `websocket_url`, so both are those of the pass.
unfoldable pub close_client : Ws → Ws
close_client w = free_url (
    cleanup_transport (
      destroy_client
        (record w { connectado = false; client = false; url = false; place = connecting 0 })))

-- A pass of the inner loop; `connected` is the SDK's answer for the client.
unfoldable pub watch_pass : Bool → ℕ → ℕ → Ws → Ws
watch_pass connected log_ms total_ms w =
    if w.stop
    then close_client w
    else if connected
    then record w { place = watching 0 0 }
    else if leb ws_recreate_after_ms (total_ms + 1000)
    then close_client (record w { restart_requested = true; stop = true })
    else record w {
      place =
          watching (if leb ws_retry_delay_ms (log_ms + 1000) then 0 else log_ms + 1000)
            (total_ms + 1000);
    }

unfoldable pub pass_at : Place → Setup → Bool → Ws → Ws
pass_at ended s connected w = w
pass_at (connecting failure_ms) s connected w = connect_pass s failure_ms w
pass_at (watching log_ms total_ms) s connected w = watch_pass connected log_ms total_ms w

-- One pass of `connect_to_websocket`.
unfoldable pub connect_to_websocket_pass : Setup → Bool → Ws → Ws
connect_to_websocket_pass s connected w = pass_at w.place s connected w
