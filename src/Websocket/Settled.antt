-- ===== src/Websocket/Settled.antt =====
-- The WebSocket's task keeps its books: what holds after any actions.
use gtw_jalles_websoket_blue.Prelude.{
  ℕ, ◌+◌, ◌*◌, ◌%◌, ◌^◌, ◌≤◌, ◌<◌, ◌≡◌, refl, Bool, true, false, List, length, leb, inl, inr,
  Bool-cases, All, arith,
}
use gtw_jalles_websoket_blue.Http.{Http}
use gtw_jalles_websoket_blue.Websocket.{
  Place, ended, connecting, watching, Ws, websocket_wait_before_setup_retry, finish,
  retry_or_finish, setup_failed,
}

abbrev pub is_watching : Place → Bool
is_watching (watching log_ms total_ms) = true
is_watching _ = false

abbrev pub is_running : Place → Bool
is_running ended = false
is_running _ = true

-- How long the task has waited in vain.
abbrev pub waited_ms : Place → ℕ
waited_ms ended = 0
waited_ms (connecting failure_ms) = failure_ms
waited_ms (watching log_ms total_ms) = total_ms

abbrev pub if_one : Bool → ℕ
if_one true = 1
if_one false = 0

-- A message that the handler takes.
pub record IsMessage (m : List ℕ) : Type 0 where
  pub some_bytes : 0 < length m
  pub short : length m < 512

-- The task has a handle while it runs; in its inner loop it has one client, one address and two
-- transports, published, and elsewhere nothing; `Connectado` is set only there; it has waited less than a
-- minute; and at most 20 messages of 1 to 511 bytes wait.
pub record IsSettled (w : Ws) : Type 0 where
  pub handle : w.handle ≡ is_running w.place
  pub client : w.client ≡ is_watching w.place
  pub url : w.url ≡ is_watching w.place
  pub clients : w.clients ≡ if_one (is_watching w.place)
  pub urls : w.urls ≡ if_one (is_watching w.place)
  pub tls : w.transport.tls ≡ is_watching w.place
  pub websocket : w.transport.websocket ≡ is_watching w.place
  pub transports : w.transport.live ≡ 2 * if_one (is_watching w.place)
  pub connected : w.connectado ≡ true → is_watching w.place ≡ true
  pub waited : waited_ms w.place < 60000
  pub room : length w.messages ≤ 20
  pub messages : All IsMessage w.messages

-- Without a client, an address or a transport.
pub record IsBare (w : Ws) : Type 0 where
  pub client : w.client ≡ false
  pub url : w.url ≡ false
  pub clients : w.clients ≡ 0
  pub urls : w.urls ≡ 0
  pub tls : w.transport.tls ≡ false
  pub websocket : w.transport.websocket ≡ false
  pub transports : w.transport.live ≡ 0
  pub room : length w.messages ≤ 20
  pub messages : All IsMessage w.messages

-- Outside the inner loop with nothing left over.
pub settle_bare :
    (w : Ws)
    → IsBare w
    → w.connectado ≡ false
    → is_watching w.place ≡ false
    → w.handle ≡ is_running w.place
    → waited_ms w.place < 60000
    → IsSettled w
settle_bare w b off place handle waited = record {
  handle = handle;
  client = ground (arith, b.client, place);
  url = ground (arith, b.url, place);
  clients = ground (arith, b.clients, place);
  urls = ground (arith, b.urls, place);
  tls = ground (arith, b.tls, place);
  websocket = ground (arith, b.websocket, place);
  transports = ground (arith, b.transports, place);
  connected = λ h. ground arith;
  waited = waited;
  room = b.room;
  messages = b.messages;
}

pub nothing_left : (w : Ws) → IsSettled w → is_watching w.place ≡ false → IsBare w
nothing_left w v out = record {
  client = ground (arith, v.client, out);
  url = ground (arith, v.url, out);
  clients = ground (arith, v.clients, out);
  urls = ground (arith, v.urls, out);
  tls = ground (arith, v.tls, out);
  websocket = ground (arith, v.websocket, out);
  transports = ground (arith, v.transports, out);
  room = v.room;
  messages = v.messages;
}

-- Fields that the books do not look at.
IsBare-record :
    (w : Ws) (http : Http) (connectado stop restart handle : Bool) (place : Place)
    → IsBare w
    → IsBare (record w {
      http = http;
      connectado = connectado;
      stop = stop;
      restart_requested = restart;
      handle = handle;
      place = place;
    })
IsBare-record w http connectado stop restart handle place b = record {
  client = b.client;
  url = b.url;
  clients = b.clients;
  urls = b.urls;
  tls = b.tls;
  websocket = b.websocket;
  transports = b.transports;
  room = b.room;
  messages = b.messages;
}

pub finish-IsSettled : (w : Ws) → IsBare w → IsSettled (finish w)
unfolding finish
finish-IsSettled w b =
    settle_bare _ (IsBare-record w w.http false w.stop w.restart_requested false ended b) refl refl
      refl (omega arith)

pub setup_failed-IsSettled :
    (failure_ms : ℕ) (w : Ws)
    → failure_ms < 60000
    → w.handle ≡ true
    → IsBare w
    → IsSettled (setup_failed failure_ms w)
unfolding setup_failed websocket_wait_before_setup_retry retry_or_finish
setup_failed-IsSettled failure_ms w low running b = elim (Bool-cases w.stop) [
  | inl stopped ↦ simp stopped (
      finish-IsSettled _ (IsBare-record w w.http false true w.restart_requested w.handle w.place b))
  | inr going ↦ elim (Bool-cases (leb 60000 ((failure_ms + 5000) % 2 ^ 32))) [
    | inl late ↦
        simp (going, late)
          (finish-IsSettled _ (IsBare-record w w.http false true true w.handle w.place b))
    | inr soon ↦
        simp (going, soon)
          (settle_bare _
            (IsBare-record w w.http false false w.restart_requested w.handle (connecting _) b) refl
            refl running (ground arith))
  ]
]
