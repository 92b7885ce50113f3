-- ===== src/Websocket/Tests.antt =====
-- A WebSocket's task from its start, on which the theorems on it are applied.
use gtw_jalles_websoket_blue.Prelude.{◌≡◌, refl, true, false, none, some, List, [], ◌∷◌, arith}
use gtw_jalles_websoket_blue.Esp.{esp_ok}
use gtw_jalles_websoket_blue.Text.{c_string}
use gtw_jalles_websoket_blue.Http.{
  Http, fazer_login, store_token, receive_response, http_event_handler, login_body,
}
use gtw_jalles_websoket_blue.Websocket.{ended, connecting, watching, Ws, Start, Setup}
use gtw_jalles_websoket_blue.Websocket.Events.{event_connected, event_data, event_error}
use gtw_jalles_websoket_blue.Websocket.Login.{LoginTry, v_task_imprimir_uso_memoria}
use gtw_jalles_websoket_blue.Websocket.Life.{Action, pass, event, memory, perform, perform_all}
use gtw_jalles_websoket_blue.Websocket.Settled.{IsSettled}
use gtw_jalles_websoket_blue.Websocket.Actions.{perform_all-IsSettled}
use gtw_jalles_websoket_blue.Websocket.Gone.{passes, AsksAgain, fails}
use gtw_jalles_websoket_blue.Websocket.Restart.{
  IsMadeAgain, RoundMakes, silence_restarts, setup_failures_restart, renewed, new_http,
  login_renews,
}
use gtw_jalles_websoket_blue.Websocket.Request.{KeepsRequest, perform-KeepsRequest}

abbrev http : Http
http = record {
  token = 65 ∷ 66 ∷ [];
  token_ok = true;
  response = [];
  get_response = none;
  get_client = false;
  clients = 0;
  login_task = true;
  login_asked = 0;
}

-- No task yet.
abbrev asleep : Ws
asleep = record {
  http = http;
  connectado = false;
  stop = true;
  restart_requested = true;
  handle = false;
  client = false;
  url = false;
  transport = record { tls = false; websocket = false; live = 0 };
  clients = 0;
  urls = 0;
  messages = [];
  place = ended;
}

abbrev start : Start
start = record { net = true; lock = true; created = true }

abbrev setup : Setup
setup = record {
  net = true;
  copied = true;
  making = record { tls_made = true; websocket_made = true; set_config = esp_ok };
  client_made = true;
  registered = esp_ok;
  started = esp_ok;
}

-- The client cannot be made.
abbrev no_client : Setup
no_client = record setup { client_made = false }

asleep-IsSettled : IsSettled asleep
asleep-IsSettled = record {
  handle = refl;
  client = refl;
  url = refl;
  clients = refl;
  urls = refl;
  tls = refl;
  websocket = refl;
  transports = refl;
  connected = λ h. h;
  waited = ground arith;
  room = ground arith;
  messages = _;
}

-- A start, a set-up, a message, and a handshake that is refused.
abbrev day : List Action
day =
    memory 0 true start
    ∷ pass setup false
    ∷ event event_connected
    ∷ event (event_data 1 (123 ∷ 125 ∷ []) true)
    ∷ event (event_error 401)
    ∷ pass setup false
    ∷ pass setup false
    ∷ []

perform_all-IsSettled_example : IsSettled (perform_all day asleep)
perform_all-IsSettled_example = perform_all-IsSettled day asleep asleep-IsSettled

perform-KeepsRequest_example : KeepsRequest asleep (perform (memory 0 true start) asleep)
perform-KeepsRequest_example = perform-KeepsRequest (memory 0 true start) asleep refl

-- The connection has been away for 58 seconds.
abbrev silent : Ws
silent = record asleep {
  stop = false;
  restart_requested = false;
  handle = true;
  client = true;
  url = true;
  transport = record { tls = true; websocket = true; live = 2 };
  clients = 1;
  urls = 1;
  place = watching 3000 58000;
}

silence_restarts_example :
    AsksAgain silent (passes 3 setup false silent)
    × RoundMakes silent
        (v_task_imprimir_uso_memoria false true 1 true start (passes 3 setup false silent))
silence_restarts_example =
    silence_restarts 1 setup 3000 58000 false true 1 start silent refl refl refl refl refl refl refl
      refl

abbrev fresh : Ws
fresh = record asleep {
  stop = false;
  restart_requested = false;
  handle = true;
  place = connecting 0;
}

no_client-fails : fails no_client ≡ true
unfolding fails
no_client-fails = refl

setup_failures_restart_example :
    AsksAgain fresh (passes 12 no_client false fresh)
    × RoundMakes fresh
        (v_task_imprimir_uso_memoria false true 1 true start (passes 12 no_client false fresh))
setup_failures_restart_example =
    setup_failures_restart 11 no_client false 0 false true 1 start fresh refl refl refl refl refl
      no_client-fails refl refl refl refl

-- The server answers with the token CD.
abbrev login_try : LoginTry
login_try = record {
  net = true;
  lock = true;
  parse = λ text. some (some (67 ∷ 68 ∷ []));
  server = λ body. record {
    client = true;
    chunks = record { bytes = 123 ∷ 125 ∷ []; allocated = true } ∷ [];
    performed = true;
    status = 200;
  };
  user = 117 ∷ [];
  password = 112 ∷ [];
  look = true;
  start = start;
}

logs_in :
    (fazer_login login_try.parse login_try.server login_try.user login_try.password http).1 ≡ true
unfolding fazer_login store_token receive_response http_event_handler login_body c_string
logs_in = refl

login_renews_example :
    IsMadeAgain
      (record silent { http = new_http login_try silent })
      (renewed login_try setup setup false start silent)
login_renews_example =
    login_renews login_try setup setup false 3000 58000 start silent refl refl refl refl logs_in
      refl refl refl
