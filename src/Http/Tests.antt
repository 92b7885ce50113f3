-- ===== src/Http/Tests.antt =====
-- Requests with a small server, and the theorems about them at concrete inputs.
use gtw_jalles_websoket_blue.Prelude.{
  ℕ, ◌<◌, ◌≡◌, ◌↔◌, ◌⊎◌, refl, true, false, Option, none, some, List, [], ◌∷◌, length, arith,
}
use gtw_jalles_websoket_blue.Http.{
  Http, Chunk, Exchange, Reply, performed, write_data, GetExchange, fazer_login, login_body,
  server_get_json, server_request, token_rejected, http_event_handler_get, receive_get, auth_header,
}
use gtw_jalles_websoket_blue.Http.Login.{GivesToken, fazer_login_iff}
use gtw_jalles_websoket_blue.Http.Get.{HandsOver, HasClient, repeated, given, server_get_json_iff}
use gtw_jalles_websoket_blue.Http.Bounds.{Call, login, request, get, calls, auth_header_fits}

abbrev start : Http
start = record {
  token = 84 ∷ [];
  token_ok = true;
  response = [];
  get_response = none;
  get_client = false;
  clients = 0;
  login_task = true;
  login_asked = 0;
}

abbrev piece : List ℕ → Chunk
piece bytes = record { bytes = bytes; allocated = true }

-- The answer is its own token.
abbrev parse : List ℕ → Option (Option (List ℕ))
parse text = some (some text)

abbrev login_server : List ℕ → Exchange
login_server body = record {
  client = true;
  chunks = piece (65 ∷ []) ∷ piece (66 ∷ []) ∷ [];
  performed = true;
  status = 200;
}

abbrev get_server : List ℕ → List ℕ → GetExchange
get_server url token = record {
  client_made = true;
  url_set = true;
  first = record { chunks = piece (90 ∷ []) ∷ []; result = write_data };
  second = record { chunks = piece (65 ∷ []) ∷ piece (66 ∷ []) ∷ []; result = performed };
  status = 200;
  room = true;
}

abbrev request_server : List ℕ → List ℕ → Reply
request_server url token = record { copied = true; client = true; performed = true; status = 401 }

-- A rejected token is marked as such, and a login asked for.
rejected :
    ((server_request [] request_server (some []) start).0.token_ok ≡ false)
    × ((server_request [] request_server (some []) start).0.login_asked ≡ 1)
unfolding server_request token_rejected
rejected = (refl, refl)

-- When memory fails in the middle, the pieces behind the failure are taken for the whole answer.
middle_lost :
    receive_get
      (piece (65 ∷ []) ∷ record { bytes = 66 ∷ []; allocated = false } ∷ piece (67 ∷ []) ∷ [])
      none
    ≡ some (67 ∷ [])
unfolding receive_get http_event_handler_get
middle_lost = refl

fazer_login_iff_example :
    (((fazer_login parse login_server [] [] start).1 ≡ true)
      ↔ GivesToken parse
          (login_server (login_body [] []))
          (fazer_login parse login_server [] [] start).0.token)
    × (((fazer_login parse login_server [] [] start).1 ≡ true)
        ⊎ ((fazer_login parse login_server [] [] start).0.token ≡ 84 ∷ []))
    × ((fazer_login parse login_server [] [] start).0.response ≡ [])
fazer_login_iff_example = fazer_login_iff parse login_server [] [] start

server_get_json_iff_example :
    (((server_get_json get_server (some (47 ∷ [])) start).1 ≡ given (65 ∷ 66 ∷ [])) ↔ (
      HasClient (get_server (47 ∷ []) (84 ∷ [])) start
      × (performed ≡ performed)
      × HandsOver
          (get_server (47 ∷ []) (84 ∷ []))
          (piece (65 ∷ []) ∷ piece (66 ∷ []) ∷ [])
          (65 ∷ 66 ∷ [])))
    × ((server_get_json get_server (some (47 ∷ [])) start).0.get_response ≡ none)
server_get_json_iff_example =
    server_get_json_iff get_server (47 ∷ []) (65 ∷ 66 ∷ []) start
      (record { chunks = piece (65 ∷ []) ∷ piece (66 ∷ []) ∷ []; result = performed }) (omega arith)
      (omega arith) (repeated refl) (refl, (refl, _))

abbrev three_calls : List Call
three_calls =
    login parse login_server [] []
    ∷ request [] request_server (some [])
    ∷ get get_server (some (47 ∷ []))
    ∷ []

auth_header_fits_example :
    (length (calls three_calls start).token < 700)
    × (length (auth_header (calls three_calls start)) < 800)
auth_header_fits_example = auth_header_fits three_calls start (omega arith)
