-- ===== src/Http.antt =====
-- The HTTP requests: main/http_request.c. What the HTTP client of the SDK does is an argument: the pieces
-- of the answer that it hands to the event handler, whether memory could be had for each, and how it ends.
-- Headers, logs and the settings of the client are left out; `clients` counts those that are open.
pub mod Login
pub mod Get
pub mod Bounds
mod Tests
use gtw_jalles_websoket_blue.Prelude.{
  ℕ, ◌+◌, ◌-◌, ℤ, pos, negsuc, Bool, true, false, not, ◌&&◌, ◌||◌, Option, none, some, List, [],
  ◌∷◌, ◌++◌, length, take, ltb, leb, ◌==◌, if◌then◌else◌,
}
use gtw_jalles_websoket_blue.Text.{c_string}

-- `token_global`, `TokenOk`, `response_buffer` with `response_len`, `get_response_buffer` with
-- `get_response_len`, whether `get_client` is not null, the open clients, and the notifications to the
-- login task, which may not exist.
pub record Http : Type 0 where
  pub token : List ℕ
  pub token_ok : Bool
  pub response : List ℕ
  pub get_response : Option (List ℕ)
  pub get_client : Bool
  pub clients : ℕ
  pub login_task : Bool
  pub login_asked : ℕ

-- A piece of an answer, and whether memory could be had for it.
pub record Chunk : Type 0 where
  pub bytes : List ℕ
  pub allocated : Bool

unfoldable pub http_event_handler : Chunk → List ℕ → List ℕ
http_event_handler c response = if c.allocated then response ++ c.bytes else response

unfoldable pub receive_response : List Chunk → List ℕ → List ℕ
receive_response [] response = response
receive_response (c ∷ chunks) response = receive_response chunks (http_event_handler c response)

-- {"usuario":"
abbrev pub login_head : List ℕ
login_head = 123 ∷ 34 ∷ 117 ∷ 115 ∷ 117 ∷ 97 ∷ 114 ∷ 105 ∷ 111 ∷ 34 ∷ 58 ∷ 34 ∷ []

-- ","password":"
abbrev pub login_middle : List ℕ
login_middle = 34 ∷ 44 ∷ 34 ∷ 112 ∷ 97 ∷ 115 ∷ 115 ∷ 119 ∷ 111 ∷ 114 ∷ 100 ∷ 34 ∷ 58 ∷ 34 ∷ []

-- "}
abbrev pub login_tail : List ℕ
login_tail = 34 ∷ 125 ∷ []

-- What `snprintf` keeps of the body in 256 bytes.
unfoldable pub login_body : List ℕ → List ℕ → List ℕ
login_body usuario senha =
    take 255 (login_head ++ (usuario ++ (login_middle ++ (senha ++ login_tail))))

-- How a login goes, as a function of the body: whether there is a client, the pieces of the answer, whether
-- the request ended well, and its status.
pub record Exchange : Type 0 where
  pub client : Bool
  pub chunks : List Chunk
  pub performed : Bool
  pub status : ℕ

abbrev pub token_size : ℕ
token_size = 700

-- The field "access", if the text is JSON and the field a text.
unfoldable pub store_token : Bool → Option (Option (List ℕ)) → Http → Http × Bool
store_token good (some (some token)) h =
    if good && ltb 0 (length token) && ltb (length token) token_size
    then (record h { token = token }, true)
    else (h, false)
store_token good _ h = (h, false)

-- `parse` is what `cJSON_Parse` finds in a text: nothing, or an object with or without a text "access".
unfoldable pub fazer_login :
    (List ℕ → Option (Option (List ℕ))) → (List ℕ → Exchange) → List ℕ → List ℕ → Http → Http × Bool
fazer_login parse server usuario senha h =
    if not e.client
    then (clean h, false)
    else if not e.performed || length response == 0
    then (clean h, false)
    else (clean (stored.0), stored.1)
  where
    clean : Http → Http
    clean x = record x { response = [] }

    e : Exchange
    e = server (login_body usuario senha)

    response : List ℕ
    response = receive_response e.chunks []

    stored : Http × Bool
    stored = store_token (e.status == 200) (parse (c_string response)) h

-- "Bearer " and the token, as `snprintf` prints them into the 800 bytes of `auth_header`.
unfoldable pub auth_header : Http → List ℕ
auth_header h = (66 ∷ 101 ∷ 97 ∷ 114 ∷ 101 ∷ 114 ∷ 32 ∷ []) ++ h.token

-- The statuses that reject a token.
abbrev pub is_rejected : ℕ → Bool
is_rejected status = status == 401 || status == 403

unfoldable pub token_rejected : Http → Http
token_rejected h = record h {
  token_ok = false;
  login_asked = h.login_asked + (if h.login_task then 1 else 0);
}

-- How a request goes, as a function of the address and the token: whether the address could be copied,
-- whether there is a client, whether it ended well, and its status.
pub record Reply : Type 0 where
  pub copied : Bool
  pub client : Bool
  pub performed : Bool
  pub status : ℕ

-- What `snprintf` keeps of an address in 256 bytes; `route` is `MAIN_ROUTE`.
unfoldable pub full_url : List ℕ → List ℕ → List ℕ
full_url route url = take 255 (route ++ url)

unfoldable pub server_request :
    List ℕ → (List ℕ → List ℕ → Reply) → Option (List ℕ) → Http → Http × ℤ
server_request route server none h = (h, negsuc 0)
server_request route server (some url) h =
    if length h.token == 0
    then (h, negsuc 0)
    else if not (r.copied && r.client && r.performed)
    then (h, negsuc 0)
    else (if is_rejected r.status then token_rejected h else h, pos r.status)
  where
    r : Reply
    r = server (full_url route url) h.token

unfoldable pub http_event_handler_get : Chunk → Option (List ℕ) → Option (List ℕ)
http_event_handler_get c none = if c.allocated then some c.bytes else none
http_event_handler_get c (some response) = if c.allocated then some (response ++ c.bytes) else none

unfoldable pub receive_get : List Chunk → Option (List ℕ) → Option (List ℕ)
receive_get [] response = response
receive_get (c ∷ chunks) response = receive_get chunks (http_event_handler_get c response)

-- How one attempt of a GET ends.
pub data Performed : Type 0 where
  performed write_data failed : Performed

pub record GetTry : Type 0 where
  pub chunks : List Chunk
  pub result : Performed

-- How a GET goes: whether the client could be made, or take the address; its first attempt, and the one
-- on a new connection; the status; and whether memory could be had for the final zero.
pub record GetExchange : Type 0 where
  pub client_made : Bool
  pub url_set : Bool
  pub first : GetTry
  pub second : GetTry
  pub status : ℕ
  pub room : Bool

-- The client of the GETs is made once and kept.
unfoldable pub get_json_client : GetExchange → Http → Http × Bool
get_json_client e h =
    if h.get_client
    then (h, e.url_set)
    else if e.client_made
    then (record h { get_client = true; clients = h.clients + 1 }, true)
    else (h, false)

-- The attempt that counts: the second if the first ended with ESP_ERR_HTTP_WRITE_DATA.
abbrev pub last_try : GetTry → GetTry → GetTry
last_try one two = elim one.result [ performed ↦ one | write_data ↦ two | failed ↦ one ]

abbrev pub is_performed : Performed → Bool
is_performed performed = true
is_performed _ = false

-- With the answer in `get_response_buffer`: what the caller gets, or nothing.
unfoldable pub hand_over : GetExchange → Option (List ℕ) → Http → Http × (ℤ × Option (List ℕ))
hand_over e response h =
    if not (e.status == 200)
    then (if is_rejected e.status then token_rejected idle else idle, (pos 0, none))
    else go response
  where
    idle : Http
    idle = record h { get_response = none }

    go : Option (List ℕ) → Http × (ℤ × Option (List ℕ))
    go none = (idle, (pos 0, none))
    go (some bytes) =
        if length bytes == 0 || not e.room
        then (idle, (pos 0, none))
        else (idle, (pos 1, some bytes))

-- The last component is the buffer that the caller gets and frees.
unfoldable pub server_get_json :
    (List ℕ → List ℕ → GetExchange) → Option (List ℕ) → Http → Http × (ℤ × Option (List ℕ))
server_get_json server none h = (h, (pos 0, none))
server_get_json server (some url) h =
    if length url == 0
    then (h, (pos 0, none))
    else if length h.token == 0
    then (h, (negsuc 0, none))
    else if not ready.1
    then (ready.0, (pos 0, none))
    else if not (is_performed last.result)
    then (ready.0, (pos 0, none))
    else hand_over e (receive_get last.chunks none) ready.0
  where
    e : GetExchange
    e = server url h.token

    ready : Http × Bool
    ready = get_json_client e (record h { get_response = none })

    last : GetTry
    last = last_try e.first e.second
