-- ===== src/Http/Bounds.antt =====
-- The token stays within its array, and the header made of it within its own.
use gtw_jalles_websoket_blue.Prelude.{
  ℕ, ◌<◌, ◌≡◌, refl, ap, ◌∙◌, inl, inr, ℤ, Bool, not, ◌&&◌, ◌||◌, Option, none, some, List, [], ◌∷◌,
  length, ◌==◌, if◌then◌else◌, if-elim, Bool-cases, Option-cases, arith,
}
use gtw_jalles_websoket_blue.Http.{
  Http, auth_header, Exchange, Reply, GetExchange, GetTry, is_rejected, token_rejected, fazer_login,
  server_request, get_json_client, hand_over, server_get_json, full_url, last_try, is_performed,
  receive_get,
}
use gtw_jalles_websoket_blue.Http.Login.{fazer_login_iff}

-- The calls of the other tasks, in any order, each with the answers of its server.
pub data Call : Type 0 where
  login :
      (List ℕ → Option (Option (List ℕ))) → (List ℕ → Exchange) → (usuario senha : List ℕ) → Call
  request : (route : List ℕ) → (List ℕ → List ℕ → Reply) → Option (List ℕ) → Call
  get : (List ℕ → List ℕ → GetExchange) → Option (List ℕ) → Call

unfoldable pub call : Call → Http → Http
call (login parse server usuario senha) h = (fazer_login parse server usuario senha h).0
call (request route server url) h = (server_request route server url h).0
call (get server url) h = (server_get_json server url h).0

unfoldable pub calls : List Call → Http → Http
calls [] h = h
calls (c ∷ more) h = calls more (call c h)

abbrev Fits : Http → Type 0
Fits h = length h.token < 700

-- The token after a request is the one before it.
abbrev HasToken : List ℕ → Http → Type 0
HasToken t h = h.token ≡ t

rejected-HasToken : (b : Bool) (h : Http) → (if b then token_rejected h else h).token ≡ h.token
unfolding token_rejected
rejected-HasToken b h = if-elim (HasToken h.token) b (λ r. refl) (λ r. refl)

abbrev RequestHasToken : List ℕ → (Http × ℤ) → Type 0
RequestHasToken t r = r.0.token ≡ t

server_request-HasToken :
    (route : List ℕ) (server : List ℕ → List ℕ → Reply) (url : Option (List ℕ)) (h : Http)
    → RequestHasToken h.token (server_request route server url h)
unfolding server_request
server_request-HasToken route server none h = refl
server_request-HasToken route server (some url) h =
    let r : Reply = server (full_url route url) h.token in
    if-elim (RequestHasToken h.token) (length h.token == 0) (λ e. refl)
      (λ e.
        if-elim (RequestHasToken h.token) (not (r.copied && r.client && r.performed)) (λ bad. refl)
          (λ good. rejected-HasToken (is_rejected r.status) h))

abbrev GetHasToken : List ℕ → (Http × (ℤ × Option (List ℕ))) → Type 0
GetHasToken t r = r.0.token ≡ t

client-HasToken : (e : GetExchange) (h : Http) → (get_json_client e h).0.token ≡ h.token
unfolding get_json_client
client-HasToken e h = elim (Bool-cases h.get_client) [
  | inl kept ↦ simp kept refl
  | inr first ↦ elim (Bool-cases e.client_made) [
    | inl made ↦ simp (first, made) refl
    | inr none_made ↦ simp (first, none_made) refl
  ]
]

hand_over-HasToken :
    (e : GetExchange) (response : Option (List ℕ)) (h : Http)
    → GetHasToken h.token (hand_over e response h)
unfolding hand_over
hand_over-HasToken e response h =
    if-elim (GetHasToken h.token) (not (e.status == 200))
      (λ wrong. rejected-HasToken (is_rejected e.status) (record h { get_response = none }))
      (λ right. elim (Option-cases response) [
        | inl empty ↦ simp empty refl
        | inr (bytes, found) ↦ simp found (
            if-elim (GetHasToken h.token) (length bytes == 0 || not e.room) (λ b. refl) (λ b. refl))
      ])

server_get_json-HasToken :
    (server : List ℕ → List ℕ → GetExchange) (url : Option (List ℕ)) (h : Http)
    → GetHasToken h.token (server_get_json server url h)
unfolding server_get_json
server_get_json-HasToken server none h = refl
server_get_json-HasToken server (some url) h =
    let e : GetExchange = server url h.token in
    let cleared : Http = record h { get_response = none } in
    let last : GetTry = last_try e.first e.second in
    let ready = client-HasToken e cleared in
    if-elim (GetHasToken h.token) (length url == 0) (λ e. refl)
      (λ u.
        if-elim (GetHasToken h.token) (length h.token == 0) (λ e. refl)
          (λ t.
            if-elim (GetHasToken h.token) (not (get_json_client e cleared).1) (λ e. ready)
              (λ r.
                if-elim (GetHasToken h.token) (not (is_performed last.result)) (λ e. ready)
                  (λ d.
                    hand_over-HasToken e (receive_get last.chunks none)
                      (get_json_client e cleared).0
                    ∙ ready))))

call-Fits : (c : Call) (h : Http) → Fits h → Fits (call c h)
unfolding call
call-Fits (login parse server usuario senha) h f =
    let result = fazer_login_iff parse server usuario senha h in
    elim (result.1) [
      | inl ok ↦ (result.0.0 ok).6
      | inr same ↦ let size = ap length same in ground arith
    ]
call-Fits (request route server url) h f =
    let size = ap length (server_request-HasToken route server url h) in ground arith
call-Fits (get server url) h f =
    let size = ap length (server_get_json-HasToken server url h) in ground arith

calls-Fits : (cs : List Call) (h : Http) → Fits h → Fits (calls cs h)
unfolding calls
calls-Fits [] h f = f
calls-Fits (c ∷ cs) h f = calls-Fits cs (call c h) (call-Fits c h f)

-- Through any sequence of logins, requests and GETs, whatever the servers answer, a token that fits its
-- 700 bytes with its final zero still does so, and the header made of it fits its 800 bytes with its own.
pub auth_header_fits :
    (cs : List Call) (h : Http)
    → length h.token < 700
    → (length (calls cs h).token < 700) × (length (auth_header (calls cs h)) < 800)
unfolding auth_header
auth_header_fits cs h f = let fits = calls-Fits cs h f in (fits, ground arith)
