-- ===== src/Http/Get.antt =====
-- What a GET hands to its caller.
use gtw_jalles_websoket_blue.Prelude.{
  ℕ, ◌<◌, ◌≡◌, ◌≢◌, ◌↔◌, refl, sym, ap, ◌∙◌, inl, inr, ◌⊎◌, ℤ, pos, true, false, not, ◌||◌, Option,
  none, some, List, [], ◌∷◌, ◌++◌, append_assoc, append-nil, length, All, ◌==◌, if-elim, Bool-cases,
  Option-cases, List-cases, arith,
}
use gtw_jalles_websoket_blue.Http.{
  Http, Chunk, Performed, performed, write_data, failed, is_rejected, token_rejected,
  http_event_handler_get, receive_get, GetTry, GetExchange, last_try, is_performed, get_json_client,
  hand_over, server_get_json,
}

abbrev pub joined : List Chunk → List ℕ
joined [] = []
joined (c ∷ chunks) = c.bytes ++ joined chunks

abbrev pub IsAllocated : Chunk → Type 0
IsAllocated c = c.allocated ≡ true

receive_get-some :
    (chunks : List Chunk) (bytes : List ℕ)
    → All IsAllocated chunks
    → receive_get chunks (some bytes) ≡ some (bytes ++ joined chunks)
unfolding receive_get http_event_handler_get
receive_get-some [] bytes all = ap some (sym (append-nil bytes))
receive_get-some (c ∷ chunks) bytes all = simp (all.0) (
    receive_get-some chunks (bytes ++ c.bytes) (all.1)
    ∙ ap some (append_assoc bytes c.bytes (joined chunks)))

-- The pieces in order, if there is one.
receive_get-none :
    (chunks : List Chunk)
    → All IsAllocated chunks
    → receive_get chunks none ≡ (elim chunks [ [] ↦ none | c ∷ rest ↦ some (joined (c ∷ rest)) ])
unfolding receive_get http_event_handler_get
receive_get-none [] all = refl
receive_get-none (c ∷ chunks) all = simp (all.0) (receive_get-some chunks c.bytes (all.1))

-- What the caller gets of an answer.
abbrev pub HandsOver : GetExchange → List Chunk → List ℕ → Type 0
HandsOver e chunks bytes =
    (e.status ≡ 200) × (e.room ≡ true) × (joined chunks ≡ bytes) × (0 < length bytes)

-- The result of `server_get_json` with the caller's buffer.
abbrev Given : Type 0
Given = ℤ × Option (List ℕ)

abbrev nothing : Given
nothing = (pos 0, none)

abbrev pub given : List ℕ → ℤ × Option (List ℕ)
given bytes = (pos 1, some bytes)

nothing-given : (bytes : List ℕ) → nothing ≢ given bytes
nothing-given bytes e = let number = ap (λ (g : Given). g.0) e in absurd (ground arith)

given_injective : (left right : List ℕ) → given left ≡ given right → left ≡ right
given_injective left right e = let body = ap (λ (g : Given). g.1) e in cc

hand_over_iff :
    (e : GetExchange) (chunks : List Chunk) (bytes : List ℕ) (h : Http)
    → All IsAllocated chunks
    → ((hand_over e (receive_get chunks none) h).1 ≡ given bytes) ↔ HandsOver e chunks bytes
unfolding hand_over receive_get
hand_over_iff e chunks bytes h all = elim (Bool-cases (e.status == 200)) [
  | inr wrong ↦
      simp wrong
        (λ r. absurd (nothing-given bytes r), λ g. let status = g.0 in absurd (ground arith))
  | inl right ↦ elim (List-cases chunks) [
    | inl empty ↦
        simp (right, empty)
          (
            λ r. absurd (nothing-given bytes r),
            λ g. let none_joined = g.2 in let size = g.3 in absurd (ground arith),
          )
    | inr (c, rest, pieces) ↦
        let got : receive_get chunks none ≡ some (joined chunks) =
          simp pieces (receive_get-none (c ∷ rest) (simp pieces at all)) in
        elim (Bool-cases (length (joined chunks) == 0 || not e.room)) [
          | inl bad ↦
              simp (right, got, bad)
                (
                  λ r. absurd (nothing-given bytes r),
                  λ g.
                      let body = g.2 in
                      let room = g.1 in let size = ap length body in absurd (ground arith),
                )
          | inr good ↦
              simp (right, got, good)
                (
                  λ r. (
                    ground arith,
                    ground arith,
                    given_injective _ _ r,
                    (let body = given_injective _ _ r in let size = ap length body in ground arith),
                  ),
                  λ g. ap given (g.2),
                )
        ]
  ]
]

-- No buffer is left over on any way out.
abbrev HasNoBuffer : Http → Type 0
HasNoBuffer h = h.get_response ≡ none

client_keeps : (e : GetExchange) (h : Http) → (get_json_client e h).0.get_response ≡ h.get_response
unfolding get_json_client
client_keeps e h = elim (Bool-cases h.get_client) [
  | inl kept ↦ simp kept refl
  | inr first ↦ elim (Bool-cases e.client_made) [
    | inl made ↦ simp (first, made) refl
    | inr none_made ↦ simp (first, none_made) refl
  ]
]

hand_over_clears :
    (e : GetExchange) (response : Option (List ℕ)) (h : Http)
    → (hand_over e response h).0.get_response ≡ none
unfolding hand_over token_rejected
hand_over_clears e response h = elim (Bool-cases (e.status == 200)) [
  | inr wrong ↦ simp wrong (if-elim HasNoBuffer (is_rejected e.status) (λ r. refl) (λ r. refl))
  | inl right ↦ elim (Option-cases response) [
    | inl empty ↦ simp (right, empty) refl
    | inr (bytes, found) ↦ elim (Bool-cases (length bytes == 0 || not e.room)) [
      | inl bad ↦ simp (right, found, bad) refl
      | inr good ↦ simp (right, found, good) refl
    ]
  ]
]

-- Which of two attempts is the last: the second is made only after a first one that found its connection
-- closed.
pub data IsLast (one two : GetTry) : GetTry → Type 0 where
  only : one.result ≢ write_data → IsLast one two one
  repeated : one.result ≡ write_data → IsLast one two two

last_try_lem : (one two last : GetTry) → IsLast one two last → last_try one two ≡ last
last_try_lem one two last (only other) = keeps one.result other
  where
    keeps :
        (p : Performed)
        → p ≢ write_data
        → (elim p [ performed ↦ one | write_data ↦ two | failed ↦ one ]) ≡ one
    keeps performed differs = refl
    keeps write_data differs = absurd (differs refl)
    keeps failed differs = refl
last_try_lem one two last (repeated closed) =
    ap (λ (p : Performed). elim p [ performed ↦ one | write_data ↦ two | failed ↦ one ]) closed

is_performed_iff : (p : Performed) → (is_performed p ≡ true) ↔ (p ≡ performed)
is_performed_iff performed = (λ h. refl, λ h. refl)
is_performed_iff write_data = (λ h. cc, λ h. cc)
is_performed_iff failed = (λ h. cc, λ h. cc)

-- The client that is kept takes the address, or there is none yet and one can be made with it.
abbrev pub HasClient : GetExchange → Http → Type 0
HasClient e h =
    ((h.get_client ≡ true) × (e.url_set ≡ true)) ⊎ ((h.get_client ≡ false) × (e.client_made ≡ true))

get_json_client_iff :
    (e : GetExchange) (h : Http) → ((get_json_client e h).1 ≡ true) ↔ HasClient e h
unfolding get_json_client
get_json_client_iff e h = elim (Bool-cases h.get_client) [
  | inl kept ↦
      simp kept (λ r. inl (refl, r), λ c. elim c [ inl x ↦ x.1 | inr x ↦ absurd (ground arith) ])
  | inr none_yet ↦ elim (Bool-cases e.client_made) [
    | inl makes ↦ simp (none_yet, makes) (λ r. inr (refl, refl), λ c. refl)
    | inr fails ↦
        simp (none_yet, fails)
          (λ r. cc, λ c. elim c [ inl x ↦ absurd (ground arith) | inr x ↦ x.1 ])
  ]
]

-- With an address and a token, and memory for every piece of the attempt that counts, which is the second
-- if the first found the connection closed, and otherwise the first: `server_get_json` returns 1 and
-- hands over a buffer exactly when the client that is kept takes the address, or there is none yet and one can be
-- made, that attempt ends well with
-- status 200, there is memory for the final zero, and the buffer holds the pieces in order, at least one
-- byte. No buffer is left over.
pub server_get_json_iff :
    (server : List ℕ → List ℕ → GetExchange) (url bytes : List ℕ) (h : Http) (last : GetTry)
    → 0 < length url
    → 0 < length h.token
    → IsLast (server url h.token).first (server url h.token).second last
    → All IsAllocated last.chunks
    → (((server_get_json server (some url) h).1 ≡ given bytes) ↔ (
        HasClient (server url h.token) h
        × (last.result ≡ performed)
        × HandsOver (server url h.token) last.chunks bytes))
      × ((server_get_json server (some url) h).0.get_response ≡ none)
unfolding server_get_json
server_get_json_iff server url bytes h last has_url has_token is_last all =
    let e : GetExchange = server url h.token in
    let client_iff = get_json_client_iff e (record h { get_response = none }) in
    let counts = last_try_lem e.first e.second last is_last in
    let there : (length url == 0) ≡ false = ground arith in
    let known : (length h.token == 0) ≡ false = ground arith in
    elim (Bool-cases (get_json_client e (record h { get_response = none })).1) [
      | inr unready ↦
          simp (there, known, unready)
            (
              (λ r. absurd (nothing-given bytes r), λ g. let ready = client_iff.1 (g.0) in cc),
              client_keeps e (record h { get_response = none }),
            )
      | inl ready ↦ elim (Bool-cases (is_performed last.result)) [
        | inr bad ↦
            simp (there, known, ready, counts, bad)
              (
                (
                  λ r. absurd (nothing-given bytes r),
                  λ g. let done = (is_performed_iff last.result).1 (g.1) in cc,
                ),
                client_keeps e (record h { get_response = none }),
              )
        | inl done ↦
            let body =
              hand_over_iff e last.chunks bytes
                (get_json_client e (record h { get_response = none })).0 all in
            simp (there, known, ready, counts, done)
              (
                (
                  λ r. (client_iff.0 ready, (is_performed_iff last.result).0 done, body.0 r),
                  λ g. body.1 (g.2),
                ),
                hand_over_clears e (receive_get last.chunks none) _,
              )
      ]
    ]
