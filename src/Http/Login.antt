-- ===== src/Http/Login.antt =====
-- When a login succeeds.
use gtw_jalles_websoket_blue.Prelude.{
  ℕ, ◌<◌, ◌≡◌, ◌↔◌, ◌⊎◌, refl, sym, ap, ◌∙◌, inl, inr, Bool, true, false, not, ◌&&◌, ◌||◌, Option,
  none, some, List, [], length, ltb, ◌==◌, Bool-cases, arith,
}
use gtw_jalles_websoket_blue.Text.{c_string}
use gtw_jalles_websoket_blue.Http.{
  Http, Exchange, login_body, receive_response, store_token, fazer_login,
}

-- A text that `token_global` has room for.
abbrev IsToken : List ℕ → Type 0
IsToken token = (0 < length token) × (length token < 700)

-- The answer to a login that gives a token.
abbrev pub GivesToken : (List ℕ → Option (Option (List ℕ))) → Exchange → List ℕ → Type 0
GivesToken parse e token =
    (e.client ≡ true)
    × (e.performed ≡ true)
    × (e.status ≡ 200)
    × (0 < length (receive_response e.chunks []))
    × (parse (c_string (receive_response e.chunks [])) ≡ some (some token))
    × (0 < length token)
    × (length token < 700)

store_token_gives :
    (good : Bool) (found : Option (Option (List ℕ))) (h : Http)
    → (store_token good found h).1 ≡ true
    → (good ≡ true)
      × (found ≡ some (some (store_token good found h).0.token))
      × IsToken (store_token good found h).0.token
unfolding store_token
store_token_gives good none h r = absurd (ground arith)
store_token_gives good (some none) h r = absurd (ground arith)
store_token_gives good (some (some token)) h r =
    elim (Bool-cases (good && ltb 0 (length token) && ltb (length token) 700)) [
      | inl fits ↦ simp fits (ground arith, refl, (ground arith, ground arith))
      | inr misfit ↦ absurd (let no_token = simp misfit at r in ground arith)
    ]

store_token_keeps :
    (good : Bool) (found : Option (Option (List ℕ))) (h : Http)
    → (store_token good found h).1 ≡ false
    → (store_token good found h).0 ≡ h
unfolding store_token
store_token_keeps good none h r = refl
store_token_keeps good (some none) h r = refl
store_token_keeps good (some (some token)) h r =
    elim (Bool-cases (good && ltb 0 (length token) && ltb (length token) 700)) [
      | inl fits ↦ absurd (let a_token = simp fits at r in ground arith)
      | inr misfit ↦ simp misfit refl
    ]

store_token_iff :
    (good : Bool) (found : Option (Option (List ℕ))) (h : Http)
    → (token : List ℕ) → good ≡ true
    → found ≡ some (some token)
    → IsToken token
    → store_token good found h ≡ (record h { token = token }, true)
unfolding store_token
store_token_iff good found h token g f t =
    let fits : (good && ltb 0 (length token) && ltb (length token) 700) ≡ true = ground arith in
    simp (f, fits) refl

-- `fazer_login` succeeds exactly when there is a client, the request ends well with status 200 and an
-- answer that is not empty, and the answer is JSON with the token afterwards as its text "access", of 1
-- to 699 characters; otherwise the token is the one from before. No answer is left over.
pub fazer_login_iff :
    (parse : List ℕ → Option (Option (List ℕ))) (server : List ℕ → Exchange)
    (usuario senha : List ℕ) (h : Http)
    → (((fazer_login parse server usuario senha h).1 ≡ true)
        ↔ GivesToken parse
            (server (login_body usuario senha))
            (fazer_login parse server usuario senha h).0.token)
      × (((fazer_login parse server usuario senha h).1 ≡ true)
          ⊎ ((fazer_login parse server usuario senha h).0.token ≡ h.token))
      × ((fazer_login parse server usuario senha h).0.response ≡ [])
unfolding fazer_login
fazer_login_iff parse server usuario senha h =
    let e : Exchange = server (login_body usuario senha) in
    let answer : List ℕ = receive_response e.chunks [] in
    elim (Bool-cases e.client) [
      | inr no_client ↦
          simp no_client ((λ r. absurd (ground arith), λ g. let made = g.0 in cc), inr refl, refl)
      | inl client ↦ elim (Bool-cases (not e.performed || length answer == 0)) [
        | inr heard ↦
            elim (Bool-cases (store_token (e.status == 200) (parse (c_string answer)) h).1) [
              | inl stored ↦
                  let gives = store_token_gives _ _ h stored in
                  simp (client, heard, stored)
                    (
                      (
                        λ r. (
                          refl,
                          ground arith,
                          ground arith,
                          ground arith,
                          gives.1,
                          (gives.2).0,
                          (gives.2).1,
                        ),
                        λ g. refl,
                      ),
                      inl refl,
                      refl,
                    )
              | inr refused ↦
                  let same = store_token_keeps _ _ h refused in
                  simp (client, heard, refused)
                    (
                      (
                        λ r. absurd (ground arith),
                        λ g.
                            let good : (e.status == 200) ≡ true = let ok = g.2 in ground arith in
                            let stores =
                              store_token_iff (e.status == 200) (parse (c_string answer)) h _ good
                                (g.4) (g.5, g.6) in
                            sym refused ∙ ap (λ (r : Http × Bool). r.1) stores,
                      ),
                      inr (ap (λ (x : Http). x.token) same),
                      refl,
                    )
            ]
        | inl unheard ↦
            simp (client, unheard)
              (
                (
                  λ r. absurd (ground arith),
                  λ g. let done = g.1 in let size = g.3 in absurd (ground arith),
                ),
                inr refl,
                refl,
              )
      ]
    ]
