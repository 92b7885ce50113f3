-- ===== src/Websocket/Gone.antt =====
-- How the WebSocket's task ends by itself: a connection that stays away, and a set-up that keeps failing.
use gtw_jalles_websoket_blue.Prelude.{
  ℕ, ◌+◌, ◌*◌, ◌%◌, ◌^◌, ◌≤◌, ◌<◌, ◌≡◌, refl, ap, ◌∙◌, Bool, true, false, not, ◌&&◌, length, leb,
  ◌==◌, inl, inr, Bool-cases, if-elim, arith, subst, sym,
}
use gtw_jalles_websoket_blue.Esp.{is_ok}
use gtw_jalles_websoket_blue.Http.{Http}
use gtw_jalles_websoket_blue.Network.{Transport, Making, gtw_websocket_transport_init}
use gtw_jalles_websoket_blue.Websocket.{
  Place, ended, connecting, watching, Ws, has_token, websocket_wait_before_setup_retry, finish,
  retry_or_finish, setup_failed, Setup, open_client, connect_pass, close_client, watch_pass,
  pass_at, connect_to_websocket_pass,
}
use gtw_jalles_websoket_blue.Prelude.{zero, suc}

-- A pass repeated.
unfoldable pub passes : ℕ → Setup → Bool → Ws → Ws
passes zero s connected w = w
passes (suc n) s connected w = passes n s connected (connect_to_websocket_pass s connected w)

-- The task is at the top of its outer loop, is to end, and asks to be made again.
record Closing (w u : Ws) : Type 0 where
  place : (failure_ms : ℕ) × (u.place ≡ connecting failure_ms)
  stop : u.stop ≡ true
  request : u.restart_requested ≡ true
  http : u.http ≡ w.http

-- The task has ended and asks to be made again; the token is untouched.
pub record AsksAgain (w u : Ws) : Type 0 where
  pub place : u.place ≡ ended
  pub handle : u.handle ≡ false
  pub request : u.restart_requested ≡ true
  pub http : u.http ≡ w.http

finish_lem :
    (s : Setup) (connected : Bool) (w u : Ws)
    → Closing w u
    → AsksAgain w (connect_to_websocket_pass s connected u)
unfolding connect_to_websocket_pass pass_at connect_pass finish
finish_lem s connected w u c =
    let (failure_ms, at) = c.place in
    simp (at, c.stop) (record { place = refl; handle = refl; request = c.request; http = c.http })

-- The task waits on.
pub record Waits (w u : Ws) (p : Place) : Type 0 where
  pub place : u.place ≡ p
  pub stop : u.stop ≡ false
  pub http : u.http ≡ w.http

watch_late :
    (s : Setup) (w u : Ws) (log_ms total_ms : ℕ)
    → Waits w u (watching log_ms total_ms)
    → 60000 ≤ total_ms + 1000
    → Closing w (connect_to_websocket_pass s false u)
unfolding connect_to_websocket_pass pass_at watch_pass close_client
watch_late s w u log_ms total_ms v late =
    let over : leb 60000 (total_ms + 1000) ≡ true = ground arith in
    simp (v.place, v.stop, over)
      (record { place = (0, refl); stop = refl; request = refl; http = v.http })

watch_on :
    (s : Setup) (w u : Ws) (log_ms total_ms : ℕ)
    → Waits w u (watching log_ms total_ms)
    → total_ms + 1000 < 60000
    → (log : ℕ) × Waits w (connect_to_websocket_pass s false u) (watching log (total_ms + 1000))
unfolding connect_to_websocket_pass pass_at watch_pass
watch_on s w u log_ms total_ms v low =
    let over : leb 60000 (total_ms + 1000) ≡ false = ground arith in
    simp (v.place, v.stop, over) (_, record { place = refl; stop = refl; http = v.http })

pub silence_lem :
    (n : ℕ) (s : Setup) (log_ms total_ms : ℕ) (w u : Ws)
    → Waits w u (watching log_ms total_ms)
    → total_ms + 1000 * suc n ≡ 60000
    → AsksAgain w (passes (suc (suc n)) s false u)
unfolding passes
silence_lem zero s log_ms total_ms w u v enough =
    finish_lem s false w _ (watch_late s w u log_ms total_ms v (omega arith))
silence_lem (suc n) s log_ms total_ms w u v enough =
    let (log, on) = watch_on s w u log_ms total_ms v (omega arith) in
    silence_lem n s log (total_ms + 1000) w _ on (omega arith)

-- A set-up in which something goes wrong.
unfoldable pub fails : Setup → Bool
fails s = not (
    s.copied
    && s.making.tls_made
    && s.making.websocket_made
    && is_ok s.making.set_config
    && s.client_made
    && is_ok s.registered
    && is_ok s.started)

setup_failed-late :
    (w u : Ws) (failure_ms : ℕ)
    → u.stop ≡ false
    → u.http ≡ w.http
    → failure_ms + 5000 ≡ 60000
    → AsksAgain w (setup_failed failure_ms u)
unfolding setup_failed websocket_wait_before_setup_retry retry_or_finish finish
setup_failed-late w u failure_ms going same late =
    let over : leb 60000 ((failure_ms + 5000) % 2 ^ 32) ≡ true = ground arith in
    simp (going, over) (record { place = refl; handle = refl; request = refl; http = same })

setup_failed-on :
    (w u : Ws) (failure_ms : ℕ)
    → u.stop ≡ false
    → u.http ≡ w.http
    → failure_ms + 5000 < 60000
    → Waits w (setup_failed failure_ms u) (connecting (failure_ms + 5000))
unfolding setup_failed websocket_wait_before_setup_retry retry_or_finish
setup_failed-on w u failure_ms going same low =
    let exact : (failure_ms + 5000) % 2 ^ 32 ≡ failure_ms + 5000 = omega arith in
    let over : leb 60000 (failure_ms + 5000) ≡ false = ground arith in
    simp (going, exact, over) (record { place = refl; stop = refl; http = same })

init_answer :
    (m : Making) (t : Transport)
    → is_ok (gtw_websocket_transport_init m t).1
      ≡ (m.tls_made && m.websocket_made && is_ok m.set_config)
unfolding gtw_websocket_transport_init
init_answer m t = elim (Bool-cases m.tls_made) [
  | inr nothing ↦ simp nothing refl
  | inl made ↦ elim (Bool-cases m.websocket_made) [
    | inr alone ↦ simp (made, alone) refl
    | inl pair ↦ elim (Bool-cases (is_ok m.set_config)) [
      | inl set ↦ simp (made, pair, set) refl
      | inr refused ↦ simp (made, pair, refused) refl
    ]
  ]
]

-- A pass that ends in `websocket_wait_before_setup_retry`.
record Failed (failure_ms : ℕ) (u x : Ws) : Type 0 where
  state : (v : Ws) × (x ≡ setup_failed failure_ms v) × (v.stop ≡ u.stop) × (v.http ≡ u.http)

success_excluded :
    (copied tls ws set ok made registered started : Bool)
    → not (copied && tls && ws && set && made && registered && started) ≡ true
    → ok ≡ (tls && ws && set)
    → not copied ≡ false
    → not ok ≡ false
    → not made ≡ false
    → not registered ≡ false
    → not started ≡ false
    → ⊥
success_excluded copied tls ws set ok made registered started f o a b c d e = ground arith

open_client-Failed :
    (s : Setup) (failure_ms : ℕ) (u : Ws)
    → fails s ≡ true
    → not s.copied ≡ false
    → Failed failure_ms u (open_client s failure_ms (record u { urls = u.urls + 1 }))
unfolding open_client fails
open_client-Failed s failure_ms u f copied =
    if-elim (Failed failure_ms u)
      (not (is_ok (gtw_websocket_transport_init s.making u.transport).1))
      (λ bad. record { state = (_, refl, refl, refl) })
      (λ good.
        if-elim (Failed failure_ms u) (not s.client_made)
          (λ no_client. record { state = (_, refl, refl, refl) })
          (λ made.
            if-elim (Failed failure_ms u) (not (is_ok s.registered))
              (λ deaf. record { state = (_, refl, refl, refl) })
              (λ hears.
                if-elim (Failed failure_ms u) (not (is_ok s.started))
                  (λ still. record { state = (_, refl, refl, refl) })
                  (λ starts. absurd (
                    success_excluded s.copied s.making.tls_made s.making.websocket_made
                      (is_ok s.making.set_config)
                      (is_ok (gtw_websocket_transport_init s.making u.transport).1) s.client_made
                      (is_ok s.registered) (is_ok s.started) f (init_answer s.making u.transport)
                      copied good made hears starts)))))

connect_fails :
    (s : Setup) (w u : Ws) (failure_ms : ℕ)
    → Waits w u (connecting failure_ms)
    → has_token w ≡ true
    → s.net ≡ true
    → fails s ≡ true
    → Failed failure_ms u (connect_pass s failure_ms u)
unfolding connect_pass
connect_fails s w u failure_ms v token net f =
    if-elim (Failed failure_ms u) u.stop (λ stopped. absurd (ground (arith, v.stop)))
      (λ going.
        if-elim (Failed failure_ms u) (not (has_token u && s.net))
          (λ not_ready. absurd (unready not_ready))
          (λ is_ready.
            if-elim (Failed failure_ms u) (not s.copied)
              (λ no_memory. record { state = (u, refl, refl, refl) })
              (λ copied. open_client-Failed s failure_ms u f copied)))
  where
    known : has_token u ≡ true
    known = ap (λ (h : Http). h.token_ok && not (length h.token == 0)) v.http ∙ token

    unready : not (has_token u && s.net) ≡ true → ⊥
    unready h = ground arith

at_connecting :
    (s : Setup) (connected : Bool) (u : Ws) (failure_ms : ℕ)
    → u.place ≡ connecting failure_ms
    → pass_at u.place s connected u ≡ connect_pass s failure_ms u
unfolding pass_at
at_connecting s connected u failure_ms e = ap (λ (p : Place). pass_at p s connected u) e

pub setup_fails_lem :
    (n : ℕ) (s : Setup) (connected : Bool) (failure_ms : ℕ) (w u : Ws)
    → Waits w u (connecting failure_ms)
    → has_token w ≡ true
    → s.net ≡ true
    → fails s ≡ true
    → failure_ms + 5000 * suc n ≡ 60000
    → AsksAgain w (passes (suc n) s connected u)
unfolding passes connect_to_websocket_pass
setup_fails_lem zero s connected failure_ms w u v token net f enough =
    let (x, e, same_stop, same_http) = (connect_fails s w u failure_ms v token net f).state in
    subst (AsksAgain w) (sym (at_connecting s connected u failure_ms v.place ∙ e))
      (setup_failed-late w x failure_ms (same_stop ∙ v.stop) (same_http ∙ v.http) (omega arith))
setup_fails_lem (suc n) s connected failure_ms w u v token net f enough =
    let (x, e, same_stop, same_http) = (connect_fails s w u failure_ms v token net f).state in
    setup_fails_lem n s connected (failure_ms + 5000) w _
      (subst (λ (y : Ws). Waits w y (connecting (failure_ms + 5000)))
        (sym (at_connecting s connected u failure_ms v.place ∙ e))
        (setup_failed-on w x failure_ms (same_stop ∙ v.stop) (same_http ∙ v.http) (omega arith)))
      token net f (omega arith)
