-- ===== src/Websocket/Restart.antt =====
-- How the WebSocket's task comes back: after a connection that stays away, after a set-up that keeps
-- failing, and after a login.
use gtw_jalles_websoket_blue.Prelude.{
  ℕ, ◌+◌, ◌*◌, ◌≡◌, refl, ap, ◌∙◌, Bool, true, false, not, ◌&&◌, ◌||◌, length, ltb, ◌==◌, if-elim,
  arith,
}
use gtw_jalles_websoket_blue.Http.{Http, fazer_login}
use gtw_jalles_websoket_blue.Websocket.{
  Place, connecting, watching, Ws, websocket_task_is_running, has_token, Start,
  websocket_task_start_if_needed, finish, Setup, connect_pass, close_client, watch_pass, pass_at,
  connect_to_websocket_pass,
}
use gtw_jalles_websoket_blue.Websocket.Login.{
  LoginTry, LoginPlace, login_done, login_task_try, login_task_stopped, restart_websocket,
  MemoryRound, goes_on, v_task_imprimir_uso_memoria,
}
use gtw_jalles_websoket_blue.Prelude.{suc}
use gtw_jalles_websoket_blue.Http.Login.{fazer_login_iff}
use gtw_jalles_websoket_blue.Websocket.Gone.{passes, AsksAgain, silence_lem, fails, setup_fails_lem}

-- A round of the memory task at a task that asks to be made again.
pub record IsMadeAgain (w u : Ws) : Type 0 where
  pub place : u.place ≡ connecting 0
  pub handle : u.handle ≡ true
  pub stop : u.stop ≡ false
  pub request : u.restart_requested ≡ false
  pub http : u.http ≡ w.http

abbrev Makes : Ws → Ws × Bool → Type 0
Makes w x = IsMadeAgain w x.0

starts_new :
    (a : Start) (w u : Ws)
    → u.http ≡ w.http
    → u.handle ≡ false
    → has_token w ≡ true
    → a.net ≡ true
    → a.lock ≡ true
    → a.created ≡ true
    → IsMadeAgain w (websocket_task_start_if_needed a u).0
unfolding websocket_task_start_if_needed
starts_new a w u same gone token net lock created =
    if-elim (Makes w) (not (has_token u && a.net)) (λ not_ready. absurd (unready not_ready))
      (λ ready.
        if-elim (Makes w) (not a.lock) (λ busy. absurd (ground arith))
          (λ free.
            if-elim (Makes w) u.handle (λ runs. absurd (ground arith))
              (λ ended.
                if-elim (Makes w) (not a.created) (λ refused. absurd (ground arith))
                  (λ new. record {
                    place = refl;
                    handle = refl;
                    stop = refl;
                    request = refl;
                    http = same;
                  }))))
  where
    known : has_token u ≡ true
    known = ap (λ (h : Http). h.token_ok && not (length h.token == 0)) same ∙ token

    unready : not (has_token u && a.net) ≡ true → ⊥
    unready h = ground arith

made_again :
    (boot_cycles : ℕ) (a : Start) (w u : Ws)
    → AsksAgain w u
    → has_token w ≡ true
    → a.net ≡ true
    → a.lock ≡ true
    → a.created ≡ true
    → IsMadeAgain w (restart_websocket boot_cycles true a u)
unfolding restart_websocket websocket_task_is_running
made_again boot_cycles a w u v token net lock created =
    if-elim (IsMadeAgain w)
      ((ltb 3 boot_cycles || u.restart_requested) && not u.handle && (has_token u && a.net))
      (λ wanted. starts_new a w u v.http v.handle token net lock created)
      (λ not_wanted. absurd (unwanted not_wanted))
  where
    known : has_token u ≡ true
    known = ap (λ (h : Http). h.token_ok && not (length h.token == 0)) v.http ∙ token

    wanted_lem :
        (b c d e : Bool) → c ≡ true → d ≡ true → e ≡ true → ((b || c) && d && e) ≡ false → ⊥
    wanted_lem b c d e x y z h = ground arith

    unwanted :
        ((ltb 3 boot_cycles || u.restart_requested) && not u.handle && (has_token u && a.net))
          ≡ false
        → ⊥
    unwanted h =
        wanted_lem (ltb 3 boot_cycles) u.restart_requested (not u.handle) (has_token u && a.net)
          v.request (ap not v.handle) (ground arith) h

-- A round of the memory task that goes on and leaves a task made again.
pub data RoundMakes (w : Ws) : MemoryRound → Type 0 where
  made : (u : Ws) (boot_cycles : ℕ) → IsMadeAgain w u → RoundMakes w (goes_on u boot_cycles)

round_makes :
    (critical ble : Bool) (boot_cycles : ℕ) (a : Start) (w u : Ws)
    → critical ≡ false
    → AsksAgain w u
    → has_token w ≡ true
    → a.net ≡ true
    → a.lock ≡ true
    → a.created ≡ true
    → RoundMakes w (v_task_imprimir_uso_memoria critical ble boot_cycles true a u)
unfolding v_task_imprimir_uso_memoria
round_makes critical ble boot_cycles a w u enough_heap v token net lock created =
    simp enough_heap (made _ _ (made_again boot_cycles a w u v token net lock created))

-- A task that finds its client without a connection in every pass, until a minute is full (`n` passes
-- more), ends one pass later; and the next round of the memory task goes on and makes a new one, with the
-- same token, if at most 94% of the heap is in use in that round, the token is valid, WiFi is up, the
-- mutex is free and the task can be created.
pub silence_restarts :
    (n : ℕ) (s : Setup) (log_ms total_ms : ℕ) (critical ble : Bool) (boot_cycles : ℕ) (a : Start)
    (w : Ws)
    → w.place ≡ watching log_ms total_ms
    → w.stop ≡ false
    → total_ms + 1000 * suc n ≡ 60000
    → critical ≡ false
    → has_token w ≡ true
    → a.net ≡ true
    → a.lock ≡ true
    → a.created ≡ true
    → AsksAgain w (passes (suc (suc n)) s false w)
      × RoundMakes w (
          v_task_imprimir_uso_memoria critical ble boot_cycles true a
            (passes (suc (suc n)) s false w))
silence_restarts n s log_ms total_ms critical ble boot_cycles a w at going enough heap token net
      lock created =
    let gone =
      silence_lem n s log_ms total_ms w w (record { place = at; stop = going; http = refl })
        enough in
    (gone, round_makes critical ble boot_cycles a w _ heap gone token net lock created)

-- A task with a valid token and WiFi whose set-up fails in every pass, whatever fails, ends when the
-- failures of 5 seconds fill a minute (`n` passes more), 12 passes after its start; and the next round of
-- the memory task goes on and makes a new one, if at most 94% of the heap is in use in that round, WiFi is
-- still up, the mutex is free and the task can be created.
pub setup_failures_restart :
    (n : ℕ) (s : Setup) (connected : Bool) (failure_ms : ℕ) (critical ble : Bool) (boot_cycles : ℕ)
    (a : Start) (w : Ws)
    → w.place ≡ connecting failure_ms
    → w.stop ≡ false
    → failure_ms + 5000 * suc n ≡ 60000
    → has_token w ≡ true
    → s.net ≡ true
    → fails s ≡ true
    → critical ≡ false
    → a.net ≡ true
    → a.lock ≡ true
    → a.created ≡ true
    → AsksAgain w (passes (suc n) s connected w)
      × RoundMakes w (
          v_task_imprimir_uso_memoria critical ble boot_cycles true a
            (passes (suc n) s connected w))
setup_failures_restart n s connected failure_ms critical ble boot_cycles a w at going enough token
      net f heap wifi lock created =
    let gone =
      setup_fails_lem n s connected failure_ms w w
        (record { place = at; stop = going; http = refl }) token net f enough in
    (gone, round_makes critical ble boot_cycles a w _ heap gone token wifi lock created)

-- The state after a login that succeeds while the task watches its client, two passes of the task, and
-- the end of the login task's wait.
abbrev pub renewed : LoginTry → Setup → Setup → Bool → Start → Ws → Ws
renewed e s s' connected a w =
    (login_task_stopped true a (
      connect_to_websocket_pass s' connected
        (connect_to_websocket_pass s connected (login_task_try e w).0))).0

got_token :
    (e : LoginTry) (h : Http)
    → (fazer_login e.parse e.server e.user e.password h).1 ≡ true
    → not (length (fazer_login e.parse e.server e.user e.password h).0.token == 0) ≡ true
got_token e h logged =
    let (iff, kept, empty) = fazer_login_iff e.parse e.server e.user e.password h in
    let (client, performed, status, heard, found, some_text, fits) = iff.0 logged in
    ground (arith, some_text)

-- The new token, stored and valid.
abbrev pub new_http : LoginTry → Ws → Http
new_http e w = record (fazer_login e.parse e.server e.user e.password w.http).0 { token_ok = true }

abbrev AsksStop : LoginTry → Ws → Ws × LoginPlace → Type 0
AsksStop e w x = x.0 ≡ (record w { http = new_http e w; connectado = false; stop = true })

abbrev Resumes : Ws → Ws × LoginPlace → Type 0
Resumes w x = IsMadeAgain w x.0

runs_lem : (look : Bool) (w : Ws) → w.handle ≡ true → websocket_task_is_running look w ≡ true
unfolding websocket_task_is_running
runs_lem true w h = h
runs_lem false w h = refl

login_done_lem :
    (e : LoginTry) (w : Ws)
    → w.handle ≡ true
    → (login_done e w).0 ≡ (record w { connectado = false; stop = true })
unfolding login_done
login_done_lem e w h = let runs = runs_lem e.look w h in simp runs refl

login_asks_stop :
    (e : LoginTry) (w : Ws)
    → w.handle ≡ true
    → e.net ≡ true
    → e.lock ≡ true
    → (fazer_login e.parse e.server e.user e.password w.http).1 ≡ true
    → (login_task_try e w).0 ≡ (record w { http = new_http e w; connectado = false; stop = true })
unfolding login_task_try
login_asks_stop e w running net lock logged =
    if-elim (AsksStop e w) (not e.net) (λ off. absurd (ground arith))
      (λ up.
        if-elim (AsksStop e w) (not e.lock) (λ busy. absurd (ground arith))
          (λ free.
            if-elim (AsksStop e w) (fazer_login e.parse e.server e.user e.password w.http).1
              (λ good. login_done_lem e (record w { http = new_http e w }) running)
              (λ bad. absurd (cc))))

-- The task is asked to end, and stands at `place`.
record Stopping (http : Http) (p : Place) (u : Ws) : Type 0 where
  at : u.place ≡ p
  stop : u.stop ≡ true
  same : u.http ≡ http

closes_when_asked :
    (s : Setup) (connected : Bool) (http : Http) (log_ms total_ms : ℕ) (u : Ws)
    → Stopping http (watching log_ms total_ms) u
    → Stopping http (connecting 0) (connect_to_websocket_pass s connected u)
unfolding connect_to_websocket_pass pass_at watch_pass close_client
closes_when_asked s connected http log_ms total_ms u v =
    simp (v.at, v.stop) (record { at = refl; stop = refl; same = v.same })

ends_when_asked :
    (s : Setup) (connected : Bool) (http : Http) (failure_ms : ℕ) (u : Ws)
    → Stopping http (connecting failure_ms) u
    → ((connect_to_websocket_pass s connected u).handle ≡ false)
      × ((connect_to_websocket_pass s connected u).http ≡ http)
unfolding connect_to_websocket_pass pass_at connect_pass finish
ends_when_asked s connected http failure_ms u v = simp (v.at, v.stop) (refl, v.same)

starts_after_wait :
    (a : Start) (w u : Ws)
    → u.http ≡ w.http
    → u.handle ≡ false
    → has_token w ≡ true
    → a.net ≡ true
    → a.lock ≡ true
    → a.created ≡ true
    → IsMadeAgain w (login_task_stopped true a u).0
unfolding login_task_stopped websocket_task_is_running
starts_after_wait a w u same gone token net lock created =
    if-elim (Resumes w) u.handle (λ runs. absurd (ground arith))
      (λ ended. starts_new a w u same gone token net lock created)

-- A login that succeeds while the task watches its client makes the task end in two passes, whatever the
-- SDK answers, and then, if WiFi is up, the mutex is free and a task can be created, a new task, which
-- has the new token.
pub login_renews :
    (e : LoginTry) (s s' : Setup) (connected : Bool) (log_ms total_ms : ℕ) (a : Start) (w : Ws)
    → w.place ≡ watching log_ms total_ms
    → w.handle ≡ true
    → e.net ≡ true
    → e.lock ≡ true
    → (fazer_login e.parse e.server e.user e.password w.http).1 ≡ true
    → a.net ≡ true
    → a.lock ≡ true
    → a.created ≡ true
    → IsMadeAgain (record w { http = new_http e w }) (renewed e s s' connected a w)
login_renews e s s' connected log_ms total_ms a w at running net lock logged wifi free created =
    let asked = login_asks_stop e w running net lock logged in
    let stopping : Stopping (new_http e w) (watching log_ms total_ms) (login_task_try e w).0 =
      rw asked (record { at = at; stop = refl; same = refl }) in
    let (gone, same) =
      ends_when_asked s' connected (new_http e w) 0 _
        (closes_when_asked s connected (new_http e w) log_ms total_ms _ stopping) in
    starts_after_wait a (record w { http = new_http e w }) _ same gone (got_token e w.http logged)
      wifi free created
