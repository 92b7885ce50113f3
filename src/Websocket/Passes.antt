-- ===== src/Websocket/Passes.antt =====
-- The passes of the WebSocket's task keep its books.
use gtw_jalles_websoket_blue.Prelude.{
  ℕ, ◌+◌, ◌-◌, ◌*◌, ◌≤◌, ◌<◌, ◌≡◌, refl, ap, ◌∙◌, Bool, true, false, not, ◌&&◌, length, leb,
  if-elim, All, arith, subst, sym,
}
use gtw_jalles_websoket_blue.Esp.{is_ok}
use gtw_jalles_websoket_blue.Network.{
  Transport, Making, gtw_websocket_transport_init, gtw_websocket_transport_cleanup,
  gtw_websocket_transport_init_balanced,
}
use gtw_jalles_websoket_blue.Websocket.{
  Place, ended, connecting, watching, Ws, has_token, setup_failed, Setup, open_client, connect_pass,
  close_client, watch_pass, pass_at,
}
use gtw_jalles_websoket_blue.Websocket.Settled.{
  is_watching, is_running, waited_ms, if_one, IsMessage, IsSettled, IsBare, nothing_left,
  finish-IsSettled, setup_failed-IsSettled,
}

-- What the transport is after its preparation, by how that ended.
transport_lem :
    (m : Making) (t : Transport)
    → t.live ≡ 0
    → (is_ok (gtw_websocket_transport_init m t).1 ≡ false
        → ((gtw_websocket_transport_init m t).0.tls ≡ false)
          × ((gtw_websocket_transport_init m t).0.websocket ≡ false)
          × ((gtw_websocket_transport_init m t).0.live ≡ 0))
      × (is_ok (gtw_websocket_transport_init m t).1 ≡ true
          → ((gtw_websocket_transport_init m t).0.tls ≡ true)
            × ((gtw_websocket_transport_init m t).0.websocket ≡ true)
            × ((gtw_websocket_transport_init m t).0.live ≡ 2))
transport_lem m t none_live =
    let (tls, websocket, live, back) = gtw_websocket_transport_init_balanced m t in
    (λ failed. (cc, cc, ground (arith, live)), λ ready. (cc, cc, ground (arith, live)))

cleaned :
    (m : Making) (t : Transport)
    → t.live ≡ 0
    → let c = gtw_websocket_transport_cleanup (gtw_websocket_transport_init m t).0 in
      (c.tls ≡ false) × (c.websocket ≡ false) × (c.live ≡ 0)
unfolding gtw_websocket_transport_cleanup
cleaned m t none_live =
    let (tls, websocket, live, back) = gtw_websocket_transport_init_balanced m t in
    (refl, refl, omega (arith, back))

-- A set-up that failed, with the client, the address and the transport given back.
given_back :
    (failure_ms : ℕ) (w u : Ws)
    → failure_ms < 60000
    → u.handle ≡ true
    → IsBare w
    → (u.client ≡ false) × (u.url ≡ false) × (u.clients ≡ 0) × (u.urls ≡ 0)
    → (u.transport.tls ≡ false) × (u.transport.websocket ≡ false) × (u.transport.live ≡ 0)
    → u.messages ≡ w.messages
    → IsSettled (setup_failed failure_ms u)
given_back failure_ms w u low running b (client, url, clients, urls) (tls, websocket, live) same =
    setup_failed-IsSettled failure_ms u low running (record {
      client = client;
      url = url;
      clients = clients;
      urls = urls;
      tls = tls;
      websocket = websocket;
      transports = live;
      room = subst (λ ms. length ms ≤ 20) (sym same) b.room;
      messages = subst (All IsMessage) (sym same) b.messages;
    })

-- A set-up that succeeded.
now_watching :
    (w : Ws) (t : Transport)
    → w.handle ≡ true
    → IsBare w
    → (t.tls ≡ true) × (t.websocket ≡ true) × (t.live ≡ 2)
    → IsSettled (record w {
      transport = t;
      clients = w.clients + 1;
      urls = w.urls + 1;
      client = true;
      url = true;
      place = watching 0 0;
    })
now_watching w t running b (tls, websocket, live) = record {
  handle = running;
  client = refl;
  url = refl;
  clients = omega (arith, b.clients);
  urls = omega (arith, b.urls);
  tls = tls;
  websocket = websocket;
  transports = live;
  connected = λ h. refl;
  waited = omega arith;
  room = b.room;
  messages = b.messages;
}

open_client-IsSettled :
    (s : Setup) (failure_ms : ℕ) (w : Ws)
    → failure_ms < 60000
    → w.handle ≡ true
    → IsBare w
    → IsSettled (open_client s failure_ms (record w { urls = w.urls + 1 }))
unfolding open_client
open_client-IsSettled s failure_ms w low running b =
    let (failed, ready) = transport_lem s.making w.transport b.transports in
    let clean = cleaned s.making w.transport b.transports in
    let one_less : w.urls + 1 - 1 ≡ 0 = omega (arith, b.urls) in
    let none_open : w.clients + 1 - 1 ≡ 0 = omega (arith, b.clients) in
    if-elim IsSettled (not (is_ok (gtw_websocket_transport_init s.making w.transport).1))
      (λ bad.
        given_back failure_ms w _ low running b (b.client, b.url, b.clients, one_less)
          (failed (ground arith)) refl)
      (λ good.
        if-elim IsSettled (not s.client_made)
          (λ no_client.
            given_back failure_ms w _ low running b (b.client, b.url, b.clients, one_less) clean
              refl)
          (λ made.
            if-elim IsSettled (not (is_ok s.registered))
              (λ deaf.
                given_back failure_ms w _ low running b (b.client, b.url, none_open, one_less) clean
                  refl)
              (λ hears.
                if-elim IsSettled (not (is_ok s.started))
                  (λ still.
                    given_back failure_ms w _ low running b (refl, refl, none_open, one_less) clean
                      refl)
                  (λ starts. now_watching w _ running b (ready (ground arith))))))

connect_pass-IsSettled :
    (s : Setup) (failure_ms : ℕ) (w : Ws)
    → w.place ≡ connecting failure_ms
    → IsSettled w
    → IsSettled (connect_pass s failure_ms w)
unfolding connect_pass
connect_pass-IsSettled s failure_ms w e v =
    let b = nothing_left w v (rw e refl) in
    let running : w.handle ≡ true = v.handle ∙ rw e refl in
    let low : failure_ms < 60000 = subst (λ (p : Place). waited_ms p < 60000) e v.waited in
    if-elim IsSettled w.stop (λ stopped. finish-IsSettled w b)
      (λ going.
        if-elim IsSettled (not (has_token w && s.net)) (λ not_ready. v)
          (λ is_ready.
            if-elim IsSettled (not s.copied)
              (λ no_memory. setup_failed-IsSettled failure_ms w low running b)
              (λ copied. open_client-IsSettled s failure_ms w low running b)))

close_client-IsSettled :
    (w : Ws) (stop restart : Bool)
    → is_watching w.place ≡ true
    → IsSettled w
    → IsSettled (close_client (record w { stop = stop; restart_requested = restart }))
unfolding close_client gtw_websocket_transport_cleanup
close_client-IsSettled w stop restart at v = record {
  handle = v.handle ∙ running w.place at;
  client = refl;
  url = refl;
  clients = omega (arith, v.clients, ap if_one at);
  urls = omega (arith, v.urls, ap if_one at);
  tls = refl;
  websocket = refl;
  transports = rw (v.tls, v.websocket, at) (omega (arith, v.transports, ap if_one at));
  connected = λ h. cc;
  waited = omega arith;
  room = v.room;
  messages = v.messages;
}
  where
    running : (p : Place) → is_watching p ≡ true → is_running p ≡ true
    running ended h = cc
    running (connecting f) h = refl
    running (watching l t) h = refl

watch_pass-IsSettled :
    (connected : Bool) (log_ms total_ms : ℕ) (w : Ws)
    → w.place ≡ watching log_ms total_ms
    → IsSettled w
    → IsSettled (watch_pass connected log_ms total_ms w)
unfolding watch_pass
watch_pass-IsSettled connected log_ms total_ms w e v =
    let at : is_watching w.place ≡ true = rw e refl in
    if-elim IsSettled w.stop (λ stopped. close_client-IsSettled w w.stop w.restart_requested at v)
      (λ going.
        if-elim IsSettled connected (λ up. stays_watching 0 0 (omega arith))
          (λ down.
            if-elim IsSettled (leb 60000 (total_ms + 1000))
              (λ late. close_client-IsSettled w true true at v)
              (λ soon. stays_watching _ _ (ground arith))))
  where
    stays_watching : (l t : ℕ) → t < 60000 → IsSettled (record w { place = watching l t })
    stays_watching l t low =
        let at : is_watching w.place ≡ true = rw e refl in
        record {
          handle = v.handle ∙ rw e refl;
          client = v.client ∙ at;
          url = v.url ∙ at;
          clients = v.clients ∙ ap if_one at;
          urls = v.urls ∙ ap if_one at;
          tls = v.tls ∙ at;
          websocket = v.websocket ∙ at;
          transports = v.transports ∙ ap (λ b. 2 * if_one b) at;
          connected = λ h. refl;
          waited = low;
          room = v.room;
          messages = v.messages;
        }

pub pass_at-IsSettled :
    (p : Place) (s : Setup) (connected : Bool) (w : Ws)
    → w.place ≡ p
    → IsSettled w
    → IsSettled (pass_at p s connected w)
unfolding pass_at
pass_at-IsSettled ended s connected w e v = v
pass_at-IsSettled (connecting failure_ms) s connected w e v =
    connect_pass-IsSettled s failure_ms w e v
pass_at-IsSettled (watching log_ms total_ms) s connected w e v =
    watch_pass-IsSettled connected log_ms total_ms w e v
