-- ===== src/Wifi/Driver/Balance.antt =====
-- What the SDK holds of the WiFi driver agrees with the program's flags, through every call.
use gtw_jalles_websoket_blue.Prelude.{
  ℕ, ◌+◌, ◌≡◌, refl, inl, inr, Bool, true, false, not, ◌&&◌, ◌||◌, List, [], ◌∷◌, length, ◌==◌,
  Bool-cases, arith,
}
use gtw_jalles_websoket_blue.Esp.{is_ok, is_ok_or_invalid_state}
use gtw_jalles_websoket_blue.Wifi.Driver.{
  Driver, Start, Connect, Event, sta_disconnected, sta_connected, sta_got_ip, sta_lost_ip,
  other_event, got_ip6, Addresses, wifi_event_handler, wifi_start_driver, wifi_deinit,
  start_registered, start_initialised, start_on_netif, wifi_stop_driver, wifi_connect_credentials,
  wait_bits, selected_ready, wifi_sta_has_ip,
}

abbrev pub count : Bool → ℕ
count true = 1
count false = 0

-- The driver is initialised exactly when it is started, each handler is registered once or not at all,
-- and a started driver has its interface, its events and its handlers.
abbrev pub IsBalanced : Driver → Type 0
IsBalanced d =
    (d.inits ≡ count d.wifi_started)
    × (d.wifi_handlers ≡ count d.handlers_registered)
    × (d.ip_handlers ≡ count d.handlers_registered)
    × ((d.wifi_started && not (d.handlers_registered && d.sta_netif && d.event_group)) ≡ false)

-- The driver is balanced after a start, and the start says whether the driver is started.
abbrev pub IsStarted : (Driver × Bool) → Type 0
IsStarted r = IsBalanced r.0 × (r.1 ≡ r.0.wifi_started)

start_registered-IsBalanced :
    (s : Start) (d : Driver)
    → d.wifi_started ≡ false
    → d.inits ≡ 1
    → d.wifi_handlers ≡ 1
    → d.ip_handlers ≡ 1
    → d.handlers_registered ≡ true
    → d.sta_netif ≡ true
    → d.event_group ≡ true
    → IsStarted (start_registered s d)
unfolding start_registered wifi_deinit
start_registered-IsBalanced s d off inits wifis ips reg netif group =
    elim (Bool-cases (is_ok s.start)) [
      | inl ok ↦ simp (ok, inits, wifis, ips, reg, netif, group) ground arith
      | inr bad ↦ simp (bad, off, inits, wifis, ips, reg, netif, group) ground arith
    ]

start_initialised-IsBalanced :
    (s : Start) (d : Driver)
    → d.wifi_started ≡ false
    → d.inits ≡ 1
    → d.wifi_handlers ≡ count d.handlers_registered
    → d.ip_handlers ≡ count d.handlers_registered
    → d.sta_netif ≡ true
    → d.event_group ≡ true
    → IsStarted (start_initialised s d)
unfolding start_initialised wifi_deinit
start_initialised-IsBalanced s d off inits wifis ips netif group =
    elim (Bool-cases (is_ok s.set_mode && is_ok s.set_storage && is_ok s.set_ps)) [
      | inr refused ↦ simp (refused, off, inits) ((refl, wifis, ips, refl), refl)
      | inl set ↦ elim (Bool-cases d.handlers_registered) [
        | inl reg ↦
            simp (set, reg)
              (start_registered-IsBalanced s d off inits (simp reg at wifis) (simp reg at ips) reg
                netif group)
        | inr fresh ↦ elim (Bool-cases (is_ok s.register_wifi)) [
          | inr refused ↦ simp (set, fresh, refused, off, inits) ground arith
          | inl wifi ↦ elim (Bool-cases (is_ok s.register_ip)) [
            | inr refused ↦ simp (set, fresh, wifi, refused, off, inits) ground arith
            | inl ip ↦
                simp (set, fresh, wifi, ip)
                  (start_registered-IsBalanced s
                    (record d {
                      wifi_handlers = d.wifi_handlers + 1;
                      ip_handlers = d.ip_handlers + 1;
                      handlers_registered = true;
                    })
                    off inits (ground arith) (ground arith) refl netif group)
          ]
        ]
      ]
    ]

start_on_netif-IsBalanced :
    (s : Start) (d : Driver)
    → d.wifi_started ≡ false
    → IsBalanced d
    → IsStarted (start_on_netif s d)
unfolding start_on_netif
start_on_netif-IsBalanced s d off b = elim (Bool-cases (not d.sta_netif && not s.netif_made)) [
  | inl none ↦ simp none ground arith
  | inr netif ↦ elim (Bool-cases (not d.event_group && not s.group_made)) [
    | inl none ↦ simp (netif, none) ground arith
    | inr group ↦ elim (Bool-cases (is_ok s.init)) [
      | inr refused ↦ simp (netif, group, refused) ground arith
      | inl init ↦
          simp (netif, group, init)
            (start_initialised-IsBalanced s
              (record d { sta_netif = true; event_group = true; inits = d.inits + 1 }) off
              (ground arith) (b.1) (b.2) refl refl)
    ]
  ]
]

pub wifi_start_driver-IsBalanced :
    (s : Start) (d : Driver) → IsBalanced d → IsStarted (wifi_start_driver s d)
unfolding wifi_start_driver
wifi_start_driver-IsBalanced s d b = elim (Bool-cases d.wifi_started) [
  | inl on ↦ simp on ground arith
  | inr off ↦ elim (Bool-cases d.netif_inited) [
    | inl netif ↦ simp (off, netif) (start_on_netif-IsBalanced s d off b)
    | inr fresh ↦ elim (Bool-cases (is_ok_or_invalid_state s.netif_init)) [
      | inr refused ↦ simp (off, fresh, refused) ground arith
      | inl init ↦ elim (Bool-cases (is_ok_or_invalid_state s.event_loop)) [
        | inr refused ↦ simp (off, fresh, init, refused) ground arith
        | inl loop ↦
            simp (off, fresh, init, loop)
              (start_on_netif-IsBalanced s (record d { netif_inited = true; wifi_started = false })
                refl (simp off at b))
      ]
    ]
  ]
]

pub wifi_stop_driver-IsBalanced :
    (d : Driver)
    → IsBalanced d
    → IsBalanced (wifi_stop_driver d) × ((wifi_stop_driver d).wifi_started ≡ false)
unfolding wifi_stop_driver wifi_deinit
wifi_stop_driver-IsBalanced d b = elim (Bool-cases d.wifi_started) [
  | inl on ↦ simp on ground arith
  | inr off ↦ simp off ground arith
]

-- The calls that only touch the bits leave the rest as it is.
abbrev pub IsSameWith : Driver → Driver → Type 0
IsSameWith d e =
    (e.inits ≡ d.inits)
    × (e.wifi_handlers ≡ d.wifi_handlers)
    × (e.ip_handlers ≡ d.ip_handlers)
    × (e.wifi_started ≡ d.wifi_started)
    × (e.handlers_registered ≡ d.handlers_registered)
    × (e.sta_netif ≡ d.sta_netif)
    × (e.event_group ≡ d.event_group)

wifi_event_handler-IsSameWith : (e : Event) (d : Driver) → IsSameWith d (wifi_event_handler e d)
unfolding wifi_event_handler
wifi_event_handler-IsSameWith sta_disconnected d = (refl, refl, refl, refl, refl, refl, refl)
wifi_event_handler-IsSameWith sta_connected d = (refl, refl, refl, refl, refl, refl, refl)
wifi_event_handler-IsSameWith sta_got_ip d = (refl, refl, refl, refl, refl, refl, refl)
wifi_event_handler-IsSameWith sta_lost_ip d = (refl, refl, refl, refl, refl, refl, refl)
wifi_event_handler-IsSameWith other_event d = (refl, refl, refl, refl, refl, refl, refl)
wifi_event_handler-IsSameWith (got_ip6 usable) d = (refl, refl, refl, refl, refl, refl, refl)

wait_bits-IsSameWith : (v6 : Bool) (es : List Event) (d : Driver) → IsSameWith d (wait_bits v6 es d)
unfolding wait_bits
wait_bits-IsSameWith v6 [] d = (refl, refl, refl, refl, refl, refl, refl)
wait_bits-IsSameWith v6 (e ∷ es) d = elim (Bool-cases (selected_ready v6 d || d.failed)) [
  | inl done ↦ simp done (refl, refl, refl, refl, refl, refl, refl)
  | inr waits ↦
      let one = wifi_event_handler-IsSameWith e d in
      let rest = wait_bits-IsSameWith v6 es (wifi_event_handler e d) in simp waits (ground arith)
]

wifi_connect_credentials-IsSameWith :
    (v6 : Bool) (ssid pass : List ℕ) (c : Connect) (d : Driver)
    → IsSameWith d (wifi_connect_credentials v6 ssid pass c d).0
unfolding wifi_connect_credentials
wifi_connect_credentials-IsSameWith v6 ssid pass c d =
    elim (Bool-cases (not d.wifi_started || not d.event_group || length ssid == 0)) [
      | inl refused ↦ simp refused (refl, refl, refl, refl, refl, refl, refl)
      | inr ready ↦ elim (Bool-cases (is_ok c.set_config)) [
        | inr failed ↦ simp (ready, failed) (refl, refl, refl, refl, refl, refl, refl)
        | inl set ↦ elim (Bool-cases (is_ok c.connect)) [
          | inr failed ↦ simp (ready, set, failed) (refl, refl, refl, refl, refl, refl, refl)
          | inl connected ↦ simp (ready, set, connected) (wait_bits-IsSameWith v6 c.events _)
        ]
      ]
    ]

pub wifi_connect_credentials-IsBalanced :
    (v6 : Bool) (ssid pass : List ℕ) (c : Connect) (d : Driver)
    → IsBalanced d
    → IsBalanced (wifi_connect_credentials v6 ssid pass c d).0
      × ((wifi_connect_credentials v6 ssid pass c d).0.wifi_started ≡ d.wifi_started)
wifi_connect_credentials-IsBalanced v6 ssid pass c d b =
    let same = wifi_connect_credentials-IsSameWith v6 ssid pass c d in ground arith

pub wifi_sta_has_ip-IsBalanced :
    (v6 : Bool) (a : Addresses) (d : Driver)
    → IsBalanced d
    → IsBalanced (wifi_sta_has_ip v6 a d).0
      × ((wifi_sta_has_ip v6 a d).0.wifi_started ≡ d.wifi_started)
unfolding wifi_sta_has_ip
wifi_sta_has_ip-IsBalanced v6 a d b =
    elim (Bool-cases (not d.wifi_started || not d.sta_netif || not d.event_group)) [
      | inl off ↦ simp off (b, refl)
      | inr on ↦ elim (Bool-cases v6) [
        | inl six ↦ simp (on, six) (b, refl)
        | inr four ↦ simp (on, four) (b, refl)
      ]
    ]
