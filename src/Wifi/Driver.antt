-- ===== src/Wifi/Driver.antt =====
-- The WiFi driver: main/wifi.c. The SDK's part of the state is what it holds of the program's: how often
-- the driver and the two event handlers are registered with it, and the credentials it was given.
pub mod Balance
use gtw_jalles_websoket_blue.Prelude.{
  ℕ, ◌+◌, ◌-◌, Bool, true, false, not, ◌&&◌, ◌||◌, List, [], ◌∷◌, length, take, ltb, ◌==◌,
  if◌then◌else◌,
}
use gtw_jalles_websoket_blue.Esp.{EspErr, is_ok, is_ok_or_invalid_state}
use gtw_jalles_websoket_blue.Text.{contains, c_string}

-- The static variables, with the three bits of `wifi_event_group` (`event_group`: it was made).
pub record Driver : Type 0 where
  pub netif_inited : Bool
  pub wifi_started : Bool
  pub handlers_registered : Bool
  pub sta_netif : Bool
  pub event_group : Bool
  pub ipv4_ready : Bool
  pub ipv6_ready : Bool
  pub failed : Bool
  pub inits : ℕ
  pub wifi_handlers : ℕ
  pub ip_handlers : ℕ
  pub ssid : List ℕ
  pub password : List ℕ

-- The events of the SDK; `usable` says that an IPv6 address is global or unique local.
pub data Event : Type 0 where
  sta_disconnected sta_connected sta_got_ip sta_lost_ip other_event : Event
  got_ip6 : (usable : Bool) → Event

unfoldable pub wifi_event_handler : Event → Driver → Driver
wifi_event_handler sta_disconnected d = record d {
  ipv4_ready = false;
  ipv6_ready = false;
  failed = true;
}
wifi_event_handler sta_connected d = d
wifi_event_handler sta_got_ip d = record d { ipv4_ready = true }
wifi_event_handler (got_ip6 usable) d = record d { ipv6_ready = d.ipv6_ready || usable }
wifi_event_handler sta_lost_ip d = record d { ipv4_ready = false }
wifi_event_handler other_event d = d

-- The answers of the SDK to `wifi_start_driver`, in the order of the calls.
pub record Start : Type 0 where
  pub netif_init : EspErr
  pub event_loop : EspErr
  pub netif_made : Bool
  pub group_made : Bool
  pub init : EspErr
  pub set_mode : EspErr
  pub set_storage : EspErr
  pub set_ps : EspErr
  pub register_wifi : EspErr
  pub register_ip : EspErr
  pub start : EspErr

-- `esp_wifi_deinit`.
unfoldable pub wifi_deinit : Driver → Driver
wifi_deinit d = record d { inits = d.inits - 1 }

-- The handlers are registered, and the driver is started.
unfoldable pub start_registered : Start → Driver → Driver × Bool
start_registered s d =
    if is_ok s.start then (record d { wifi_started = true }, true) else (wifi_deinit d, false)

-- The driver is initialised.
unfoldable pub start_initialised : Start → Driver → Driver × Bool
start_initialised s d =
    if not (is_ok s.set_mode && is_ok s.set_storage && is_ok s.set_ps)
    then (wifi_deinit d, false)
    else if d.handlers_registered
    then start_registered s d
    else if not (is_ok s.register_wifi)
    then (wifi_deinit d, false)
    else if not (is_ok s.register_ip)
    then (wifi_deinit (record half { wifi_handlers = half.wifi_handlers - 1 }), false)
    else start_registered s
        (record half { ip_handlers = d.ip_handlers + 1; handlers_registered = true })
  where
    half : Driver
    half = record d { wifi_handlers = d.wifi_handlers + 1 }

-- The network interface and the events are set up.
unfoldable pub start_on_netif : Start → Driver → Driver × Bool
start_on_netif s d =
    if not d.sta_netif && not s.netif_made
    then (d, false)
    else if not d.event_group && not s.group_made
    then (record d { sta_netif = true }, false)
    else if not (is_ok s.init)
    then (made, false)
    else start_initialised s (record made { inits = d.inits + 1 })
  where
    made : Driver
    made = record d { sta_netif = true; event_group = true }

unfoldable pub wifi_start_driver : Start → Driver → Driver × Bool
wifi_start_driver s d =
    if d.wifi_started
    then (d, true)
    else if d.netif_inited
    then start_on_netif s d
    else if not (is_ok_or_invalid_state s.netif_init)
    then (d, false)
    else if not (is_ok_or_invalid_state s.event_loop)
    then (d, false)
    else start_on_netif s (record d { netif_inited = true })

unfoldable pub wifi_stop_driver : Driver → Driver
wifi_stop_driver d =
    if d.wifi_started
    then record (wifi_deinit d) {
      wifi_started = false;
      ipv4_ready = false;
      ipv6_ready = false;
      failed = false;
    }
    else d

-- The bit that says that an address of the chosen version is there; `v6` is `GTW_USE_IPV6`.
unfoldable pub selected_ready : Bool → Driver → Bool
selected_ready v6 d = if v6 then d.ipv6_ready else d.ipv4_ready

-- `xEventGroupWaitBits`, during which the events come until one of the two bits is set or the time is
-- over.
unfoldable pub wait_bits : Bool → List Event → Driver → Driver
wait_bits v6 [] d = d
wait_bits v6 (e ∷ events) d =
    let rest = wait_bits v6 events (wifi_event_handler e d) in
    if selected_ready v6 d || d.failed then d else rest

-- The answers to `wifi_connect_credentials`, and the events during its wait.
pub record Connect : Type 0 where
  pub set_config : EspErr
  pub connect : EspErr
  pub events : List Event

unfoldable pub wifi_connect_credentials : Bool → List ℕ → List ℕ → Connect → Driver → Driver × Bool
wifi_connect_credentials v6 ssid pass c d =
    if not d.wifi_started || not d.event_group || length ssid == 0
    then (d, false)
    else if not (is_ok c.set_config)
    then (cleared, false)
    else if not (is_ok c.connect)
    then (configured, false)
    else (waited, selected_ready v6 waited)
  where
    cleared : Driver
    cleared = record d { ipv4_ready = false; ipv6_ready = false; failed = false }

    configured : Driver
    configured = record cleared { ssid = take 31 ssid; password = take 63 pass }

    waited : Driver
    waited = wait_bits v6 c.events configured

-- What the SDK says of the addresses: whether there is an IPv4 address, and of each IPv6 address
-- whether it is global or unique local.
pub record Addresses : Type 0 where
  pub ipv4 : Bool
  pub ipv6 : List Bool

unfoldable pub any_usable : List Bool → Bool
any_usable [] = false
any_usable (usable ∷ rest) = usable || any_usable rest

unfoldable pub wifi_sta_has_ip : Bool → Addresses → Driver → Driver × Bool
wifi_sta_has_ip v6 a d =
    if not d.wifi_started || not d.sta_netif || not d.event_group
    then (d, false)
    else if v6
    then (record d { ipv6_ready = any_usable a.ipv6 }, any_usable a.ipv6)
    else (record d { ipv4_ready = a.ipv4 }, a.ipv4)

-- What becomes of one address in `wifi_check_internet`: of the socket, of the connection, whether
-- something was sent, and the bytes received, at most 63.
pub record Probe : Type 0 where
  pub socket : Bool
  pub connected : Bool
  pub sent : Bool
  pub received : List ℕ

-- "HTTP/1.1 204" and "HTTP/1.0 204".
abbrev pub no_content_1_1 : List ℕ
no_content_1_1 = 72 ∷ 84 ∷ 84 ∷ 80 ∷ 47 ∷ 49 ∷ 46 ∷ 49 ∷ 32 ∷ 50 ∷ 48 ∷ 52 ∷ []

abbrev pub no_content_1_0 : List ℕ
no_content_1_0 = 72 ∷ 84 ∷ 84 ∷ 80 ∷ 47 ∷ 49 ∷ 46 ∷ 48 ∷ 32 ∷ 50 ∷ 48 ∷ 52 ∷ []

unfoldable pub probe_ok : Probe → Bool
probe_ok p =
    p.socket
    && p.connected
    && p.sent
    && ltb 0 (length p.received)
    && (contains no_content_1_1 (c_string p.received)
        || contains no_content_1_0 (c_string p.received))

unfoldable pub probe_any : List Probe → Bool
probe_any [] = false
probe_any (p ∷ rest) = probe_ok p || probe_any rest

-- `found` says that the name was resolved.
unfoldable pub wifi_check_internet : Bool → List Probe → Bool
wifi_check_internet found probes = found && probe_any probes
