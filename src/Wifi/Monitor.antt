-- ===== src/Wifi/Monitor.antt =====
-- `wifi_task` and `tentar_conectar_wifi` of main/main.c, in both builds: in the one that has no WebSocket,
-- a round finds it not connected. A round
-- of the task is one pass of its endless loop; what it asks of the SDK and of the other tasks is an
-- argument. Log lines, the watchdog and delays are left out.
pub mod Steady
pub mod Online
pub mod Restart
pub mod Offline
use gtw_jalles_websoket_blue.Prelude.{
  ℕ, ◌+◌, ◌-◌, ◌%◌, ◌^◌, Bool, true, false, not, ◌&&◌, ◌||◌, List, [], ◌∷◌, ltb, leb, ◌==◌,
  if◌then◌else◌,
}
use gtw_jalles_websoket_blue.Esp.{EspErr, is_ok}
use gtw_jalles_websoket_blue.Wifi.Driver.{
  Driver, Start, Connect, Addresses, Probe, wifi_start_driver, wifi_stop_driver,
  wifi_connect_credentials, wifi_sta_has_ip, wifi_check_internet,
}

-- `WIFI_CONNECT_MAX_FAILS`, `WIFI_IP_MAX_FAILS`, `WIFI_CYCLE_MAX_RETRIES`,
-- `WIFI_INTERNET_RESTART_DELAY_MS`.
abbrev pub connect_max_fails : ℕ
connect_max_fails = 15

abbrev pub ip_max_fails : ℕ
ip_max_fails = 12

abbrev pub cycle_max_retries : ℕ
cycle_max_retries = 5

abbrev pub internet_restart_ms : ℕ
internet_restart_ms = 300000

-- `GTW_USE_IPV6`, whether there is a second network (`wifi_secundario`), and the credentials.
pub record Networks : Type 0 where
  pub v6 : Bool
  pub secondary : Bool
  pub ssid : List ℕ
  pub password : List ℕ
  pub secondary_ssid : List ℕ
  pub secondary_password : List ℕ

-- The variables of `wifi_task`, the globals it writes, and whether it restarted the ESP32, after which
-- it does nothing more. `login_task`: that task exists.
pub record Monitor : Type 0 where
  pub driver : Driver
  pub falhas_wifi : ℕ
  pub falhas_ip : ℕ
  pub falhas_internet : ℕ
  pub ciclos_religar : ℕ
  pub inicio_falha_internet_ms : ℕ
  pub usando_secundario : Bool
  pub wifi_4g : Bool
  pub ota_checked : Bool
  pub connectado : Bool
  pub login_task : Bool
  pub restarted : Bool

-- The answers to `tentar_conectar_wifi`: whether a Bluetooth window is open, and those of the driver.
pub record Attempt : Type 0 where
  pub window : Bool
  pub start : Start
  pub connect : Connect

unfoldable pub connect_to : Networks → Bool → Connect → Driver → Driver
connect_to n secondary c d =
    if secondary && n.secondary
    then (wifi_connect_credentials n.v6 n.secondary_ssid n.secondary_password c d).0
    else (wifi_connect_credentials n.v6 n.ssid n.password c d).0

unfoldable pub tentar_conectar_wifi : Networks → Bool → Attempt → Driver → Driver
tentar_conectar_wifi n secondary a d =
    let started = wifi_start_driver a.start d in
    if a.window
    then d
    else if started.1
    then connect_to n secondary a.connect started.0
    else started.0

-- What a round asks: whether a Bluetooth window is open, whether the station is associated, its
-- addresses, whether `login_task` could be made, whether the WebSocket is connected, the check of the
-- internet, the answer to the check for an update, whether the token and the second network are in use,
-- the milliseconds since the start, and the answers to an attempt to connect.
pub record Round : Type 0 where
  pub window : Bool
  pub associated : Bool
  pub addresses : Addresses
  pub task_made : Bool
  pub websocket : Bool
  pub found : Bool
  pub probes : List Probe
  pub ota : EspErr
  pub on_secondary : Bool
  pub now : ℕ
  pub attempt : Attempt

-- `esp_restart` after too many cycles.
unfoldable pub check_cycles : Monitor → Monitor
check_cycles m = if leb cycle_max_retries m.ciclos_religar then record m { restarted = true } else m

-- A Bluetooth window is open.
unfoldable pub in_window : Monitor → Monitor
in_window m = record m {
  driver = wifi_stop_driver m.driver;
  connectado = false;
  ota_checked = false;
}

-- The driver is not started.
unfoldable pub when_inactive : Networks → Round → Monitor → Monitor
when_inactive n r m =
    if driver.wifi_started
    then record m { driver = driver; ota_checked = false; falhas_wifi = 0 }
    else check_cycles
        (record m { driver = driver; ota_checked = false; ciclos_religar = m.ciclos_religar + 1 })
  where
    driver : Driver
    driver = tentar_conectar_wifi n m.usando_secundario r.attempt m.driver

-- The driver is stopped, the other network is chosen if there are two, and a new attempt is made.
unfoldable pub cycle_driver : Networks → Round → Monitor → Monitor
cycle_driver n r m = record m {
  driver = tentar_conectar_wifi n other r.attempt (wifi_stop_driver m.driver);
  usando_secundario = other;
}
  where
    other : Bool
    other = if n.secondary then not m.usando_secundario else m.usando_secundario

-- Associated, but without an address.
unfoldable pub without_ip : Networks → Round → Monitor → Monitor
without_ip n r m =
    if leb ip_max_fails (m.falhas_ip + 1)
    then check_cycles (record cycled { falhas_ip = 0; ciclos_religar = m.ciclos_religar + 1 })
    else record offline { falhas_ip = m.falhas_ip + 1 }
  where
    offline : Monitor
    offline = record m {
      connectado = false;
      ota_checked = false;
      falhas_internet = 0;
      inicio_falha_internet_ms = 0;
    }

    cycled : Monitor
    cycled = cycle_driver n r offline

-- The WebSocket is connected or the internet is confirmed.
unfoldable pub with_internet : Networks → Round → Monitor → Monitor
with_internet n r m = record m {
  falhas_internet = 0;
  inicio_falha_internet_ms = 0;
  ota_checked = m.ota_checked || is_ok r.ota;
  wifi_4g = m.wifi_4g || (n.secondary && r.on_secondary);
}

-- The time without internet, in a `uint32_t`.
unfoldable pub sem_internet_ms : ℕ → ℕ → ℕ
sem_internet_ms inicio now = (now + 2 ^ 32 - inicio % 2 ^ 32) % 2 ^ 32

unfoldable pub without_internet : Networks → Round → Monitor → Monitor
without_internet n r m =
    if leb internet_restart_ms (sem_internet_ms inicio r.now)
    then record cycled { wifi_4g = m.wifi_4g && (not n.secondary || cycled.usando_secundario) }
    else record offline {
      falhas_internet = m.falhas_internet + 1;
      inicio_falha_internet_ms = inicio;
    }
  where
    inicio : ℕ
    inicio = if m.inicio_falha_internet_ms == 0 then r.now else m.inicio_falha_internet_ms

    offline : Monitor
    offline = record m { connectado = false; ota_checked = false }

    cycled : Monitor
    cycled = cycle_driver n r (record offline { falhas_internet = 0; inicio_falha_internet_ms = 0 })

-- Associated, with an address.
unfoldable pub with_ip : Networks → Round → Monitor → Monitor
with_ip n r m =
    if r.websocket || wifi_check_internet r.found r.probes
    then with_internet n r online
    else without_internet n r online
  where
    online : Monitor
    online = record m {
      falhas_ip = 0;
      ciclos_religar = 0;
      login_task = m.login_task || r.task_made;
      connectado = r.websocket;
    }

-- Not associated.
unfoldable pub without_ap : Networks → Round → Monitor → Monitor
without_ap n r m =
    if ltb (m.falhas_wifi + 1) connect_max_fails
    then record offline {
      driver = tentar_conectar_wifi n m.usando_secundario r.attempt m.driver;
      falhas_wifi = m.falhas_wifi + 1;
    }
    else check_cycles (record cycled { falhas_wifi = 0; ciclos_religar = m.ciclos_religar + 1 })
  where
    offline : Monitor
    offline = record m {
      connectado = false;
      ota_checked = false;
      falhas_ip = 0;
      falhas_internet = 0;
      inicio_falha_internet_ms = 0;
    }

    cycled : Monitor
    cycled = cycle_driver n r offline

-- The driver is started and no window is open.
unfoldable pub when_active : Networks → Round → Monitor → Monitor
when_active n r m =
    if not r.associated
    then without_ap n r m
    else if has_ip.1
    then check_cycles (with_ip n r linked)
    else without_ip n r linked
  where
    has_ip : Driver × Bool
    has_ip = wifi_sta_has_ip n.v6 r.addresses m.driver

    linked : Monitor
    linked = record m { driver = has_ip.0; falhas_wifi = 0 }

unfoldable pub wifi_task_round : Networks → Round → Monitor → Monitor
wifi_task_round n r m =
    if m.restarted
    then m
    else if r.window
    then in_window m
    else if m.driver.wifi_started
    then when_active n r m
    else when_inactive n r m

unfoldable pub wifi_task_rounds : Networks → List Round → Monitor → Monitor
wifi_task_rounds n [] m = m
wifi_task_rounds n (r ∷ rounds) m = wifi_task_rounds n rounds (wifi_task_round n r m)

-- The variables when the task begins.
abbrev pub off : Driver
off = record {
  netif_inited = false;
  wifi_started = false;
  handlers_registered = false;
  sta_netif = false;
  event_group = false;
  ipv4_ready = false;
  ipv6_ready = false;
  failed = false;
  inits = 0;
  wifi_handlers = 0;
  ip_handlers = 0;
  ssid = [];
  password = [];
}

unfoldable pub begun : Networks → Attempt → Monitor
begun n a = record {
  driver = tentar_conectar_wifi n false a off;
  falhas_wifi = 0;
  falhas_ip = 0;
  falhas_internet = 0;
  ciclos_religar = 0;
  inicio_falha_internet_ms = 0;
  usando_secundario = false;
  wifi_4g = false;
  ota_checked = false;
  connectado = false;
  login_task = false;
  restarted = false;
}

unfoldable pub wifi_task : Networks → Attempt → List Round → Monitor
wifi_task n a rounds = wifi_task_rounds n rounds (begun n a)
