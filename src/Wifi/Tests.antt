-- ===== src/Wifi/Tests.antt =====
-- Runs of the WiFi driver and of its monitor, and the theorems about them at concrete inputs.
use gtw_jalles_websoket_blue.Prelude.{
  ℕ, zero, suc, ◌≡◌, ◌≤◌, refl, ◌↔◌, true, false, List, [], ◌∷◌, ◌++◌, length, All, arith,
}
use gtw_jalles_websoket_blue.Esp.{esp_ok, esp_fail}
use gtw_jalles_websoket_blue.Wifi.Driver.{
  Start, wifi_start_driver, got_ip6, wifi_sta_has_ip, wifi_connect_credentials, wifi_event_handler,
  wait_bits, selected_ready, start_on_netif, start_initialised, start_registered, wifi_deinit,
}
use gtw_jalles_websoket_blue.Wifi.Monitor.{
  Networks, Attempt, Round, begun, wifi_task, wifi_task_round, wifi_task_rounds, off,
  tentar_conectar_wifi, connect_to,
}
use gtw_jalles_websoket_blue.Wifi.Monitor.Steady.{IsSteady, wifi_task-IsSteady}
use gtw_jalles_websoket_blue.Wifi.Monitor.Online.{wifi_task_round-online}
use gtw_jalles_websoket_blue.Wifi.Monitor.Restart.{IsLost, wifi_task_restarts}

abbrev networks : Networks
networks = record {
  v6 = true;
  secondary = false;
  ssid = 65 ∷ 66 ∷ [];
  password = 49 ∷ 50 ∷ [];
  secondary_ssid = [];
  secondary_password = [];
}

abbrev all_good : Start
all_good = record {
  netif_init = esp_ok;
  event_loop = esp_ok;
  netif_made = true;
  group_made = true;
  init = esp_ok;
  set_mode = esp_ok;
  set_storage = esp_ok;
  set_ps = esp_ok;
  register_wifi = esp_ok;
  register_ip = esp_ok;
  start = esp_ok;
}

abbrev joined : Attempt
joined = record {
  window = false;
  start = all_good;
  connect = record {
    set_config = esp_ok;
    connect = esp_ok;
    events = got_ip6 false ∷ got_ip6 true ∷ [];
  };
}

abbrev lost : Round
lost = record {
  window = false;
  associated = false;
  addresses = record { ipv4 = false; ipv6 = [] };
  task_made = false;
  websocket = false;
  found = false;
  probes = [];
  ota = esp_fail;
  on_secondary = false;
  now = 5000;
  attempt = joined;
}

abbrev connected : Round
connected = record lost {
  associated = true;
  addresses = record { ipv4 = false; ipv6 = true ∷ [] };
  task_made = true;
  websocket = true;
  ota = esp_ok;
}

-- The first attempt starts the driver, and the second address ends the wait.
begun_ready : (begun networks joined).driver.ipv6_ready ≡ true
unfolding begun tentar_conectar_wifi connect_to wifi_start_driver start_on_netif start_initialised
    start_registered wifi_connect_credentials wait_bits wifi_event_handler selected_ready
begun_ready = refl

-- A failed registration of the second handler leaves nothing registered.
half_registered :
    (wifi_start_driver (record all_good { register_ip = esp_fail }) off).0.wifi_handlers ≡ 0
unfolding wifi_start_driver start_on_netif start_initialised wifi_deinit
half_registered = refl

wifi_task-IsSteady_example : IsSteady (wifi_task networks joined (connected ∷ lost ∷ []))
wifi_task-IsSteady_example = wifi_task-IsSteady networks joined (connected ∷ lost ∷ [])

begun_started : (wifi_task networks joined []).driver.wifi_started ≡ true
unfolding wifi_task wifi_task_rounds begun tentar_conectar_wifi connect_to wifi_start_driver
    start_on_netif start_initialised start_registered wifi_connect_credentials wait_bits
    wifi_event_handler selected_ready
begun_started = refl

round_online :
    ((wifi_task_round networks connected (wifi_task networks joined [])).connectado ≡ true) ↔ (
      (false ≡ false)
      × ((wifi_task networks joined []).driver.wifi_started ≡ true)
      × (true ≡ true)
      × ((wifi_sta_has_ip true connected.addresses (wifi_task networks joined []).driver).1 ≡ true)
      × (true ≡ true))
unfolding wifi_task wifi_task_rounds begun
round_online =
    wifi_task_round-online networks connected (wifi_task networks joined [])
      (wifi_task-IsSteady networks joined []) refl

abbrev lost_for : ℕ → List Round
lost_for zero = []
lost_for (suc n) = lost ∷ lost_for n

lost_for-IsLost : (n : ℕ) → All IsLost (lost_for n)
lost_for-IsLost zero = _
lost_for-IsLost (suc n) = ((refl, refl), lost_for-IsLost n)

length-lost_for : (n : ℕ) → n ≤ length (lost_for n)
length-lost_for zero = ground arith
length-lost_for (suc n) = let rest = length-lost_for n in ground arith

wifi_task_restarts_example :
    (wifi_task networks joined ((connected ∷ []) ++ lost_for 84)).restarted ≡ true
wifi_task_restarts_example =
    wifi_task_restarts networks joined (connected ∷ []) (lost_for 84) (lost_for-IsLost 84)
      (length-lost_for 84)
