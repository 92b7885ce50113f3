-- ===== src/Gateway/Patch/DeliveryTests.antt =====
-- The loop of `patch_task` at concrete inputs.
use gtw_jalles_websoket_blue.Prelude.{◌≡◌, ◌↔◌, refl, true, false, none, [], ◌∷◌, ℕ}
use gtw_jalles_websoket_blue.Esp.{esp_ok, esp_fail}
use gtw_jalles_websoket_blue.Http.{server_request}
use gtw_jalles_websoket_blue.Wifi.Monitor.{Networks, Attempt, Round, wifi_task}
use gtw_jalles_websoket_blue.Gateway.Patch.Delivery.{
  Pass, Delivery, deliver, delivery_pass, send_once, SomeTaken, deliver_iff, deliver_offline,
}

abbrev fresh : Delivery
fresh = record {
  http = record {
    token = 84 ∷ [];
    token_ok = true;
    response = [];
    get_response = none;
    get_client = false;
    clients = 0;
    login_task = true;
    login_asked = 0;
  };
  mutex_fail_count = 0;
  http_fail_total = 0;
  done = false;
  restarted = false;
}

abbrev pass : ℕ → Pass
pass status = record {
  online = true;
  mutex = true;
  server = λ url token. record { copied = true; client = true; performed = true; status = status };
}

-- A failure of the server is tried again.
tried_again : (deliver [] (47 ∷ []) (pass 500 ∷ pass 204 ∷ []) fresh).done ≡ true
unfolding deliver delivery_pass send_once server_request
tried_again = refl

deliver_iff_example :
    ((deliver [] (47 ∷ []) (pass 500 ∷ pass 204 ∷ []) fresh).done ≡ true)
    ↔ SomeTaken [] (47 ∷ []) (pass 500 ∷ pass 204 ∷ []) fresh
deliver_iff_example = deliver_iff [] (47 ∷ []) (pass 500 ∷ pass 204 ∷ []) fresh refl

abbrev networks : Networks
networks = record {
  v6 = true;
  secondary = false;
  ssid = 65 ∷ [];
  password = 49 ∷ [];
  secondary_ssid = [];
  secondary_password = [];
}

abbrev attempt : Attempt
attempt = record {
  window = false;
  start = record {
    netif_init = esp_ok;
    event_loop = esp_ok;
    netif_made = true;
    group_made = true;
    init = esp_ok;
    set_mode = esp_ok;
    set_storage = esp_ok;
    set_ps = esp_ok;
    register_wifi = esp_ok;
    register_ip = esp_ok;
    start = esp_ok;
  };
  connect = record { set_config = esp_ok; connect = esp_ok; events = [] };
}

-- An associated station with an address and the internet, but no WebSocket.
abbrev round : Round
round = record {
  window = false;
  associated = true;
  addresses = record { ipv4 = true; ipv6 = true ∷ [] };
  task_made = true;
  websocket = false;
  found = true;
  probes = [];
  ota = esp_fail;
  on_secondary = false;
  now = 5000;
  attempt = attempt;
}

abbrev seen : Pass
seen = record {
  online = (wifi_task networks attempt (round ∷ [])).connectado;
  mutex = true;
  server = (pass 204).server;
}

deliver_offline_example : deliver [] (47 ∷ []) (seen ∷ []) fresh ≡ fresh
deliver_offline_example =
    deliver_offline networks attempt [] (47 ∷ []) (seen ∷ []) fresh
      ((round ∷ [], (refl, _), refl), _)
