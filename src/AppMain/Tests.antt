-- ===== src/AppMain/Tests.antt =====
-- A start with a complete configuration, on which the theorem on `app_main` is applied.
use gtw_jalles_websoket_blue.Prelude.{true, false, none, some, [], ◌∷◌, pos}
use gtw_jalles_websoket_blue.Esp.{esp_ok}
use gtw_jalles_websoket_blue.Config.{Store}
use gtw_jalles_websoket_blue.Ota.State.{Ota, fresh, no_session}
use gtw_jalles_websoket_blue.Lora.Stream.{got}
use gtw_jalles_websoket_blue.Lora.Radio.{normal}
use gtw_jalles_websoket_blue.Gateway.Ack.{Gateway}
use gtw_jalles_websoket_blue.Bluetooth.State.{idle, App, Ble}
use gtw_jalles_websoket_blue.Bluetooth.Window.{Opening}
use gtw_jalles_websoket_blue.AppMain.{tx_only, nvs_ready, Machine, Launch, app_main}
use gtw_jalles_websoket_blue.AppMain.Ends.{Ends, app_main-Ends}

abbrev ota : Ota
ota = record {
  initialized = false;
  ota_capable = false;
  current = [];
  target = [];
  state = fresh;
  busy = false;
  ble = no_session;
  flash = [];
  boot_chosen = false;
}

abbrev app : App
app = record {
  config_mode = false;
  startup_window = false;
  mode_task = false;
  connectado = false;
  stop_websocket = false;
  ota = ota;
  config = (
    record {
      wifi_ssid = [];
      wifi_password = [];
      user_name = [];
      user_password = [];
      id_gateway = pos 0;
      device_id = pos 0;
    },
    record { texts = λ k. none; id_gtw = none; id_unidade = none },
  );
  restart_due = false;
}

abbrev ble : Ble
ble = record {
  conn = none;
  tx_handle = 0;
  stack_started = false;
  window_open = false;
  notify_enabled = false;
  last_status = idle;
  queue_made = false;
  task_made = false;
  timer_made = false;
  rx_queue = [];
  timer = none;
  ports = 0;
  on_air = false;
  adv_tasks = 0;
  stop_tasks = 0;
  notified = [];
  delivered = [];
  app = app;
}

abbrev gateway : Gateway
gateway = record {
  device_id = 7;
  msg_counter = 0;
  radio = record {
    cfg = record {
      has_reset_pin = false;
      head = 0;
      addh = 0;
      addl = 0;
      speed = 0;
      channel = 0;
      option = 0;
    };
    installed = false;
    mode = normal;
    resets = 0;
    stream = record {
      buf = [];
      last_byte_us = 0;
      last_log_us = 0;
      calls = 0;
      ok = 0;
      timeouts = 0;
      bytes = 0;
      noise = 0;
      crc_fail = 0;
      overflow = 0;
    };
  };
  lora_ready = false;
  uart_error_streak = 0;
  transaction_failures = 0;
  wait = record { active = false; msg_id = 0; tank_id = 0; waiter = false };
  pending = 0;
}

abbrev machine : Machine
machine = record {
  fw = (
    record { current = none; previous = none; target = none; state = none; boot_count = none },
    record { ota = ota; previous = []; boot_count = 0 },
  );
  validation = record { ota = ota; scheduled = false; pending_verify = false; tasks = [] };
  ble = ble;
  gateway = gateway;
  controls = [];
  tasks = [];
}

abbrev store : Store
store = record { texts = λ k. some (65 ∷ []); id_gtw = some (pos 7); id_unidade = some (pos 7) }

abbrev opening : Opening
opening = record {
  prepare = record { queue = true; task = true; timer = true };
  port = esp_ok;
  gatt = true;
  handle = 12;
  advert = record { fields = true; response = true; started = true };
}

abbrev launch : Launch
launch = record {
  role = tx_only;
  nvs_first = nvs_ready;
  nvs_erased = true;
  nvs_second = nvs_ready;
  fw = record {
    version = 49 ∷ [];
    capable = true;
    opened = esp_ok;
    put_current = esp_ok;
    put_previous = esp_ok;
    put_zero = esp_ok;
    image = none;
    count_read = esp_ok;
    put_count = esp_ok;
    put_schema = esp_ok;
    put_state = esp_ok;
    committed = esp_ok;
    mutex = true;
  };
  validation_made = true;
  made = λ c. true;
  load = record {
    texts_open = λ k. true;
    id_gtw_opens = true;
    id_unidade_opens = true;
    save_id = record { opens = true; stores = true };
  };
  store = store;
  first_window = opening;
  during = λ k b. b;
  random = 5;
  set_up = record { install = esp_ok; param = esp_ok; pins = esp_ok };
  exchanges = λ k. record { flush = esp_ok; written = pos 6; tx_done = esp_ok; response = got [] };
  window = opening;
  watch_made = true;
  deinits = λ i. true;
  stored = esp_ok;
  created = λ t. true;
}

app_main-Ends_example : Ends launch (app_main 1 launch machine)
app_main-Ends_example = app_main-Ends 1 launch machine
