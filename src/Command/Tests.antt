-- ===== src/Command/Tests.antt =====
-- Commands for a tank, on which the theorems about them are applied.
use gtw_jalles_websoket_blue.Prelude.{
  ℕ, ◌<◌, ◌≤◌, ◌≡◌, ◌↔◌, ◌⊎◌, ℤ, refl, true, false, Option, none, some, List, [], ◌∷◌, pos, length,
  arith,
}
use gtw_jalles_websoket_blue.Esp.{esp_ok}
use gtw_jalles_websoket_blue.Lora.Frame.{msg_ping}
use gtw_jalles_websoket_blue.Lora.Stream.{got}
use gtw_jalles_websoket_blue.Lora.Radio.{normal}
use gtw_jalles_websoket_blue.Http.{Http, performed}
use gtw_jalles_websoket_blue.Gateway.Ack.{Gateway, Surroundings, recover, next_id, to_tank}
use gtw_jalles_websoket_blue.Gateway.Ack.Transaction.{SomeAnswered}
use gtw_jalles_websoket_blue.Command.Fields.{
  Double, whole, Item, number, boolean, CommandField, bomba_id, control_id, comando, status_bomba,
  gtw_id, tanque_id, vazao, gtw_tanque, DataObject, valid_id, valid_gtw, valid_status, valid_flow,
  valid_order, Order, order_of, bomba_order, order_text, from_zero, at_most,
}
use gtw_jalles_websoket_blue.Command.{Consult, handle_bomba_control, ping_text, handle_ping_tanque}
use gtw_jalles_websoket_blue.Command.Orders.{
  IsOrder, IsParsed, bomba_order-IsOrder, order_text_fits,
}
use gtw_jalles_websoket_blue.Command.Handles.{Obeys, handle_bomba_control-Obeys}
use gtw_jalles_websoket_blue.Command.Pings.{handle_ping_tanque_iff}

abbrev item : ℕ → Option Item
item n = some (number (whole (pos n)) (pos n))

-- Pump 3 of tank 42 by gateway 7, to be executed.
abbrev field : CommandField → Option Item
field bomba_id = item 3
field control_id = item 42
field comando = some (boolean true)
field status_bomba = item 1
field gtw_id = item 7
field tanque_id = item 42
field vazao = none
field gtw_tanque = item 7

abbrev command : DataObject
command = record { is_object = true; field = field }

abbrev order : Order
order = record {
  pump = pos 3;
  tank = pos 42;
  control = pos 42;
  status = pos 1;
  execute = true;
  flow = none;
}

is_order : bomba_order 7 command ≡ some order
unfolding bomba_order order_of valid_order valid_id valid_gtw valid_status valid_flow
is_order = refl

-- 0.50 for every number.
abbrev print : Double → List ℕ
print v = 48 ∷ 46 ∷ 53 ∷ 48 ∷ []

prints_short : (v : Double) → from_zero v ≡ true → at_most 100 v ≡ true → length (print v) ≤ 6
prints_short v low high = ground arith

item-whole_int : (k m : ℕ) (n : ℤ) → item k ≡ some (number (whole (pos m)) n) → n ≡ pos m
item-whole_int k m n e = cc

command-IsParsed : IsParsed command
command-IsParsed = record { whole_int = λ f m n e small. field_int f m n e }
  where
    field_int :
        (f : CommandField) (m : ℕ) (n : ℤ) → field f ≡ some (number (whole (pos m)) n) → n ≡ pos m
    field_int bomba_id m n e = item-whole_int 3 m n e
    field_int control_id m n e = item-whole_int 42 m n e
    field_int comando m n e = cc
    field_int status_bomba m n e = item-whole_int 1 m n e
    field_int gtw_id m n e = item-whole_int 7 m n e
    field_int tanque_id m n e = item-whole_int 42 m n e
    field_int vazao m n e = cc
    field_int gtw_tanque m n e = item-whole_int 7 m n e

bomba_order-IsOrder_example :
    IsOrder 7 command order × ((order.status ≡ pos 0) ⊎ (order.status ≡ pos 1))
bomba_order-IsOrder_example = bomba_order-IsOrder 7 command order command-IsParsed is_order

order_text_fits_example : length (order_text print order) < 64
order_text_fits_example = order_text_fits print 7 command order prints_short is_order

abbrev gateway : Gateway
gateway = record {
  device_id = 7;
  msg_counter = 10;
  radio = record {
    cfg = record {
      has_reset_pin = false;
      head = 0xC0;
      addh = 0;
      addl = 1;
      speed = 0x18;
      channel = 4;
      option = 0x44;
    };
    installed = true;
    mode = normal;
    resets = 0;
    stream = record {
      buf = [];
      last_byte_us = 0;
      last_log_us = 0;
      calls = 0;
      ok = 0;
      timeouts = 0;
      bytes = 0;
      noise = 0;
      crc_fail = 0;
      overflow = 0;
    };
  };
  lora_ready = true;
  uart_error_streak = 0;
  transaction_failures = 0;
  wait = record { active = false; msg_id = 0; tank_id = 0; waiter = false };
  pending = 0;
}

-- The tank answers the first attempt, with the message number 10.
abbrev surroundings : Surroundings
surroundings = record {
  request_lock = true;
  recovery_lock = true;
  set_up = record { install = esp_ok; param = esp_ok; pins = esp_ok };
  exchanges = λ k. record {
    flush = esp_ok;
    written = pos 6;
    tx_done = esp_ok;
    response = got (0xC2 ∷ 0 ∷ 1 ∷ 0x18 ∷ 4 ∷ 0x44 ∷ []);
  };
  attempts = λ k. record {
    lock = true;
    write = λ total left. pos (length left);
    tx_done = true;
    heard = record { msg_id = 10; src_id = 42 } ∷ [];
    late = [];
  };
}

abbrev http : Http
http = record {
  token = 84 ∷ [];
  token_ok = true;
  response = [];
  get_response = none;
  get_client = false;
  clients = 0;
  login_task = true;
  login_asked = 0;
}

-- The server answers {} and cJSON finds "online" false in it.
abbrev consult : Consult
consult = record {
  route = [];
  http_lock = true;
  server = λ url token. record {
    client_made = true;
    url_set = true;
    first = record {
      chunks = record { bytes = 123 ∷ 125 ∷ []; allocated = true } ∷ [];
      result = performed;
    };
    second = record { chunks = []; result = performed };
    status = 200;
    room = true;
  };
  parse_online = λ text. some (some (boolean false));
  print = print;
  surroundings = surroundings;
}

handle_bomba_control-Obeys_example :
    Obeys consult command gateway http (handle_bomba_control consult (some command) gateway http)
handle_bomba_control-Obeys_example =
    handle_bomba_control-Obeys consult command gateway http prints_short

handle_ping_tanque_iff_example :
    ((handle_ping_tanque surroundings (some command) gateway).1 ≡ some (ping_text (pos 42) true))
    ↔ ((true ≡ true)
        × ((recover surroundings (record gateway { msg_counter = next_id 10 })).1 ≡ true)
        × SomeAnswered (to_tank gateway 42 msg_ping) surroundings.attempts 5 1)
handle_ping_tanque_iff_example = handle_ping_tanque_iff surroundings command gateway refl refl refl
