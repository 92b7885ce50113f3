-- ===== src/Lora/Tests.antt =====
-- Concrete frames, drivers and answers, on which the theorems on the radio are applied.
use gtw_jalles_websoket_blue.Prelude.{
  ℕ, zero, suc, ◌-◌, ◌*◌, ◌≤◌, ◌≡◌, ◌≢◌, refl, true, false, some, List, [], ◌∷◌, ◌++◌, All, arith,
  length, replicate, ℤ, pos,
}
use gtw_jalles_websoket_blue.Esp.{esp_ok}
use gtw_jalles_websoket_blue.Lora.Crc.{stream_crc16}
use gtw_jalles_websoket_blue.Lora.Crc.Detect.{IsByte, stream_crc16_detects}
use gtw_jalles_websoket_blue.Lora.Frame.{
  LoraAppFrame, struct_bytes, frame_of, frame_size, payload_size, air_bytes, preamble_byte, dev_gtw,
  dev_tank, msg_ping, lora_received_frame_valid, lora_frame_air_len,
}
use gtw_jalles_websoket_blue.Lora.Frame.Layout.{SameFrame, struct_bytes-frame_of}
use gtw_jalles_websoket_blue.Lora.Stream.{Stream, Io, got, Received, lora_e32_receive_raw}
use gtw_jalles_websoket_blue.Lora.Stream.Total.{IsResult, lora_e32_receive_raw_total}
use gtw_jalles_websoket_blue.Lora.Stream.Complete.{lora_e32_receive_raw_finds}
use gtw_jalles_websoket_blue.Lora.Link.{
  IsSendable, air_bytes-IsWhole, received, delivered_is_valid, link_round_trip,
}
use gtw_jalles_websoket_blue.Lora.Radio.{
  Radio, Exchange, config, normal, cfg_response_matches, response_at, command, read_result,
  write_result, exchange_result, lora_e32_apply_cfg_with_head, go_on, send_loop, lora_e32_send_raw,
}
use gtw_jalles_websoket_blue.Lora.Radio.Configure.{
  IsConfirmed, lora_e32_apply_cfg_ok, lora_e32_apply_cfg_restores,
}
use gtw_jalles_websoket_blue.Lora.Radio.Send.{
  IsWriter, lora_e32_send_raw_whole, lora_e32_send_raw_progress,
}

abbrev stream_of : List ℕ → Stream
stream_of buf = record {
  buf = buf;
  last_byte_us = 0;
  last_log_us = 0;
  calls = 0;
  ok = 0;
  timeouts = 0;
  bytes = 0;
  noise = 0;
  crc_fail = 0;
  overflow = 0;
}

-- A ping from gateway 7 to tank 42.
abbrev ping : LoraAppFrame
ping = record {
  preamble = preamble_byte;
  src_type = dev_gtw;
  src_id = 7;
  dst_type = dev_tank;
  dst_id = 42;
  msg_type = msg_ping;
  msg_id = 9;
  len = 3;
  has_bomba_id = 0;
  bomba_id = 0;
  payload = replicate payload_size 5;
  crc = 0;
}

All-replicate : (n b : ℕ) → IsByte b → All IsByte (replicate n b)
All-replicate zero b h = tt
All-replicate (suc n) b h = (h, All-replicate n b h)

ping-IsSendable : IsSendable ping
ping-IsSendable = record {
  typed = record {
    preamble_byte = omega arith;
    src_type_byte = omega arith;
    src_id_word = omega arith;
    dst_type_byte = omega arith;
    dst_id_word = omega arith;
    msg_type_byte = omega arith;
    msg_id_byte = omega arith;
    len_byte = omega arith;
    has_bomba_byte = omega arith;
    bomba_word = omega arith;
    payload_bytes = All-replicate 64 5 (omega arith);
    payload_full = refl;
    crc_word = omega arith;
  };
  marked = refl;
  fitting = omega arith;
}

-- A clock that moves a millisecond at each look, and a line on which nothing arrives.
abbrev silent : Io
silent = record { now = λ tick. tick * 1000; read = λ tick ms. got [] }

silent-IsDriver :
    (tick ms : ℕ) (chunk : List ℕ)
    → silent.read tick ms ≡ got chunk
    → (length chunk ≤ 128) × All IsByte chunk
silent-IsDriver tick ms [] h = (omega arith, tt)
silent-IsDriver tick ms (b ∷ chunk) h = cc

stream_crc16_detects_example : stream_crc16 (1 ∷ 2 ∷ 4 ∷ []) ≢ stream_crc16 (1 ∷ 3 ∷ 4 ∷ [])
stream_crc16_detects_example =
    stream_crc16_detects (1 ∷ []) 2 3 (4 ∷ []) (omega arith, tt) (omega arith) (omega arith)
      (omega arith, tt) (λ e. omega arith)

lora_e32_receive_raw_total_example :
    (r : Received) × (lora_e32_receive_raw silent 1000 frame_size 2 0 (stream_of (1 ∷ 2 ∷ []))
      ≡ some r)
    × IsResult frame_size r
lora_e32_receive_raw_total_example =
    lora_e32_receive_raw_total silent 2 1000 frame_size 2 0 (stream_of (1 ∷ 2 ∷ [])) silent-IsDriver
      (record { fits = omega arith; all_bytes = (omega arith, (omega arith, tt)) })
      (λ tick h. omega arith) (omega arith)

found_after_noise :
    (t : Stream) × (lora_e32_receive_raw silent 1 frame_size 2 0
        (stream_of (1 ∷ (air_bytes ping ++ (3 ∷ []))))
      ≡ some (record {
        result = pos (length (air_bytes ping));
        out = some (air_bytes ping ++ replicate (79 - length (air_bytes ping)) 0);
        stream = t;
      }))
    × (t.buf ≡ 3 ∷ [])
found_after_noise =
    lora_e32_receive_raw_finds silent 0 frame_size 2 0 (1 ∷ []) (air_bytes ping) (3 ∷ [])
      (stream_of (1 ∷ (air_bytes ping ++ (3 ∷ [])))) (air_bytes-IsWhole ping ping-IsSendable)
      ((λ e. omega arith), tt) refl

link_round_trip_example :
    (out : List ℕ) × (t : Stream) × (lora_e32_receive_raw silent 1 frame_size 2 0
        (stream_of (1 ∷ (air_bytes ping ++ [])))
      ≡ some (record { result = pos (length (air_bytes ping)); out = some out; stream = t }))
    × SameFrame ping (frame_of out)
    × ((lora_received_frame_valid (frame_of out) (length (air_bytes ping))).ok ≡ true)
    × (t.buf ≡ [])
link_round_trip_example =
    link_round_trip silent 0 2 0 (1 ∷ []) [] ping (stream_of (1 ∷ (air_bytes ping ++ [])))
      ping-IsSendable ((λ e. omega arith), tt) refl

ping_delivered :
    (lora_frame_air_len (received (air_bytes ping)) ≡ length (air_bytes ping))
    × ((received (air_bytes ping)).preamble ≡ preamble_byte)
    × ((lora_received_frame_valid (received (air_bytes ping)) (length (air_bytes ping))).ok ≡ true)
ping_delivered = delivered_is_valid (air_bytes ping) (air_bytes-IsWhole ping ping-IsSendable)

frame_read_back : struct_bytes (frame_of (0xAA ∷ 1 ∷ replicate 77 5)) ≡ 0xAA ∷ 1 ∷ replicate 77 5
frame_read_back =
    struct_bytes-frame_of (0xAA ∷ 1 ∷ replicate 77 5) refl
      (omega arith, (omega arith, All-replicate 77 5 (omega arith)))

abbrev radio : Radio
radio = record {
  cfg = record {
    has_reset_pin = false;
    head = 0xC0;
    addh = 0;
    addl = 1;
    speed = 0x18;
    channel = 4;
    option = 0x44;
  };
  installed = true;
  mode = normal;
  resets = 0;
  stream = stream_of [];
}

abbrev exchange : Exchange
exchange = record {
  flush = esp_ok;
  written = pos 6;
  tx_done = esp_ok;
  response = got (0xC2 ∷ 0 ∷ 1 ∷ 0x18 ∷ 4 ∷ 0x44 ∷ []);
}

exchange_succeeds : (lora_e32_apply_cfg_with_head 0xC2 exchange radio).result ≡ esp_ok
unfolding lora_e32_apply_cfg_with_head exchange_result write_result read_result cfg_response_matches
    response_at command
exchange_succeeds = refl

lora_e32_apply_cfg_ok_example : IsConfirmed 0xC2 exchange radio
lora_e32_apply_cfg_ok_example = lora_e32_apply_cfg_ok 0xC2 exchange radio exchange_succeeds

restored :
    ((lora_e32_apply_cfg_with_head 0xC2 exchange radio).radio.mode ≡ normal)
    × ((lora_e32_apply_cfg_with_head 0xC2 exchange radio).radio.cfg ≡ radio.cfg)
    × ((lora_e32_apply_cfg_with_head 0xC2 exchange radio).modes ≡ config ∷ normal ∷ [])
restored = lora_e32_apply_cfg_restores 0xC2 exchange radio refl

-- A driver that takes one byte at a time.
abbrev byte_by_byte : ℕ → List ℕ → ℤ
byte_by_byte total [] = pos 0
byte_by_byte total (b ∷ left) = pos 1

byte_by_byte-IsWriter : IsWriter byte_by_byte
byte_by_byte-IsWriter total [] n h = ground arith
byte_by_byte-IsWriter total (b ∷ left) n h = ground arith

sent_three : (lora_e32_send_raw byte_by_byte true (1 ∷ 2 ∷ 3 ∷ [])).result ≡ pos 3
unfolding lora_e32_send_raw send_loop go_on
sent_three = refl

whole_frame_sent : (lora_e32_send_raw byte_by_byte true (1 ∷ 2 ∷ 3 ∷ [])).wire ≡ 1 ∷ 2 ∷ 3 ∷ []
whole_frame_sent =
    lora_e32_send_raw_whole byte_by_byte true (1 ∷ 2 ∷ 3 ∷ []) byte_by_byte-IsWriter sent_three

lora_e32_send_raw_progress_example :
    (lora_e32_send_raw byte_by_byte true (1 ∷ 2 ∷ 3 ∷ [])).result ≡ pos 3
lora_e32_send_raw_progress_example =
    lora_e32_send_raw_progress byte_by_byte (1 ∷ 2 ∷ 3 ∷ [])
      (λ total b left. (1, refl, omega arith, omega arith))
