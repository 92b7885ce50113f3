-- ===== src/Gateway/Tests.antt =====
-- A ping and the tank that answers its second attempt.
use gtw_jalles_websoket_blue.Prelude.{
  ◌&&◌, zero, suc, All, ◌≢◌, ℕ, ◌+◌, ◌<◌, ◌≡◌, ◌↔◌, refl, true, false, [], ◌∷◌, ◌==◌, pos, length,
  arith, if◌then◌else◌, replicate,
}
use gtw_jalles_websoket_blue.Esp.{esp_ok, is_ok}
use gtw_jalles_websoket_blue.Lora.Frame.{
  LoraAppFrame, preamble_byte, payload_size, dev_gtw, dev_tank, msg_ping, msg_ack, air_bytes,
}
use gtw_jalles_websoket_blue.Lora.Stream.{got}
use gtw_jalles_websoket_blue.Lora.Radio.{lora_e32_reinit, lora_e32_apply_cfg_temp, normal}
use gtw_jalles_websoket_blue.Gateway.Ack.{
  attempts_loop, attempt, attempt_limit, begin_wait, end_wait, match_acks, account, Gateway,
  Attempt, Surroundings, recover, gtw_send_frame_wait_ack,
}
use gtw_jalles_websoket_blue.Gateway.Ack.Wait.{IsAnswered, IsIdle}
use gtw_jalles_websoket_blue.Gateway.Ack.Transaction.{
  gtw_send_frame_wait_ack_iff, gtw_send_frame_wait_ack-IsIdle, gtw_send_frame_wait_ack_gives_up,
}
use gtw_jalles_websoket_blue.Lora.Crc.Detect.{IsByte}
use gtw_jalles_websoket_blue.Lora.Link.{IsSendable, air_bytes-IsWhole, received}
use gtw_jalles_websoket_blue.Gateway.Receive.{
  Receiver, incomplete, bad_preamble, bad_crc, verdict, gtw_lora_rx_task_round,
}
use gtw_jalles_websoket_blue.Gateway.Receive.Effect.{
  PassesOn, IsBalanced, verdict_delivered, gtw_lora_rx_task_round-PassesOn,
  gtw_lora_rx_task_round-IsBalanced,
}
use gtw_jalles_websoket_blue.Gateway.Health.{
  Checkup, gtw_lora_health_task_round, gtw_lora_health_task_round_iff,
}

abbrev ping : LoraAppFrame
ping = record {
  preamble = preamble_byte;
  src_type = dev_gtw;
  src_id = 7;
  dst_type = dev_tank;
  dst_id = 42;
  msg_type = msg_ping;
  msg_id = 9;
  len = 0;
  has_bomba_id = 0;
  bomba_id = 0;
  payload = replicate payload_size 0;
  crc = 0;
}

-- A radio that counts as out of order.
abbrev gateway : Gateway
gateway = record {
  device_id = 7;
  msg_counter = 10;
  radio = record {
    cfg = record {
      has_reset_pin = false;
      head = 0xC0;
      addh = 0;
      addl = 1;
      speed = 0x18;
      channel = 4;
      option = 0x44;
    };
    installed = true;
    mode = normal;
    resets = 0;
    stream = record {
      buf = [];
      last_byte_us = 0;
      last_log_us = 0;
      calls = 0;
      ok = 0;
      timeouts = 0;
      bytes = 0;
      noise = 0;
      crc_fail = 0;
      overflow = 0;
    };
  };
  lora_ready = false;
  uart_error_streak = 0;
  transaction_failures = 0;
  wait = record { active = false; msg_id = 0; tank_id = 0; waiter = false };
  pending = 1;
}

abbrev attempts : ℕ → Attempt
attempts k = record {
  lock = true;
  write = λ total left. pos (length left);
  tx_done = true;
  heard = if k == 2 then record { msg_id = 9; src_id = 42 } ∷ [] else [];
  late = [];
}

abbrev surroundings : Surroundings
surroundings = record {
  request_lock = true;
  recovery_lock = true;
  set_up = record { install = esp_ok; param = esp_ok; pins = esp_ok };
  exchanges = λ k. record {
    flush = esp_ok;
    written = pos 6;
    tx_done = esp_ok;
    response = got (0xC2 ∷ 0 ∷ 1 ∷ 0x18 ∷ 4 ∷ 0x44 ∷ []);
  };
  attempts = attempts;
}

gtw_send_frame_wait_ack_iff_example :
    ((gtw_send_frame_wait_ack ping surroundings gateway).1 ≡ true) ↔ (
      (surroundings.request_lock ≡ true)
      × ((recover surroundings gateway).1 ≡ true)
      × ((i : ℕ) × (i < 5) × IsAnswered ping (attempts (i + 1))))
gtw_send_frame_wait_ack_iff_example = gtw_send_frame_wait_ack_iff ping surroundings gateway

gtw_send_frame_wait_ack-IsIdle_example :
    IsIdle (gtw_send_frame_wait_ack ping surroundings gateway).0
gtw_send_frame_wait_ack-IsIdle_example =
    gtw_send_frame_wait_ack-IsIdle ping surroundings gateway (refl, refl)

-- The radio is in use at every attempt.
abbrev crowded : Surroundings
crowded = record surroundings {
  attempts = λ k. record {
    lock = false;
    write = λ total left. pos (length left);
    tx_done = true;
    heard = [];
    late = [];
  };
}

abbrev working : Gateway
working = record gateway { lora_ready = true }

crowded_fails : (gtw_send_frame_wait_ack ping crowded working).1 ≡ false
unfolding gtw_send_frame_wait_ack recover attempts_loop attempt attempt_limit begin_wait end_wait
    match_acks account
crowded_fails = refl

crowded_out : (gtw_send_frame_wait_ack ping crowded working).0.lora_ready ≡ false
crowded_out = gtw_send_frame_wait_ack_gives_up ping crowded working (omega arith) refl crowded_fails

-- The tank's acknowledgement, for this gateway, while it waits for it.
abbrev ack_frame : LoraAppFrame
ack_frame = record ping {
  src_type = dev_tank;
  src_id = 42;
  dst_type = dev_gtw;
  dst_id = 7;
  msg_type = msg_ack;
}

abbrev waiting : Receiver
waiting = record {
  gateway = record gateway {
    wait = record { active = true; msg_id = 9; tank_id = 42; waiter = true };
  };
  stats = record {
    frame_ok = 0;
    timeout = 0;
    incomplete = 0;
    bad_preamble = 0;
    bad_crc = 0;
    semantic_invalid = 0;
    wrong_dst = 0;
    ack_rx = 0;
    ack_match = 0;
    ack_unexpected = 0;
    data_rx = 0;
  };
  last_rx_ms = 0;
}

gtw_lora_rx_task_round-PassesOn_example :
    PassesOn
      (pos 15)
      ack_frame
      waiting.gateway
      (gtw_lora_rx_task_round (pos 15) ack_frame 1 waiting).gateway
gtw_lora_rx_task_round-PassesOn_example =
    gtw_lora_rx_task_round-PassesOn (pos 15) ack_frame 1 waiting

one_round : IsBalanced (gtw_lora_rx_task_round (pos 15) ack_frame 1 waiting).stats
one_round =
    gtw_lora_rx_task_round-IsBalanced (pos 15) ack_frame 1 waiting
      (record { frames = refl; acks = refl })

ping-IsSendable : IsSendable ping
ping-IsSendable = record {
  typed = record {
    preamble_byte = omega arith;
    src_type_byte = omega arith;
    src_id_word = omega arith;
    dst_type_byte = omega arith;
    dst_id_word = omega arith;
    msg_type_byte = omega arith;
    msg_id_byte = omega arith;
    len_byte = omega arith;
    has_bomba_byte = omega arith;
    bomba_word = omega arith;
    payload_bytes = zeros 64;
    payload_full = refl;
    crc_word = omega arith;
  };
  marked = refl;
  fitting = omega arith;
}
  where
    zeros : (n : ℕ) → All IsByte (replicate n 0)
    zeros zero = tt
    zeros (suc n) = (omega arith, zeros n)

pinged_as_whole :
    (verdict 7 (received (air_bytes ping)) (length (air_bytes ping)) ≢ incomplete)
    × (verdict 7 (received (air_bytes ping)) (length (air_bytes ping)) ≢ bad_preamble)
    × (verdict 7 (received (air_bytes ping)) (length (air_bytes ping)) ≢ bad_crc)
pinged_as_whole = verdict_delivered 7 (air_bytes ping) (air_bytes-IsWhole ping ping-IsSendable)

abbrev checkup : Checkup
checkup = record {
  request_lock = true;
  radio_lock = true;
  set_up = surroundings.set_up;
  exchanges = surroundings.exchanges;
}

checked_up : ((gtw_lora_health_task_round checkup gateway).lora_ready ≡ true) ↔ (
    ((checkup.request_lock && checkup.radio_lock) ≡ true)
    × (is_ok (lora_e32_reinit checkup.set_up gateway.radio).1 ≡ true)
    × (is_ok
          (lora_e32_apply_cfg_temp
            (checkup.exchanges 1)
            (lora_e32_reinit checkup.set_up gateway.radio).0).result
        ≡ true))
checked_up = gtw_lora_health_task_round_iff checkup gateway refl
