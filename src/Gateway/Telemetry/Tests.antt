-- ===== src/Gateway/Telemetry/Tests.antt =====
-- A tank that sends its level twice, on which the theorems on telemetry are applied.
use gtw_jalles_websoket_blue.Prelude.{
  ℕ, ◌≤◌, ◌<◌, ◌≡◌, ◌↔◌, ◌⊎◌, refl, true, false, [], ◌∷◌, pos, length, replicate, arith,
}
use gtw_jalles_websoket_blue.Text.{contains, c_string, print_number, same_text, starts_with}
use gtw_jalles_websoket_blue.Lora.Frame.{
  LoraAppFrame, preamble_byte, dev_gtw, dev_tank, msg_data, msg_ping, air_bytes, air_body,
  header_bytes, struct_bytes, frame_of, lora_frame_air_len, lora_received_frame_valid,
}
use gtw_jalles_websoket_blue.Lora.Link.{received}
use gtw_jalles_websoket_blue.Gateway.Patch.{
  level_key, free_indices, patch_init, queue_http_request, coalesce_from,
  coalesce_queued_tank_level, coalesces, enqueue, give_back, is_tank_level_patch, patch_slot_set,
  take_slot, queue_patch_request,
}
use gtw_jalles_websoket_blue.Gateway.Patch.Slots.{patch_init-IsPool}
use gtw_jalles_websoket_blue.Gateway.Telemetry.{
  TelemetryStats, Telemetry, Reception, queue_telemetry, telemetry_body, ack_frame, dup_index,
  gtw_send_ack, pump_path, tank_path, is_repeat,
}
use gtw_jalles_websoket_blue.Gateway.Telemetry.Round.{
  telemetry_round, telemetry_rounds, answer, receive_failed, take_ping, take_queued, take_data,
  take_other, telemetry_verdict, telemetry_act, frame_came, telemetry_answer,
}
use gtw_jalles_websoket_blue.Gateway.Telemetry.History.{WasQueued}
use gtw_jalles_websoket_blue.Gateway.Telemetry.Acks.{Answers, telemetry_round-Answers}
use gtw_jalles_websoket_blue.Gateway.Telemetry.Counters.{IsCounted, telemetry_rounds-IsCounted}
use gtw_jalles_websoket_blue.Gateway.Telemetry.Once.{IsHarmless, elsewhere}
use gtw_jalles_websoket_blue.Gateway.Telemetry.Repeat.{OnlyAnswers, IsTankData, telemetry_once}
use gtw_jalles_websoket_blue.Gateway.Telemetry.Accepts.{queue_telemetry_iff}
use gtw_jalles_websoket_blue.Gateway.Receive.{semantic_ok}
use gtw_jalles_websoket_blue.Lora.Crc.{lora_crc16, crc_bit, crc_bits, crc_byte, crc_from}

-- The text is {}.
abbrev level_frame : LoraAppFrame
level_frame = record {
  preamble = preamble_byte;
  src_type = dev_tank;
  src_id = 42;
  dst_type = dev_gtw;
  dst_id = 7;
  msg_type = msg_data;
  msg_id = 9;
  len = 2;
  has_bomba_id = 0;
  bomba_id = 0;
  payload = 123 ∷ 125 ∷ replicate 62 0;
  crc = 0;
}

abbrev heard : ℕ → LoraAppFrame → Reception
heard ticks frame = record {
  answer = pos (length (air_bytes frame));
  rx = received (air_bytes frame);
  now_ms = 5000;
  ticks = ticks;
  ack_lock = true;
  locks = record { first = true; second = true; fill = true; undo = true };
}

abbrev no_stats : TelemetryStats
no_stats = record {
  timeout = 0;
  frame_ok = 0;
  incomplete = 0;
  bad_preamble = 0;
  bad_crc = 0;
  semantic_invalid = 0;
  wrong_dst = 0;
  ack_unexpected = 0;
  ping_rx = 0;
  data_rx = 0;
  duplicate = 0;
  queue_accept = 0;
  queue_reject = 0;
  ack_sent = 0;
}

abbrev telemetry : Telemetry
telemetry = record {
  device_id = 7;
  lora_ready = true;
  uart_error_streak = 0;
  last_rx_ms = 0;
  stats = no_stats;
  dup_cache = λ i. record { used = false; src_id = 0; msg_id = 0; accepted_at = 0 };
  patch = patch_init;
  air = [];
}

abbrev first : Reception
first = heard 100 level_frame

-- A ping of the same tank, with the next message number.
abbrev between : Reception
between = heard 200 (record level_frame { msg_type = msg_ping; msg_id = 10 })

abbrev second : Reception
second = heard 300 level_frame

telemetry_round-Answers_example :
    Answers
      (WasQueued (first ∷ between ∷ []) telemetry second)
      second
      (telemetry_rounds (first ∷ between ∷ []) telemetry)
      (telemetry_round second (telemetry_rounds (first ∷ between ∷ []) telemetry))
telemetry_round-Answers_example =
    telemetry_round-Answers (first ∷ between ∷ []) second telemetry (λ i. refl)

three_rounds : IsCounted (telemetry_rounds (first ∷ between ∷ second ∷ []) telemetry)
three_rounds =
    telemetry_rounds-IsCounted (first ∷ between ∷ second ∷ []) telemetry
      (record { data_frames = refl; answers = refl })

queue_telemetry_iff_example : ((queue_telemetry first.locks level_frame patch_init).1 ≡ true) ↔ (
    (level_frame.has_bomba_id ≤ 2)
    × (((level_frame.has_bomba_id ≡ 0) × (contains level_key (telemetry_body level_frame) ≡ true))
        ⊎ (0 < length patch_init.free)))
queue_telemetry_iff_example =
    queue_telemetry_iff first.locks level_frame patch_init patch_init-IsPool

abbrev before : Telemetry
before = telemetry_rounds (between ∷ []) (telemetry_round first telemetry)

one_accepted : (telemetry_round first telemetry).stats.queue_accept ≡ 1
unfolding queue_http_request coalesce_from coalesce_queued_tank_level coalesces enqueue give_back
    is_tank_level_patch patch_slot_set take_slot queue_patch_request ack_frame dup_index
    gtw_send_ack pump_path tank_path is_repeat queue_telemetry telemetry_body answer receive_failed
    take_ping take_queued take_data take_other telemetry_verdict telemetry_act frame_came
    telemetry_answer telemetry_round telemetry_rounds semantic_ok lora_crc16 crc_bit crc_bits
    crc_byte crc_from air_bytes air_body header_bytes struct_bytes frame_of lora_frame_air_len
    lora_received_frame_valid c_string contains print_number same_text starts_with patch_init
    free_indices
one_accepted = refl

second-IsTankData : IsTankData second before (length (air_bytes level_frame))
unfolding queue_http_request coalesce_from coalesce_queued_tank_level coalesces enqueue give_back
    is_tank_level_patch patch_slot_set take_slot queue_patch_request ack_frame dup_index
    gtw_send_ack pump_path tank_path is_repeat queue_telemetry telemetry_body answer receive_failed
    take_ping take_queued take_data take_other telemetry_verdict telemetry_act frame_came
    telemetry_answer telemetry_round telemetry_rounds semantic_ok lora_crc16 crc_bit crc_bits
    crc_byte crc_from air_bytes air_body header_bytes struct_bytes frame_of lora_frame_air_len
    lora_received_frame_valid c_string contains print_number same_text starts_with patch_init
    free_indices
second-IsTankData = record { came = refl; passed = refl; from_tank = refl; is_data = refl }

between-IsHarmless : IsHarmless first between
unfolding dup_index frame_of air_bytes air_body header_bytes struct_bytes
between-IsHarmless = elsewhere (λ h. ground arith)

telemetry_once_example : OnlyAnswers second before (telemetry_round second before)
telemetry_once_example =
    telemetry_once first telemetry (between ∷ []) second (length (air_bytes level_frame))
      (λ h. ground (arith, one_accepted)) (between-IsHarmless, _) second-IsTankData refl refl
      (ground arith)
