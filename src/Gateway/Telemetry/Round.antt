-- ===== src/Gateway/Telemetry/Round.antt =====
-- A round of `gtw_lora_rx_task` of main/main.c in the build that receives telemetry.
use gtw_jalles_websoket_blue.Prelude.{
  ℕ, Bool, true, false, not, ◌&&◌, ◌||◌, List, [], ◌∷◌, ℤ, pos, negsuc, leb, ◌==◌, if◌then◌else◌,
}
use gtw_jalles_websoket_blue.Lora.Frame.{
  LoraAppFrame, preamble_byte, dev_gtw, dev_tank, msg_data, msg_ack, msg_ping, lora_frame_air_len,
  lora_received_frame_valid,
}
use gtw_jalles_websoket_blue.Gateway.Receive.{
  next, next_streak, Verdict, incomplete, bad_preamble, bad_crc, semantic_invalid, not_for_us,
  acknowledgement, other, semantic_ok,
}
use gtw_jalles_websoket_blue.Gateway.Patch.{Patch}
use gtw_jalles_websoket_blue.Gateway.Telemetry.{
  TelemetryStats, Telemetry, Reception, gtw_send_ack, dup_index, is_repeat, queue_telemetry,
}

-- `ack_sent` counts every answer asked for.
unfoldable pub answer : Reception → Telemetry → Telemetry
answer r t =
    gtw_send_ack r.ack_lock r.rx
      (record t { stats = record stats { ack_sent = next stats.ack_sent } })
  where
    stats : TelemetryStats
    stats = t.stats

unfoldable pub take_ping : Reception → Telemetry → Telemetry
take_ping r t = answer r (record t { stats = record stats { ping_rx = next stats.ping_rx } })
  where
    stats : TelemetryStats
    stats = t.stats

-- The request was queued, or not.
unfoldable pub take_queued : Reception → Patch × Bool → Telemetry → Telemetry
take_queued r (p, true) t = answer r (record t {
  patch = p;
  stats = record stats { queue_accept = next stats.queue_accept };
  dup_cache = λ i.
      if i == dup_index r.rx
      then record { used = true; src_id = r.rx.src_id; msg_id = r.rx.msg_id; accepted_at = r.ticks }
      else t.dup_cache i;
})
  where
    stats : TelemetryStats
    stats = t.stats
take_queued r (p, false) t = record t {
  patch = p;
  stats = record stats { queue_reject = next stats.queue_reject };
}
  where
    stats : TelemetryStats
    stats = t.stats

unfoldable pub take_data : Reception → Telemetry → Telemetry
take_data r t =
    if is_repeat (t.dup_cache (dup_index r.rx)) r.rx r.ticks
    then answer r (record counted { stats = record stats { duplicate = next stats.duplicate } })
    else take_queued r (queue_telemetry r.locks r.rx t.patch) counted
  where
    stats : TelemetryStats
    stats = record old { data_rx = next old.data_rx }
      where
        old : TelemetryStats
        old = t.stats

    counted : Telemetry
    counted = record t { stats = stats }

-- What the tests on a frame decide, in the order of the source.
unfoldable pub telemetry_verdict : ℕ → LoraAppFrame → ℕ → Verdict
telemetry_verdict device_id rx len =
    if lora_frame_air_len rx == 0 || not (len == lora_frame_air_len rx)
    then incomplete
    else if not (rx.preamble == preamble_byte)
    then bad_preamble
    else if not (lora_received_frame_valid rx len).ok
    then bad_crc
    else if not (semantic_ok rx)
    then semantic_invalid
    else if not (rx.dst_type == dev_gtw && rx.dst_id == device_id)
    then not_for_us
    else if rx.msg_type == msg_ack
    then acknowledgement
    else other

-- A frame for this gateway that is not an acknowledgement.
unfoldable pub take_other : Reception → Telemetry → Telemetry
take_other r t =
    if rx.src_type == dev_tank && rx.msg_type == msg_ping
    then take_ping r t
    else if rx.src_type == dev_tank && rx.msg_type == msg_data
    then take_data r t
    else t
  where
    rx : LoraAppFrame
    rx = r.rx

unfoldable pub telemetry_act : Verdict → Reception → Telemetry → Telemetry
telemetry_act incomplete r t = record t {
  stats = record stats { incomplete = next stats.incomplete };
}
  where
    stats : TelemetryStats
    stats = t.stats
telemetry_act bad_preamble r t = record t {
  stats = record stats { bad_preamble = next stats.bad_preamble };
}
  where
    stats : TelemetryStats
    stats = t.stats
telemetry_act bad_crc r t = record t { stats = record stats { bad_crc = next stats.bad_crc } }
  where
    stats : TelemetryStats
    stats = t.stats
telemetry_act semantic_invalid r t = record t {
  stats = record stats { semantic_invalid = next stats.semantic_invalid };
}
  where
    stats : TelemetryStats
    stats = t.stats
telemetry_act not_for_us r t = record t {
  stats = record stats { wrong_dst = next stats.wrong_dst };
}
  where
    stats : TelemetryStats
    stats = t.stats
telemetry_act acknowledgement r t = record t {
  last_rx_ms = r.now_ms;
  stats = record stats { ack_unexpected = next stats.ack_unexpected };
}
  where
    stats : TelemetryStats
    stats = t.stats
telemetry_act other r t = take_other r (record t { last_rx_ms = r.now_ms })

-- `len < 0`: the third failure in a row marks the radio as out of order.
unfoldable pub receive_failed : Telemetry → Telemetry
receive_failed t =
    if leb 3 (next_streak t.uart_error_streak)
    then record t { lora_ready = false; uart_error_streak = 0 }
    else record t { uart_error_streak = next_streak t.uart_error_streak }

-- A frame came: the radio works.
unfoldable pub frame_came : Telemetry → Telemetry
frame_came t = record t {
  lora_ready = true;
  uart_error_streak = 0;
  stats = record stats { frame_ok = next stats.frame_ok };
}
  where
    stats : TelemetryStats
    stats = t.stats

unfoldable pub telemetry_answer : ℤ → Reception → Telemetry → Telemetry
telemetry_answer (negsuc n) r t = receive_failed t
telemetry_answer (pos len) r t =
    if len == 0
    then record t { stats = record stats { timeout = next stats.timeout } }
    else telemetry_act (telemetry_verdict t.device_id r.rx len) r (frame_came t)
  where
    stats : TelemetryStats
    stats = t.stats

unfoldable pub telemetry_round : Reception → Telemetry → Telemetry
telemetry_round r t = telemetry_answer r.answer r t

unfoldable pub telemetry_rounds : List Reception → Telemetry → Telemetry
telemetry_rounds [] t = t
telemetry_rounds (r ∷ rs) t = telemetry_rounds rs (telemetry_round r t)
