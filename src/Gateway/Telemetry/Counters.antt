-- ===== src/Gateway/Telemetry/Counters.antt =====
-- The counters of the receiving gateway.
use gtw_jalles_websoket_blue.Prelude.{
  ◌+◌, ◌%◌, ◌^◌, ◌≡◌, Bool, true, false, ◌&&◌, List, [], ◌∷◌, ℤ, pos, negsuc, leb, ◌==◌, if-elim,
  arith,
}
use gtw_jalles_websoket_blue.Gateway.Receive.{
  next, next_streak, Verdict, incomplete, bad_preamble, bad_crc, semantic_invalid, not_for_us,
  acknowledgement, other,
}
use gtw_jalles_websoket_blue.Lora.Frame.{dev_tank, msg_data, msg_ping}
use gtw_jalles_websoket_blue.Gateway.Patch.{Patch}
use gtw_jalles_websoket_blue.Gateway.Telemetry.{
  Telemetry, Reception, gtw_send_ack, dup_index, is_repeat,
}
use gtw_jalles_websoket_blue.Gateway.Telemetry.Round.{
  answer, take_ping, take_queued, take_data, take_other, telemetry_act, receive_failed, frame_came,
  telemetry_answer, telemetry_round, telemetry_rounds,
}

-- Each frame of data is counted once by what became of it, and each answer once by its reason, up to the
-- wrap of the counters.
pub record IsCounted (t : Telemetry) : Type 0 where
  pub data_frames :
      t.stats.data_rx ≡ (t.stats.duplicate + t.stats.queue_accept + t.stats.queue_reject) % 2 ^ 32
  pub answers :
      t.stats.ack_sent ≡ (t.stats.ping_rx + t.stats.duplicate + t.stats.queue_accept) % 2 ^ 32

-- The same before the last answer is counted.
record IsUncounted (t : Telemetry) : Type 0 where
  data_frames :
      t.stats.data_rx ≡ (t.stats.duplicate + t.stats.queue_accept + t.stats.queue_reject) % 2 ^ 32
  answers :
      next t.stats.ack_sent ≡ (t.stats.ping_rx + t.stats.duplicate + t.stats.queue_accept) % 2 ^ 32

answer-IsCounted : (r : Reception) (t : Telemetry) → IsUncounted t → IsCounted (answer r t)
unfolding answer gtw_send_ack
answer-IsCounted r t c =
    if-elim IsCounted r.ack_lock
      (λ free. record { data_frames = c.data_frames; answers = c.answers })
      (λ busy. record { data_frames = c.data_frames; answers = c.answers })

take_queued-IsCounted :
    (r : Reception) (x : Patch × Bool) (t : Telemetry)
    → t.stats.data_rx
      ≡ next ((t.stats.duplicate + t.stats.queue_accept + t.stats.queue_reject) % 2 ^ 32)
    → t.stats.ack_sent ≡ (t.stats.ping_rx + t.stats.duplicate + t.stats.queue_accept) % 2 ^ 32
    → IsCounted (take_queued r x t)
unfolding take_queued
take_queued-IsCounted r (p, true) t d a =
    answer-IsCounted r _ (record { data_frames = omega (arith, d); answers = omega (arith, a) })
take_queued-IsCounted r (p, false) t d a = record { data_frames = omega (arith, d); answers = a }

take_data-IsCounted : (r : Reception) (t : Telemetry) → IsCounted t → IsCounted (take_data r t)
unfolding take_data
take_data-IsCounted r t c =
    if-elim IsCounted (is_repeat (t.dup_cache (dup_index r.rx)) r.rx r.ticks)
      (λ again.
        answer-IsCounted r _ (record {
          data_frames = omega (arith, c.data_frames);
          answers = omega (arith, c.answers);
        }))
      (λ first. take_queued-IsCounted r _ _ (omega (arith, c.data_frames)) c.answers)

take_other-IsCounted : (r : Reception) (t : Telemetry) → IsCounted t → IsCounted (take_other r t)
unfolding take_other take_ping
take_other-IsCounted r t c =
    if-elim IsCounted (r.rx.src_type == dev_tank && r.rx.msg_type == msg_ping)
      (λ ping.
        answer-IsCounted r _
          (record { data_frames = c.data_frames; answers = omega (arith, c.answers) }))
      (λ h.
        if-elim IsCounted (r.rx.src_type == dev_tank && r.rx.msg_type == msg_data)
          (λ is_data. take_data-IsCounted r t c) (λ neither. c))

telemetry_act-IsCounted :
    (v : Verdict) (r : Reception) (t : Telemetry) → IsCounted t → IsCounted (telemetry_act v r t)
unfolding telemetry_act
telemetry_act-IsCounted incomplete r t c = record {
  data_frames = c.data_frames;
  answers = c.answers;
}
telemetry_act-IsCounted bad_preamble r t c = record {
  data_frames = c.data_frames;
  answers = c.answers;
}
telemetry_act-IsCounted bad_crc r t c = record { data_frames = c.data_frames; answers = c.answers }
telemetry_act-IsCounted semantic_invalid r t c = record {
  data_frames = c.data_frames;
  answers = c.answers;
}
telemetry_act-IsCounted not_for_us r t c = record {
  data_frames = c.data_frames;
  answers = c.answers;
}
telemetry_act-IsCounted acknowledgement r t c = record {
  data_frames = c.data_frames;
  answers = c.answers;
}
telemetry_act-IsCounted other r t c =
    take_other-IsCounted r _ (record { data_frames = c.data_frames; answers = c.answers })

telemetry_answer-IsCounted :
    (a : ℤ) (r : Reception) (t : Telemetry) → IsCounted t → IsCounted (telemetry_answer a r t)
unfolding telemetry_answer receive_failed frame_came
telemetry_answer-IsCounted (negsuc n) r t c =
    if-elim IsCounted (leb 3 (next_streak t.uart_error_streak))
      (λ third. record { data_frames = c.data_frames; answers = c.answers })
      (λ few. record { data_frames = c.data_frames; answers = c.answers })
telemetry_answer-IsCounted (pos len) r t c =
    if-elim IsCounted (len == 0)
      (λ quiet. record { data_frames = c.data_frames; answers = c.answers })
      (λ came.
        telemetry_act-IsCounted _ r _ (record { data_frames = c.data_frames; answers = c.answers }))

-- Through any rounds, every frame of data is counted as a duplicate, as accepted or as rejected, and
-- every answer has a ping, a duplicate or an accepted frame of data behind it, up to the wrap of the
-- counters.
pub telemetry_rounds-IsCounted :
    (rs : List Reception) (t : Telemetry) → IsCounted t → IsCounted (telemetry_rounds rs t)
unfolding telemetry_rounds telemetry_round
telemetry_rounds-IsCounted [] t c = c
telemetry_rounds-IsCounted (r ∷ rs) t c =
    telemetry_rounds-IsCounted rs _ (telemetry_answer-IsCounted r.answer r t c)
