-- ===== src/Gateway/Telemetry/Repeat.antt =====
-- What the receiving gateway does at data that it has accepted before.
use gtw_jalles_websoket_blue.Prelude.{
  ℕ, ◌<◌, ◌≡◌, ◌≢◌, refl, true, false, ◌&&◌, List, [], ◌∷◌, ◌++◌, pos, ◌==◌, if◌then◌else◌, inl,
  inr, Bool-cases, All, arith,
}
use gtw_jalles_websoket_blue.Lora.Frame.{LoraAppFrame, dev_tank, msg_data, msg_ping, air_bytes}
use gtw_jalles_websoket_blue.Gateway.Receive.{other}
use gtw_jalles_websoket_blue.Gateway.Telemetry.{
  Telemetry, Reception, repeat_window, ack_frame, gtw_send_ack, dup_index, ticks_since, is_repeat,
}
use gtw_jalles_websoket_blue.Gateway.Telemetry.Round.{
  answer, take_data, telemetry_verdict, take_other, telemetry_act, frame_came, telemetry_answer,
  telemetry_round, telemetry_rounds,
}
use gtw_jalles_websoket_blue.Gateway.Telemetry.Once.{
  nothing, taken, telemetry_answer-Takes, IsHarmless, again-is_repeat, telemetry_rounds-Remembers,
}

-- The queue of requests is as before, and the answer went out if the radio was free for it.
pub record OnlyAnswers (q : Reception) (u v : Telemetry) : Type 0 where
  pub queue : v.patch ≡ u.patch
  pub air :
      v.air ≡ (if q.ack_lock then u.air ++ air_bytes (ack_frame u.device_id q.rx) ∷ [] else u.air)

-- A frame of data from a tank, whole and for this gateway.
pub record IsTankData (q : Reception) (u : Telemetry) (len : ℕ) : Type 0 where
  pub came : q.answer ≡ pos len
  pub passed : telemetry_verdict u.device_id q.rx len ≡ other
  pub from_tank : q.rx.src_type ≡ dev_tank
  pub is_data : q.rx.msg_type ≡ msg_data

passed_some :
    (device_id : ℕ) (rx : LoraAppFrame) (len : ℕ)
    → telemetry_verdict device_id rx len ≡ other
    → (len == 0) ≡ false
unfolding telemetry_verdict
passed_some device_id rx len h = ground arith

take_data-OnlyAnswers :
    (q : Reception) (u : Telemetry)
    → is_repeat (u.dup_cache (dup_index q.rx)) q.rx q.ticks ≡ true
    → OnlyAnswers q u (take_data q (record (frame_came u) { last_rx_ms = q.now_ms }))
unfolding take_data frame_came answer gtw_send_ack
take_data-OnlyAnswers q u seen = elim (Bool-cases q.ack_lock) [
  | inl free ↦ simp (seen, free) (record { queue = refl; air = simp free refl })
  | inr busy ↦ simp (seen, busy) (record { queue = refl; air = simp busy refl })
]

telemetry_round-OnlyAnswers :
    (q : Reception) (u : Telemetry) (len : ℕ)
    → IsTankData q u len
    → is_repeat (u.dup_cache (dup_index q.rx)) q.rx q.ticks ≡ true
    → OnlyAnswers q u (telemetry_round q u)
unfolding telemetry_round telemetry_answer telemetry_act take_other
telemetry_round-OnlyAnswers q u len d seen =
    let no_ping : (q.rx.src_type == dev_tank && q.rx.msg_type == msg_ping) ≡ false = ground arith in
    let data_frame : (q.rx.src_type == dev_tank && q.rx.msg_type == msg_data) ≡ true =
      ground arith in
    simp (d.came, passed_some u.device_id q.rx len d.passed, d.passed, no_ping, data_frame)
      (take_data-OnlyAnswers q u seen)

-- If a round accepts data into the queue, and every round after it brings a frame with another place in
-- the cache or the same message again within 15 seconds of the first, then the same message of the same
-- tank, received whole within 15 seconds of the first, is answered if the radio is free and changes
-- nothing in the queue.
pub telemetry_once :
    (r : Reception) (t : Telemetry) (qs : List Reception) (q : Reception) (len : ℕ)
    → (telemetry_round r t).stats.queue_accept ≢ t.stats.queue_accept
    → All (IsHarmless r) qs
    → IsTankData q (telemetry_rounds qs (telemetry_round r t)) len
    → q.rx.src_id ≡ r.rx.src_id
    → q.rx.msg_id ≡ r.rx.msg_id
    → ticks_since q.ticks r.ticks < repeat_window
    → OnlyAnswers q
        (telemetry_rounds qs (telemetry_round r t))
        (telemetry_round q (telemetry_rounds qs (telemetry_round r t)))
unfolding telemetry_round
telemetry_once r t qs q len accepted harmless d s i soon =
    elim (telemetry_answer-Takes r.answer r t) [
      | nothing e ↦ absurd (accepted e)
      | taken m ↦
          telemetry_round-OnlyAnswers q _ len d
            (again-is_repeat r q _ (telemetry_rounds-Remembers r qs _ harmless m) s i soon)
    ]
