-- ===== src/Gateway/Telemetry/Once.antt =====
-- A frame of data that a tank repeats, because it missed the answer, is queued once.
use gtw_jalles_websoket_blue.Prelude.{
  ℕ, ◌<◌, ◌≡◌, ◌≢◌, refl, Bool, true, false, ◌&&◌, List, [], ◌∷◌, ℤ, pos, negsuc, leb, ◌==◌,
  if-elim, All, arith,
}
use gtw_jalles_websoket_blue.Lora.Frame.{dev_tank, msg_data, msg_ping}
use gtw_jalles_websoket_blue.Gateway.Receive.{
  next_streak, Verdict, incomplete, bad_preamble, bad_crc, semantic_invalid, not_for_us,
  acknowledgement, other,
}
use gtw_jalles_websoket_blue.Gateway.Patch.{Patch}
use gtw_jalles_websoket_blue.Gateway.Telemetry.{
  Telemetry, Reception, repeat_window, gtw_send_ack, dup_index, ticks_since, is_repeat,
}
use gtw_jalles_websoket_blue.Gateway.Telemetry.Round.{
  answer, take_ping, take_queued, take_data, take_other, telemetry_act, receive_failed, frame_came,
  telemetry_answer, telemetry_round, telemetry_rounds,
}

-- The cache holds the frame of round `r` as accepted in that round.
pub record Remembers (r : Reception) (u : Telemetry) : Type 0 where
  pub held :
      u.dup_cache (dup_index r.rx)
      ≡ (record { used = true; src_id = r.rx.src_id; msg_id = r.rx.msg_id; accepted_at = r.ticks })

-- A round either accepts no data, or remembers what it accepted.
pub data Takes (r : Reception) (t u : Telemetry) : Type 0 where
  nothing : u.stats.queue_accept ≡ t.stats.queue_accept → Takes r t u
  taken : Remembers r u → Takes r t u

answer-Takes :
    (r : Reception) (t u : Telemetry)
    → u.stats.queue_accept ≡ t.stats.queue_accept
    → Takes r t (answer r u)
unfolding answer gtw_send_ack
answer-Takes r t u e = if-elim (Takes r t) r.ack_lock (λ free. nothing e) (λ busy. nothing e)

same_index : (n : ℕ) → (n == n) ≡ true
same_index n = ground arith

take_queued-Takes :
    (r : Reception) (t u : Telemetry) (x : Patch × Bool)
    → u.stats.queue_accept ≡ t.stats.queue_accept
    → Takes r t (take_queued r x u)
unfolding take_queued answer gtw_send_ack
take_queued-Takes r t u (p, true) e =
    if-elim (Takes r t) r.ack_lock
      (λ free. taken (record { held = rw (same_index (dup_index r.rx)) refl }))
      (λ busy. taken (record { held = rw (same_index (dup_index r.rx)) refl }))
take_queued-Takes r t u (p, false) e = nothing e

take_other-Takes :
    (r : Reception) (t u : Telemetry)
    → u.stats.queue_accept ≡ t.stats.queue_accept
    → Takes r t (take_other r u)
unfolding take_other take_ping take_data
take_other-Takes r t u e =
    if-elim (Takes r t) (r.rx.src_type == dev_tank && r.rx.msg_type == msg_ping)
      (λ ping. answer-Takes r t _ e)
      (λ h.
        if-elim (Takes r t) (r.rx.src_type == dev_tank && r.rx.msg_type == msg_data)
          (λ is_data.
            if-elim (Takes r t) (is_repeat (u.dup_cache (dup_index r.rx)) r.rx r.ticks)
              (λ again. answer-Takes r t _ e) (λ first. take_queued-Takes r t _ _ e))
          (λ neither. nothing e))

telemetry_act-Takes :
    (v : Verdict) (r : Reception) (t : Telemetry) → Takes r t (telemetry_act v r (frame_came t))
unfolding telemetry_act frame_came
telemetry_act-Takes incomplete r t = nothing refl
telemetry_act-Takes bad_preamble r t = nothing refl
telemetry_act-Takes bad_crc r t = nothing refl
telemetry_act-Takes semantic_invalid r t = nothing refl
telemetry_act-Takes not_for_us r t = nothing refl
telemetry_act-Takes acknowledgement r t = nothing refl
telemetry_act-Takes other r t = take_other-Takes r t _ refl

pub telemetry_answer-Takes :
    (a : ℤ) (r : Reception) (t : Telemetry) → Takes r t (telemetry_answer a r t)
unfolding telemetry_answer receive_failed
telemetry_answer-Takes (negsuc n) r t =
    if-elim (Takes r t) (leb 3 (next_streak t.uart_error_streak)) (λ third. nothing refl)
      (λ few. nothing refl)
telemetry_answer-Takes (pos len) r t =
    if-elim (Takes r t) (len == 0) (λ quiet. nothing refl) (λ came. telemetry_act-Takes _ r t)

-- A round `q` that leaves the memory of round `r` alone: its frame has another place in the cache, or is
-- the same one again in time.
pub data IsHarmless (r q : Reception) : Type 0 where
  elsewhere : dup_index r.rx ≢ dup_index q.rx → IsHarmless r q
  again :
      q.rx.src_id ≡ r.rx.src_id
      → q.rx.msg_id ≡ r.rx.msg_id
      → ticks_since q.ticks r.ticks < repeat_window
      → IsHarmless r q

pub again-is_repeat :
    (r q : Reception) (u : Telemetry)
    → Remembers r u
    → q.rx.src_id ≡ r.rx.src_id
    → q.rx.msg_id ≡ r.rx.msg_id
    → ticks_since q.ticks r.ticks < repeat_window
    → is_repeat (u.dup_cache (dup_index q.rx)) q.rx q.ticks ≡ true
unfolding is_repeat dup_index
again-is_repeat r q u m s i soon = rw (s, i, m.held) (ground arith)

answer-Remembers : (r q : Reception) (u : Telemetry) → Remembers r u → Remembers r (answer q u)
unfolding answer gtw_send_ack
answer-Remembers r q u m =
    if-elim (Remembers r) q.ack_lock (λ free. record { held = m.held })
      (λ busy. record { held = m.held })

take_queued-Remembers :
    (r q : Reception) (u : Telemetry) (x : Patch × Bool)
    → Remembers r u
    → dup_index r.rx ≢ dup_index q.rx
    → Remembers r (take_queued q x u)
unfolding take_queued
take_queued-Remembers r q u (p, true) m apart =
    let no : (dup_index r.rx == dup_index q.rx) ≡ false = ground arith in
    answer-Remembers r q _ (record { held = rw no m.held })
take_queued-Remembers r q u (p, false) m apart = record { held = m.held }

take_data-Remembers :
    (r q : Reception) (u : Telemetry) → IsHarmless r q → Remembers r u → Remembers r (take_data q u)
unfolding take_data
take_data-Remembers r q u (elsewhere apart) m =
    if-elim (Remembers r) (is_repeat (u.dup_cache (dup_index q.rx)) q.rx q.ticks)
      (λ again. answer-Remembers r q _ (record { held = m.held }))
      (λ first. take_queued-Remembers r q _ _ (record { held = m.held }) apart)
take_data-Remembers r q u (again s i soon) m =
    rw (again-is_repeat r q u m s i soon) (answer-Remembers r q _ (record { held = m.held }))

take_other-Remembers :
    (r q : Reception) (u : Telemetry)
    → IsHarmless r q
    → Remembers r u
    → Remembers r (take_other q u)
unfolding take_other take_ping
take_other-Remembers r q u h m =
    if-elim (Remembers r) (q.rx.src_type == dev_tank && q.rx.msg_type == msg_ping)
      (λ ping. answer-Remembers r q _ (record { held = m.held }))
      (λ no_ping.
        if-elim (Remembers r) (q.rx.src_type == dev_tank && q.rx.msg_type == msg_data)
          (λ is_data. take_data-Remembers r q u h m) (λ neither. m))

telemetry_act-Remembers :
    (v : Verdict) (r q : Reception) (u : Telemetry)
    → IsHarmless r q
    → Remembers r u
    → Remembers r (telemetry_act v q u)
unfolding telemetry_act
telemetry_act-Remembers incomplete r q u h m = record { held = m.held }
telemetry_act-Remembers bad_preamble r q u h m = record { held = m.held }
telemetry_act-Remembers bad_crc r q u h m = record { held = m.held }
telemetry_act-Remembers semantic_invalid r q u h m = record { held = m.held }
telemetry_act-Remembers not_for_us r q u h m = record { held = m.held }
telemetry_act-Remembers acknowledgement r q u h m = record { held = m.held }
telemetry_act-Remembers other r q u h m = take_other-Remembers r q _ h (record { held = m.held })

telemetry_answer-Remembers :
    (a : ℤ) (r q : Reception) (u : Telemetry)
    → IsHarmless r q
    → Remembers r u
    → Remembers r (telemetry_answer a q u)
unfolding telemetry_answer receive_failed frame_came
telemetry_answer-Remembers (negsuc n) r q u h m =
    if-elim (Remembers r) (leb 3 (next_streak u.uart_error_streak))
      (λ third. record { held = m.held }) (λ few. record { held = m.held })
telemetry_answer-Remembers (pos len) r q u h m =
    if-elim (Remembers r) (len == 0) (λ quiet. record { held = m.held })
      (λ came. telemetry_act-Remembers _ r q _ h (record { held = m.held }))

pub telemetry_rounds-Remembers :
    (r : Reception) (qs : List Reception) (u : Telemetry)
    → All (IsHarmless r) qs
    → Remembers r u
    → Remembers r (telemetry_rounds qs u)
unfolding telemetry_rounds telemetry_round
telemetry_rounds-Remembers r [] u h m = m
telemetry_rounds-Remembers r (q ∷ qs) u (h, hs) m =
    telemetry_rounds-Remembers r qs _ hs (telemetry_answer-Remembers q.answer r q u h m)
