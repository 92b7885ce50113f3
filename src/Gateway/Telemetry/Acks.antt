-- ===== src/Gateway/Telemetry/Acks.antt =====
-- When the receiving gateway acknowledges a frame, and that its counters agree.
use gtw_jalles_websoket_blue.Prelude.{
  ℕ, ◌%◌, ◌^◌, List, ◌≡◌, refl, Bool, true, false, ◌&&◌, [], ◌∷◌, ◌++◌, ℤ, pos, negsuc, leb, ◌==◌,
  inl, inr, Bool-cases, if-elim, arith,
}
use gtw_jalles_websoket_blue.Lora.Frame.{
  LoraAppFrame, preamble_byte, dev_gtw, dev_tank, msg_data, msg_ack, msg_ping, lora_frame_air_len,
  air_bytes, lora_received_frame_valid,
}
use gtw_jalles_websoket_blue.Gateway.Receive.{
  next_streak, Verdict, incomplete, bad_preamble, bad_crc, semantic_invalid, not_for_us,
  acknowledgement, other, semantic_ok,
}
use gtw_jalles_websoket_blue.Gateway.Patch.{Patch}
use gtw_jalles_websoket_blue.Gateway.Telemetry.{
  Telemetry, Reception, ack_frame, gtw_send_ack, dup_index, is_repeat, queue_telemetry,
}
use gtw_jalles_websoket_blue.Gateway.Telemetry.History.{WasQueued, is_repeat-WasQueued}
use gtw_jalles_websoket_blue.Gateway.Telemetry.Round.{
  answer, take_ping, take_queued, take_data, telemetry_verdict, take_other, telemetry_act,
  receive_failed, frame_came, telemetry_answer, telemetry_round, telemetry_rounds,
}

-- A frame that a tank sent to this gateway and that arrived whole.
pub record IsTankFrame (device_id : ℕ) (rx : LoraAppFrame) (len : ℕ) : Type 0 where
  pub whole : lora_frame_air_len rx ≡ len
  pub marked : rx.preamble ≡ preamble_byte
  pub intact : (lora_received_frame_valid rx len).ok ≡ true
  pub from_tank : rx.src_type ≡ dev_tank
  pub to_gateway : rx.dst_type ≡ dev_gtw
  pub to_us : rx.dst_id ≡ device_id

-- What makes a frame worth an answer: it is a ping, or data that the gateway has seen, or that is queued
-- now.
pub data IsDue (Seen : Type 0) (r : Reception) (t : Telemetry) (p : Patch) : Type 0 where
  pinged : r.rx.msg_type ≡ msg_ping → IsDue Seen r t p
  repeated : r.rx.msg_type ≡ msg_data → Seen → IsDue Seen r t p
  queued :
      r.rx.msg_type ≡ msg_data → queue_telemetry r.locks r.rx t.patch ≡ (p, true) → IsDue Seen r t p

-- An acknowledgement of frame `rx` of a tank: to its sender and with its number.
pub record IsAckOf (device_id : ℕ) (rx f : LoraAppFrame) : Type 0 where
  pub marked : f.preamble ≡ preamble_byte
  pub from_gateway : f.src_type ≡ dev_gtw
  pub from_us : f.src_id ≡ device_id % 2 ^ 16
  pub to_tank : f.dst_type ≡ dev_tank
  pub to_sender : f.dst_id ≡ rx.src_id
  pub is_ack : f.msg_type ≡ msg_ack
  pub number : f.msg_id ≡ rx.msg_id
  pub empty : f.len ≡ 0

-- What a round puts on the air: nothing, or one acknowledgement, which was due.
pub data Answers (Seen : Type 0) (r : Reception) (t u : Telemetry) : Type 0 where
  silent : u.air ≡ t.air → Answers Seen r t u
  answered :
      (len : ℕ) (f : LoraAppFrame)
      → r.answer ≡ pos len
      → IsTankFrame t.device_id r.rx len
      → IsDue Seen r t u.patch
      → IsAckOf t.device_id r.rx f
      → u.air ≡ t.air ++ air_bytes f ∷ []
      → Answers Seen r t u

-- The code's own test for data that it has seen.
abbrev IsAgain : Reception → Telemetry → Type 0
IsAgain r t = is_repeat (t.dup_cache (dup_index r.rx)) r.rx r.ticks ≡ true

ack_frame-IsAckOf :
    (device_id : ℕ) (rx : LoraAppFrame)
    → rx.src_type ≡ dev_tank
    → IsAckOf device_id rx (ack_frame device_id rx)
unfolding ack_frame
ack_frame-IsAckOf device_id rx tank = record {
  marked = refl;
  from_gateway = refl;
  from_us = refl;
  to_tank = tank;
  to_sender = refl;
  is_ack = refl;
  number = refl;
  empty = refl;
}

telemetry_verdict_tank :
    (device_id : ℕ) (rx : LoraAppFrame) (len : ℕ)
    → telemetry_verdict device_id rx len ≡ other
    → rx.src_type ≡ dev_tank
    → IsTankFrame device_id rx len
unfolding telemetry_verdict semantic_ok
telemetry_verdict_tank device_id rx len h tank = record {
  whole = ground arith;
  marked = ground arith;
  intact = ground arith;
  from_tank = tank;
  to_gateway = ground arith;
  to_us = ground arith;
}

answer-Answers :
    (r : Reception) (t u : Telemetry) (len : ℕ)
    → r.answer ≡ pos len
    → IsTankFrame t.device_id r.rx len
    → u.air ≡ t.air
    → u.device_id ≡ t.device_id
    → IsDue (IsAgain r t) r t u.patch
    → Answers (IsAgain r t) r t (answer r u)
unfolding answer gtw_send_ack
answer-Answers r t u len e tank same us due = elim (Bool-cases r.ack_lock) [
  | inl free ↦
      simp (free, same, us)
        (answered len _ e tank due (ack_frame-IsAckOf t.device_id r.rx tank.from_tank) refl)
  | inr busy ↦ simp busy (silent same)
]

take_queued-Answers :
    (r : Reception) (t u : Telemetry) (len : ℕ) (x : Patch × Bool)
    → r.answer ≡ pos len
    → IsTankFrame t.device_id r.rx len
    → u.air ≡ t.air
    → u.device_id ≡ t.device_id
    → r.rx.msg_type ≡ msg_data
    → queue_telemetry r.locks r.rx t.patch ≡ x
    → Answers (IsAgain r t) r t (take_queued r x u)
unfolding take_queued
take_queued-Answers r t u len (p, true) e tank same us is_data q =
    answer-Answers r t _ len e tank same us (queued is_data q)
take_queued-Answers r t u len (p, false) e tank same us is_data q = silent same

take_data-Answers :
    (r : Reception) (t : Telemetry) (len : ℕ)
    → r.answer ≡ pos len
    → IsTankFrame t.device_id r.rx len
    → r.rx.msg_type ≡ msg_data
    → Answers (IsAgain r t) r t (take_data r (record (frame_came t) { last_rx_ms = r.now_ms }))
unfolding take_data frame_came
take_data-Answers r t len e tank is_data =
    if-elim (Answers (IsAgain r t) r t) (is_repeat (t.dup_cache (dup_index r.rx)) r.rx r.ticks)
      (λ again. answer-Answers r t _ len e tank refl refl (repeated is_data again))
      (λ first. take_queued-Answers r t _ len _ e tank refl refl is_data refl)

take_other-Answers :
    (r : Reception) (t : Telemetry) (len : ℕ)
    → r.answer ≡ pos len
    → telemetry_verdict t.device_id r.rx len ≡ other
    → Answers (IsAgain r t) r t (take_other r (record (frame_came t) { last_rx_ms = r.now_ms }))
unfolding take_other take_ping frame_came
take_other-Answers r t len e v =
    if-elim (Answers (IsAgain r t) r t) (r.rx.src_type == dev_tank && r.rx.msg_type == msg_ping)
      (λ ping.
        answer-Answers r t _ len e (telemetry_verdict_tank t.device_id r.rx len v (ground arith))
          refl refl (pinged (ground arith)))
      (λ h.
        if-elim (Answers (IsAgain r t) r t) (r.rx.src_type == dev_tank && r.rx.msg_type == msg_data)
          (λ is_data.
            take_data-Answers r t len e
              (telemetry_verdict_tank t.device_id r.rx len v (ground arith)) (ground arith))
          (λ neither. silent refl))

telemetry_act-Answers :
    (r : Reception) (t : Telemetry) (len : ℕ) (v : Verdict)
    → r.answer ≡ pos len
    → telemetry_verdict t.device_id r.rx len ≡ v
    → Answers (IsAgain r t) r t (telemetry_act v r (frame_came t))
unfolding telemetry_act frame_came
telemetry_act-Answers r t len incomplete e v = silent refl
telemetry_act-Answers r t len bad_preamble e v = silent refl
telemetry_act-Answers r t len bad_crc e v = silent refl
telemetry_act-Answers r t len semantic_invalid e v = silent refl
telemetry_act-Answers r t len not_for_us e v = silent refl
telemetry_act-Answers r t len acknowledgement e v = silent refl
telemetry_act-Answers r t len other e v = take_other-Answers r t len e v

telemetry_answer-Answers :
    (r : Reception) (t : Telemetry) (a : ℤ)
    → r.answer ≡ a
    → Answers (IsAgain r t) r t (telemetry_answer a r t)
unfolding telemetry_answer receive_failed
telemetry_answer-Answers r t (negsuc n) e =
    if-elim (Answers (IsAgain r t) r t) (leb 3 (next_streak t.uart_error_streak))
      (λ third. silent refl) (λ few. silent refl)
telemetry_answer-Answers r t (pos len) e =
    if-elim (Answers (IsAgain r t) r t) (len == 0) (λ quiet. silent refl)
      (λ came. telemetry_act-Answers r t len _ e refl)

Answers-map :
    {S S' : Type 0} (r : Reception) (t u : Telemetry)
    → (S → S')
    → Answers S r t u
    → Answers S' r t u
Answers-map {S} {S'} r t u f (silent e) = silent e
Answers-map {S} {S'} r t u f (answered len x e tank due ack sent) =
    answered len x e tank (IsDue-map due) ack sent
  where
    IsDue-map : IsDue S r t u.patch → IsDue S' r t u.patch
    IsDue-map (pinged h) = pinged h
    IsDue-map (repeated h seen) = repeated h (f seen)
    IsDue-map (queued h q) = queued h q

-- A round, after any rounds that began with an empty cache, puts nothing on the air, or one
-- acknowledgement of the frame received, to its sender and with its message number; and that only if the
-- frame arrived whole from a tank, for this gateway, and is a ping, or data with the numbers of data of
-- that tank that an earlier round queued, in the 15 seconds before on the clock of 32 bits, or data that
-- the queue of requests took in this round.
pub telemetry_round-Answers :
    (rs : List Reception) (r : Reception) (t : Telemetry)
    → ((i : ℕ) → (t.dup_cache i).used ≡ false)
    → Answers
        (WasQueued rs t r)
        r
        (telemetry_rounds rs t)
        (telemetry_round r (telemetry_rounds rs t))
unfolding telemetry_round
telemetry_round-Answers rs r t empty =
    Answers-map r (telemetry_rounds rs t) _ (is_repeat-WasQueued rs t r empty)
      (telemetry_answer-Answers r (telemetry_rounds rs t) r.answer refl)
