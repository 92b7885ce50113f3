-- ===== src/Gateway/Receive/Effect.antt =====
-- What a round of the receiving task does: the acknowledgements that it passes on, and its counters.
use gtw_jalles_websoket_blue.Prelude.{
  ℕ, ◌+◌, ◌%◌, ◌^◌, ◌≡◌, ◌≢◌, refl, sym, subst, Bool, true, ◌&&◌, List, ℤ, pos, negsuc, leb, ◌==◌,
  inl, inr, ◌⊎◌, Bool-cases, arith, length,
}
use gtw_jalles_websoket_blue.Lora.Frame.{
  LoraAppFrame, preamble_byte, frame_size, dev_gtw, dev_tank, dev_rep, msg_ack, lora_frame_air_len,
  lora_received_frame_valid,
}
use gtw_jalles_websoket_blue.Lora.Stream.Parse.{IsWhole}
use gtw_jalles_websoket_blue.Lora.Link.{received, delivered_is_valid}
use gtw_jalles_websoket_blue.Gateway.Ack.{Gateway, Ack, ack_matches, match_ack}
use gtw_jalles_websoket_blue.Gateway.Receive.{
  RxStats, Receiver, next_streak, Verdict, incomplete, bad_preamble, bad_crc, semantic_invalid,
  not_for_us, acknowledgement, other, semantic_ok, own_echo, verdict, take_ack, act, uart_error,
  heard_frame, receive_step, gtw_lora_rx_task_round,
}

-- A frame that counts as an acknowledgement for this gateway.
pub record IsAckFrame (device_id : ℕ) (rx : LoraAppFrame) (len : ℕ) : Type 0 where
  pub whole : lora_frame_air_len rx ≡ len
  pub marked : rx.preamble ≡ preamble_byte
  pub intact : (lora_received_frame_valid rx len).ok ≡ true
  pub from_device : (rx.src_type ≡ dev_tank) ⊎ ((rx.src_type ≡ dev_gtw) ⊎ (rx.src_type ≡ dev_rep))
  pub to_gateway : rx.dst_type ≡ dev_gtw
  pub to_us : rx.dst_id ≡ device_id
  pub is_ack : rx.msg_type ≡ msg_ack

verdict_ack :
    (device_id : ℕ) (rx : LoraAppFrame) (len : ℕ)
    → verdict device_id rx len ≡ acknowledgement
    → IsAckFrame device_id rx len
unfolding verdict semantic_ok own_echo
verdict_ack device_id rx len h = record {
  whole = ground arith;
  marked = ground arith;
  intact = ground arith;
  from_device = ground arith;
  to_gateway = ground arith;
  to_us = ground arith;
  is_ack = ground arith;
}

-- A frame that the radio driver delivers is rejected only for what it says: the tests of its length,
-- its preamble and its checksum pass.
pub verdict_delivered :
    (device_id : ℕ) (frame : List ℕ)
    → IsWhole frame_size frame
    → (verdict device_id (received frame) (length frame) ≢ incomplete)
      × (verdict device_id (received frame) (length frame) ≢ bad_preamble)
      × (verdict device_id (received frame) (length frame) ≢ bad_crc)
unfolding verdict
verdict_delivered device_id frame w =
    let (long, marked, intact) = delivered_is_valid frame w in
    (λ h. ground arith, λ h. ground arith, λ h. ground arith)

-- The counters agree: every frame is counted once by what became of it, and every acknowledgement
-- once by whether it was expected, up to the wrap of the counters.
pub record IsBalanced (s : RxStats) : Type 0 where
  pub frames :
      s.frame_ok
      ≡ (s.incomplete + s.bad_preamble + s.bad_crc + s.semantic_invalid + s.wrong_dst + s.ack_rx
          + s.data_rx)
        % 2 ^ 32
  pub acks : s.ack_rx ≡ (s.ack_match + s.ack_unexpected) % 2 ^ 32

act-IsBalanced :
    (v : Verdict) (rx : LoraAppFrame) (now : ℕ) (r : Receiver)
    → IsBalanced r.stats
    → IsBalanced (act v rx now (heard_frame r)).stats
unfolding act heard_frame take_ack
act-IsBalanced incomplete rx now r b = record { frames = omega (arith, b.frames); acks = b.acks }
act-IsBalanced bad_preamble rx now r b = record { frames = omega (arith, b.frames); acks = b.acks }
act-IsBalanced bad_crc rx now r b = record { frames = omega (arith, b.frames); acks = b.acks }
act-IsBalanced semantic_invalid rx now r b = record {
  frames = omega (arith, b.frames);
  acks = b.acks;
}
act-IsBalanced not_for_us rx now r b = record { frames = omega (arith, b.frames); acks = b.acks }
act-IsBalanced acknowledgement rx now r b =
    elim (Bool-cases (
      ack_matches r.gateway.wait (record { msg_id = rx.msg_id; src_id = rx.src_id })
      && r.gateway.wait.waiter)) [
        | inl hit ↦
            simp hit (record { frames = omega (arith, b.frames); acks = omega (arith, b.acks) })
        | inr miss ↦
            simp miss (record { frames = omega (arith, b.frames); acks = omega (arith, b.acks) })
      ]
act-IsBalanced other rx now r b = record { frames = omega (arith, b.frames); acks = b.acks }

uart_error-stats : (r : Receiver) → (uart_error r).stats ≡ r.stats
unfolding uart_error
uart_error-stats r = elim (Bool-cases (leb 3 (next_streak r.gateway.uart_error_streak))) [
  | inl third ↦ simp third refl
  | inr few ↦ simp few refl
]

receive_step-IsBalanced :
    (answer : ℤ) (rx : LoraAppFrame) (now : ℕ) (r : Receiver)
    → IsBalanced r.stats
    → IsBalanced (receive_step answer rx now r).stats
unfolding receive_step
receive_step-IsBalanced (negsuc n) rx now r b = subst IsBalanced (sym (uart_error-stats r)) b
receive_step-IsBalanced (pos len) rx now r b = elim (Bool-cases (len == 0)) [
  | inl quiet ↦ simp quiet (record { frames = b.frames; acks = b.acks })
  | inr came ↦ simp came (act-IsBalanced (verdict r.gateway.device_id rx len) rx now r b)
]

-- Each round keeps the counters in agreement.
pub gtw_lora_rx_task_round-IsBalanced :
    (answer : ℤ) (rx : LoraAppFrame) (now : ℕ) (r : Receiver)
    → IsBalanced r.stats
    → IsBalanced (gtw_lora_rx_task_round answer rx now r).stats
unfolding gtw_lora_rx_task_round
gtw_lora_rx_task_round-IsBalanced answer rx now r b = elim (Bool-cases r.gateway.wait.active) [
  | inr asleep ↦ simp asleep b
  | inl awake ↦ simp awake (receive_step-IsBalanced answer rx now r b)
]

-- The acknowledgement that a frame stands for.
abbrev pub ack_of : LoraAppFrame → Ack
ack_of rx = record { msg_id = rx.msg_id; src_id = rx.src_id }

-- What a round does to the sending task: nothing, or what the acknowledgement does that came.
abbrev pub PassesOn : ℤ → LoraAppFrame → Gateway → Gateway → Type 0
PassesOn answer rx g h =
    ((h.wait ≡ g.wait) × (h.pending ≡ g.pending))
    ⊎ ((len : ℕ) × (answer ≡ pos len)
        × IsAckFrame g.device_id rx len
        × (h.wait ≡ (match_ack (ack_of rx) g).wait)
        × (h.pending ≡ (match_ack (ack_of rx) g).pending))

match_ack-heard :
    (a : Ack) (g : Gateway) (ready : Bool) (streak : ℕ)
    → ((match_ack a (record g { lora_ready = ready; uart_error_streak = streak })).wait
        ≡ (match_ack a g).wait)
      × ((match_ack a (record g { lora_ready = ready; uart_error_streak = streak })).pending
          ≡ (match_ack a g).pending)
unfolding match_ack
match_ack-heard a g ready streak = elim (Bool-cases (ack_matches g.wait a)) [
  | inl hit ↦ simp hit (refl, refl)
  | inr miss ↦ simp miss (refl, refl)
]

act-PassesOn :
    (v : Verdict) (rx : LoraAppFrame) (len now : ℕ) (r : Receiver)
    → verdict r.gateway.device_id rx len ≡ v
    → PassesOn (pos len) rx r.gateway (act v rx now (heard_frame r)).gateway
unfolding act heard_frame take_ack
act-PassesOn incomplete rx len now r e = inl (refl, refl)
act-PassesOn bad_preamble rx len now r e = inl (refl, refl)
act-PassesOn bad_crc rx len now r e = inl (refl, refl)
act-PassesOn semantic_invalid rx len now r e = inl (refl, refl)
act-PassesOn not_for_us rx len now r e = inl (refl, refl)
act-PassesOn acknowledgement rx len now r e =
    let (waits, waiting) = match_ack-heard (ack_of rx) r.gateway true 0 in
    inr (len, refl, verdict_ack r.gateway.device_id rx len e, waits, waiting)
act-PassesOn other rx len now r e = inl (refl, refl)

uart_error-PassesOn :
    (n : ℕ) (rx : LoraAppFrame) (r : Receiver)
    → PassesOn (negsuc n) rx r.gateway (uart_error r).gateway
unfolding uart_error
uart_error-PassesOn n rx r = elim (Bool-cases (leb 3 (next_streak r.gateway.uart_error_streak))) [
  | inl third ↦ simp third (inl (refl, refl))
  | inr few ↦ simp few (inl (refl, refl))
]

receive_step-PassesOn :
    (answer : ℤ) (rx : LoraAppFrame) (now : ℕ) (r : Receiver)
    → PassesOn answer rx r.gateway (receive_step answer rx now r).gateway
unfolding receive_step
receive_step-PassesOn (negsuc n) rx now r = uart_error-PassesOn n rx r
receive_step-PassesOn (pos len) rx now r = elim (Bool-cases (len == 0)) [
  | inl quiet ↦ simp quiet (inl (refl, refl))
  | inr came ↦ simp came (act-PassesOn (verdict r.gateway.device_id rx len) rx len now r refl)
]

-- A round of the receiving task leaves the wait and the pending notifications alone, or does to them
-- what the match of one acknowledgement does; and that only if the frame received is whole, has the
-- right preamble and a matching checksum, comes from a known kind of device, goes to this gateway and
-- is an acknowledgement.
pub gtw_lora_rx_task_round-PassesOn :
    (answer : ℤ) (rx : LoraAppFrame) (now : ℕ) (r : Receiver)
    → PassesOn answer rx r.gateway (gtw_lora_rx_task_round answer rx now r).gateway
unfolding gtw_lora_rx_task_round
gtw_lora_rx_task_round-PassesOn answer rx now r = elim (Bool-cases r.gateway.wait.active) [
  | inr asleep ↦ simp asleep (inl (refl, refl))
  | inl awake ↦ simp awake (receive_step-PassesOn answer rx now r)
]
