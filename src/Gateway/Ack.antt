-- ===== src/Gateway/Ack.antt =====
-- A command or a ping to a tank, repeated until the tank acknowledges it: `gtw_send_frame_wait_ack`,
-- `gtw_send_to_tank`, `gtw_ping_tank` and `lora_apply_config_with_retries` of main/main.c, with the
-- part of `gtw_lora_rx_task` that matches an acknowledgement. Another task receives while this one
-- waits, so each attempt says which acknowledgements that task handles, and when. The delays and the
-- watchdog are left out.
pub mod Wait
pub mod Recovery
pub mod Transaction
use gtw_jalles_websoket_blue.Prelude.{
  ℕ, zero, suc, ◌+◌, ◌%◌, ◌^◌, Bool, true, false, not, ◌&&◌, ◌||◌, List, [], ◌∷◌, ◌++◌, ℤ, pos,
  negsuc, ltb, leb, ◌==◌, if◌then◌else◌, length, take, replicate,
}
use gtw_jalles_websoket_blue.Esp.{is_ok}
use gtw_jalles_websoket_blue.Lora.Frame.{
  LoraAppFrame, preamble_byte, payload_size, dev_gtw, dev_tank, msg_cmd, msg_ping,
  lora_frame_air_len, lora_send_frame_air,
}
use gtw_jalles_websoket_blue.Lora.Stream.{lora_e32_flush_rx}
use gtw_jalles_websoket_blue.Lora.Radio.{
  Radio, SetUp, Exchange, lora_e32_reinit, lora_e32_apply_cfg, lora_e32_apply_cfg_temp,
  lora_e32_send_raw,
}

abbrev pub ack_retries : ℕ
ack_retries = 6

abbrev pub ping_ack_retries : ℕ
ping_ack_retries = 5

abbrev pub max_retries_config : ℕ
max_retries_config = 5

abbrev pub failures_before_recovery : ℕ
failures_before_recovery = 1

-- `gtw_ack_wait_t`; the waiter is the task that sends, or none.
pub record AckWait : Type 0 where
  pub active : Bool
  pub msg_id : ℕ
  pub tank_id : ℕ
  pub waiter : Bool

-- The static variables that a transaction reads or writes; `pending` counts the notifications of
-- the sending task that it has not taken yet.
pub record Gateway : Type 0 where
  pub device_id : ℕ
  pub msg_counter : ℕ  -- uint16_t
  pub radio : Radio
  pub lora_ready : Bool
  pub uart_error_streak : ℕ
  pub transaction_failures : ℕ  -- uint8_t
  pub wait : AckWait
  pub pending : ℕ

-- An acknowledgement that reached this gateway: its message number and the tank it comes from.
pub record Ack : Type 0 where
  pub msg_id : ℕ
  pub src_id : ℕ

unfoldable pub ack_matches : AckWait → Ack → Bool
ack_matches w a = w.active && w.msg_id == a.msg_id && w.tank_id == a.src_id

-- The receiving task at an acknowledgement: the wait ends, and the waiter is notified.
unfoldable pub match_ack : Ack → Gateway → Gateway
match_ack a g =
    if ack_matches g.wait a
    then record g {
      wait = record wait { active = false; waiter = false };
      pending = if wait.waiter then g.pending + 1 else g.pending;
    }
    else g
  where
    wait : AckWait
    wait = g.wait

unfoldable pub match_acks : List Ack → Gateway → Gateway
match_acks [] g = g
match_acks (a ∷ acks) g = match_acks acks (match_ack a g)

-- Under `gtw_ack_mutex`: the wait for an answer to `frame`, and its end.
unfoldable pub begin_wait : LoraAppFrame → Gateway → Gateway
begin_wait f g = record g {
  wait = record { active = true; msg_id = f.msg_id; tank_id = f.dst_id; waiter = true };
  pending = 0;
}

unfoldable pub end_wait : Gateway → Gateway
end_wait g = record g { wait = record wait { active = false; waiter = false } }
  where
    wait : AckWait
    wait = g.wait

-- What happens around one attempt: whether `MutexLora` was free, what the UART driver does with the
-- frame, and the acknowledgements handled before the wait is over and between that and `end_wait`.
pub record Attempt : Type 0 where
  pub lock : Bool
  pub write : ℕ → List ℕ → ℤ
  pub tx_done : Bool
  pub heard : List Ack
  pub late : List Ack

unfoldable pub sends_whole : LoraAppFrame → Attempt → Bool
sends_whole f a =
    is_length
      (lora_send_frame_air (λ bytes. (lora_e32_send_raw a.write a.tx_done bytes).result) f).1
  where
    is_length : ℤ → Bool
    is_length (pos n) = n == lora_frame_air_len f
    is_length (negsuc n) = false

unfoldable pub flush : Gateway → Gateway
flush g = record g { radio = record radio { stream = lora_e32_flush_rx radio.stream } }
  where
    radio : Radio
    radio = g.radio

-- One round of the loop, and whether the answer came.
unfoldable pub attempt : LoraAppFrame → Attempt → Gateway → Gateway × Bool
attempt f a g =
    let asked = begin_wait f g in
    if not a.lock
    then (end_wait (match_acks a.heard asked), false)
    else if not (sends_whole f a)
    then (end_wait (match_acks a.heard (record (flush asked) { lora_ready = false })), false)
    else waited (match_acks a.heard (flush asked))
  where
    waited : Gateway → Gateway × Bool
    waited h =
        if ltb 0 h.pending
        then (record h { pending = 0 }, true)
        else (end_wait (match_acks a.late h), false)

-- The loop: `left` rounds remain, and round `k` goes by `attempts k`.
unfoldable pub attempts_loop : LoraAppFrame → (ℕ → Attempt) → ℕ → ℕ → Gateway → Gateway × Bool
attempts_loop f attempts zero k g = (g, false)
attempts_loop f attempts (suc left) k g =
    let h = (attempt f (attempts k) g).0 in
    let rest = attempts_loop f attempts left (suc k) h in
    if (attempt f (attempts k) g).1 then (h, true) else rest

unfoldable pub attempt_limit : LoraAppFrame → ℕ
attempt_limit f = if f.msg_type == msg_ping then ping_ack_retries else ack_retries

unfoldable pub account : Gateway → Bool → Gateway
account g true = record g { transaction_failures = 0 }
account g false =
    let failures = (g.transaction_failures + 1) % 2 ^ 8 in
    if leb failures_before_recovery failures
    then record g { transaction_failures = 0; lora_ready = false }
    else record g { transaction_failures = failures }

-- `exchanges k` is the talk with the module at attempt `k`.
unfoldable pub config_loop : Bool → (ℕ → Exchange) → ℕ → ℕ → Gateway → Gateway × Bool
config_loop temporary exchanges zero k g = (record g { lora_ready = false }, false)
config_loop temporary exchanges (suc left) k g =
    let a =
      if temporary
      then lora_e32_apply_cfg_temp (exchanges k) g.radio
      else lora_e32_apply_cfg (exchanges k) g.radio in
    let rest = config_loop temporary exchanges left (suc k) (record g { radio = a.radio }) in
    if is_ok a.result
    then (
      record g {
        radio = a.radio;
        lora_ready = true;
        uart_error_streak = 0;
        transaction_failures = 0;
      },
      true,
    )
    else rest

unfoldable pub lora_apply_config_with_retries : ℕ → Bool → (ℕ → Exchange) → Gateway → Gateway × Bool
lora_apply_config_with_retries max_attempts temporary exchanges g =
    config_loop temporary exchanges max_attempts 1 g

-- What a transaction meets: `gtw_request_mutex`, the recovery of the radio, and each attempt.
pub record Surroundings : Type 0 where
  pub request_lock : Bool
  pub recovery_lock : Bool
  pub set_up : SetUp
  pub exchanges : ℕ → Exchange
  pub attempts : ℕ → Attempt

-- The radio is set up again if it was marked as out of order.
unfoldable pub recover : Surroundings → Gateway → Gateway × Bool
recover e g =
    if g.lora_ready
    then (g, true)
    else if not e.recovery_lock
    then (g, false)
    else if is_ok (lora_e32_reinit e.set_up g.radio).1
    then lora_apply_config_with_retries max_retries_config true e.exchanges again
    else (again, false)
  where
    again : Gateway
    again = record g { radio = (lora_e32_reinit e.set_up g.radio).0 }

unfoldable pub gtw_send_frame_wait_ack : LoraAppFrame → Surroundings → Gateway → Gateway × Bool
gtw_send_frame_wait_ack f e g =
    if not e.request_lock
    then (g, false)
    else if (recover e g).1
    then finished (attempts_loop f e.attempts (attempt_limit f) 1 (recover e g).0)
    else ((recover e g).0, false)
  where
    finished : Gateway × Bool → Gateway × Bool
    finished (h, success) = (account h success, success)

abbrev pub next_id : ℕ → ℕ
next_id n = (n + 1) % 2 ^ 16

-- A frame of this gateway to a tank; the message number is the counter's low byte.
unfoldable pub to_tank : Gateway → ℕ → ℕ → LoraAppFrame
to_tank g tank_id msg_type = record {
  preamble = preamble_byte;
  src_type = dev_gtw;
  src_id = g.device_id % 2 ^ 16;
  dst_type = dev_tank;
  dst_id = tank_id;
  msg_type = msg_type;
  msg_id = g.msg_counter % 2 ^ 8;
  len = 0;
  has_bomba_id = 0;
  bomba_id = 0;
  payload = replicate payload_size 0;
  crc = 0;
}

-- `msg` is the text without its final zero; what does not fit the payload is cut off.
unfoldable pub command_frame : Gateway → ℕ → List ℕ → ℕ → LoraAppFrame
command_frame g tank_id msg bomba_id = record f {
  has_bomba_id = if bomba_id == 0xFFFF || bomba_id == 0 then 0 else 1;
  bomba_id = if bomba_id == 0xFFFF || bomba_id == 0 then 0 else bomba_id;
  len = length text;
  payload = take payload_size (text ++ replicate payload_size 0);
}
  where
    f : LoraAppFrame
    f = to_tank g tank_id msg_cmd

    text : List ℕ
    text = take payload_size msg

unfoldable pub gtw_send_to_tank : ℕ → List ℕ → ℕ → Surroundings → Gateway → Gateway × Bool
gtw_send_to_tank tank_id msg bomba_id e g =
    gtw_send_frame_wait_ack (command_frame g tank_id msg bomba_id) e
      (record g { msg_counter = next_id g.msg_counter })

unfoldable pub gtw_ping_tank : ℕ → Surroundings → Gateway → Gateway × Bool
gtw_ping_tank tank_id e g =
    gtw_send_frame_wait_ack (to_tank g tank_id msg_ping) e
      (record g { msg_counter = next_id g.msg_counter })
