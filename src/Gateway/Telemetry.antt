-- ===== src/Gateway/Telemetry.antt =====
-- The gateway that receives the telemetry of the tanks (`GTW_ROLE_RX_ONLY`), in main/main.c: its state,
-- `gtw_send_ack`, and what `gtw_lora_rx_task` makes of a frame with data. A round of that task is given
-- by what `lora_e32_receive_raw` answers and fills, the clocks, and the locks. Delays, the watchdog and the log
-- lines are left out; a tick is 10 ms (`CONFIG_FREERTOS_HZ` is 100).
pub mod Round
pub mod History
pub mod Acks
pub mod Counters
pub mod Once
pub mod Repeat
pub mod Accepts
mod Tests
use Prim.Native.Nat.{bit_xor}
use gtw_jalles_websoket_blue.Prelude.{
  ℕ, suc, ◌+◌, ◌-◌, ◌%◌, ◌^◌, Bool, true, false, not, ◌&&◌, ◌||◌, List, [], ◌∷◌, ◌++◌, ℤ, pos,
  negsuc, ltb, leb, ◌==◌, if◌then◌else◌, min, take, replicate,
}
use gtw_jalles_websoket_blue.Text.{c_string, print_number}
use gtw_jalles_websoket_blue.Lora.Frame.{
  LoraAppFrame, preamble_byte, payload_size, dev_gtw, dev_tank, msg_data, msg_ack, msg_ping,
  lora_frame_air_len, air_bytes, lora_received_frame_valid,
}
use gtw_jalles_websoket_blue.Gateway.Receive.{
  next, next_streak, Verdict, incomplete, bad_preamble, bad_crc, semantic_invalid, not_for_us,
  acknowledgement, other, semantic_ok,
}
use gtw_jalles_websoket_blue.Gateway.Patch.{
  Patch, http_post, Locks, queue_http_request, queue_patch_request,
}

-- `gtw_lora_rx_stats_t`: the counters of this build.
pub record TelemetryStats : Type 0 where
  pub timeout : ℕ
  pub frame_ok : ℕ
  pub incomplete : ℕ
  pub bad_preamble : ℕ
  pub bad_crc : ℕ
  pub semantic_invalid : ℕ
  pub wrong_dst : ℕ
  pub ack_unexpected : ℕ
  pub ping_rx : ℕ
  pub data_rx : ℕ
  pub duplicate : ℕ
  pub queue_accept : ℕ
  pub queue_reject : ℕ
  pub ack_sent : ℕ

-- `gtw_rx_dup_t`.
pub record RxDup : Type 0 where
  pub used : Bool
  pub src_id : ℕ
  pub msg_id : ℕ
  pub accepted_at : ℕ  -- TickType_t

-- The static variables of this build; `air` holds what was given to `lora_e32_send_raw`, oldest first.
pub record Telemetry : Type 0 where
  pub device_id : ℕ
  pub lora_ready : Bool
  pub uart_error_streak : ℕ
  pub last_rx_ms : ℕ
  pub stats : TelemetryStats
  pub dup_cache : ℕ → RxDup
  pub patch : Patch
  pub air : List (List ℕ)

-- What a round meets: the answer of `lora_e32_receive_raw` (0 where the radio was busy) and the struct
-- that it filled, the two clocks, whether `MutexLora` was free for an answer, and the mutex of the queue.
pub record Reception : Type 0 where
  pub answer : ℤ
  pub rx : LoraAppFrame
  pub now_ms : ℕ
  pub ticks : ℕ
  pub ack_lock : Bool
  pub locks : Locks

abbrev pub dup_cache_size : ℕ
dup_cache_size = 64

-- `pdMS_TO_TICKS(15000)`.
abbrev pub repeat_window : ℕ
repeat_window = 1500

-- The answer to a frame.
unfoldable pub ack_frame : ℕ → LoraAppFrame → LoraAppFrame
ack_frame device_id rx = record {
  preamble = preamble_byte;
  src_type = dev_gtw;
  src_id = device_id % 2 ^ 16;
  dst_type = rx.src_type;
  dst_id = rx.src_id;
  msg_type = msg_ack;
  msg_id = rx.msg_id;
  len = 0;
  has_bomba_id = 0;
  bomba_id = 0;
  payload = replicate payload_size 0;
  crc = 0;
}

-- With whether `MutexLora` was taken; how the send ends is only logged.
unfoldable pub gtw_send_ack : Bool → LoraAppFrame → Telemetry → Telemetry
gtw_send_ack lock rx t =
    if lock then record t { air = t.air ++ air_bytes (ack_frame t.device_id rx) ∷ [] } else t

-- The place of a frame in `gtw_rx_dup_cache`.
unfoldable pub dup_index : LoraAppFrame → ℕ
dup_index rx = bit_xor rx.src_id rx.msg_id % dup_cache_size

-- The difference of two ticks is a `uint32_t`.
abbrev pub ticks_since : ℕ → ℕ → ℕ
ticks_since now at = (now + (2 ^ 32 - at)) % 2 ^ 32

unfoldable pub is_repeat : RxDup → LoraAppFrame → ℕ → Bool
is_repeat dup rx now =
    dup.used
    && dup.src_id == rx.src_id
    && dup.msg_id == rx.msg_id
    && ltb (ticks_since now dup.accepted_at) repeat_window

-- The text of a frame: its payload up to the first zero.
unfoldable pub telemetry_body : LoraAppFrame → List ℕ
telemetry_body rx = c_string (take (min rx.len payload_size) rx.payload)

-- /bomba/ and the number; /tanque/ and the number; /alertas/tanque.
unfoldable pub pump_path : ℕ → List ℕ
pump_path id = (47 ∷ 98 ∷ 111 ∷ 109 ∷ 98 ∷ 97 ∷ 47 ∷ []) ++ print_number 5 id []

unfoldable pub tank_path : ℕ → List ℕ
tank_path id = (47 ∷ 116 ∷ 97 ∷ 110 ∷ 113 ∷ 117 ∷ 101 ∷ 47 ∷ []) ++ print_number 5 id []

abbrev pub alerts_path : List ℕ
alerts_path =
    47 ∷ 97 ∷ 108 ∷ 101 ∷ 114 ∷ 116 ∷ 97 ∷ 115 ∷ 47 ∷ 116 ∷ 97 ∷ 110 ∷ 113 ∷ 117 ∷ 101 ∷ []

-- Where a frame's text goes: to a pump, a tank or the alerts.
unfoldable pub queue_telemetry : Locks → LoraAppFrame → Patch → Patch × Bool
queue_telemetry locks rx p =
    if rx.has_bomba_id == 1
    then queue_patch_request locks (pump_path rx.bomba_id) (telemetry_body rx) p
    else if rx.has_bomba_id == 0
    then queue_patch_request locks (tank_path rx.src_id) (telemetry_body rx) p
    else if rx.has_bomba_id == 2
    then queue_http_request locks alerts_path (telemetry_body rx) http_post p
    else (p, false)
