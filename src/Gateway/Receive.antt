-- ===== src/Gateway/Receive.antt =====
-- One round of `gtw_lora_rx_task` of main/main.c in the build that controls the tanks
-- (`GTW_ROLE_TX_ONLY`), from the answer of `lora_e32_receive_raw` on. The static variables are those
-- of Gateway.Ack; delays, the watchdog and the log lines are left out.
pub mod Effect
use gtw_jalles_websoket_blue.Prelude.{
  ℕ, suc, ◌+◌, ◌%◌, ◌^◌, Bool, true, false, not, ◌&&◌, ◌||◌, ℤ, pos, negsuc, ltb, leb, ◌==◌,
  if◌then◌else◌,
}
use gtw_jalles_websoket_blue.Lora.Frame.{
  LoraAppFrame, preamble_byte, payload_size, dev_gtw, dev_tank, dev_rep, msg_data, msg_ack,
  msg_ping, lora_frame_air_len, lora_received_frame_valid,
}
use gtw_jalles_websoket_blue.Gateway.Ack.{AckWait, Gateway, Ack, ack_matches, match_ack}

-- `gtw_lora_rx_stats_t`: the counters of this build.
pub record RxStats : Type 0 where
  pub frame_ok : ℕ
  pub timeout : ℕ
  pub incomplete : ℕ
  pub bad_preamble : ℕ
  pub bad_crc : ℕ
  pub semantic_invalid : ℕ
  pub wrong_dst : ℕ
  pub ack_rx : ℕ
  pub ack_match : ℕ
  pub ack_unexpected : ℕ
  pub data_rx : ℕ

pub record Receiver : Type 0 where
  pub gateway : Gateway
  pub stats : RxStats
  pub last_rx_ms : ℕ  -- gtw_last_lora_rx_ms

-- A `uint32_t` counter goes on.
abbrev pub next : ℕ → ℕ
next n = suc n % 2 ^ 32

-- `gtw_lora_uart_error_streak` is a `uint8_t`.
abbrev pub next_streak : ℕ → ℕ
next_streak n = suc n % 2 ^ 8

-- What the tests on a frame decide, in the order of the source.
pub data Verdict : Type 0 where
  incomplete bad_preamble bad_crc semantic_invalid not_for_us acknowledgement other : Verdict

abbrev pub known_source : LoraAppFrame → Bool
known_source rx = rx.src_type == dev_tank || rx.src_type == dev_gtw || rx.src_type == dev_rep

-- The three tests on the meaning of the frame.
unfoldable pub semantic_ok : LoraAppFrame → Bool
semantic_ok rx =
    leb rx.len payload_size
    && known_source rx
    && leb msg_data rx.msg_type
    && leb rx.msg_type msg_ping

-- The gateway hears itself.
unfoldable pub own_echo : ℕ → LoraAppFrame → Bool
own_echo device_id rx = rx.src_type == dev_gtw && rx.src_id == device_id && rx.dst_type == dev_tank

unfoldable pub verdict : ℕ → LoraAppFrame → ℕ → Verdict
verdict device_id rx len =
    if lora_frame_air_len rx == 0 || not (len == lora_frame_air_len rx)
    then incomplete
    else if not (rx.preamble == preamble_byte)
    then bad_preamble
    else if not (lora_received_frame_valid rx len).ok
    then bad_crc
    else if not (semantic_ok rx)
    then semantic_invalid
    else if own_echo device_id rx
    then not_for_us
    else if not (rx.dst_type == dev_gtw && rx.dst_id == device_id)
    then not_for_us
    else if rx.msg_type == msg_ack
    then acknowledgement
    else other

-- At an acknowledgement: the wait, the notification and the counters.
unfoldable pub take_ack : Ack → Receiver → Receiver
take_ack a r = record r {
  gateway = match_ack a r.gateway;
  stats =
      if ack_matches g.wait a && g.wait.waiter
      then record stats { ack_rx = next stats.ack_rx; ack_match = next stats.ack_match }
      else record stats { ack_rx = next stats.ack_rx; ack_unexpected = next stats.ack_unexpected };
}
  where
    g : Gateway
    g = r.gateway

    stats : RxStats
    stats = r.stats

unfoldable pub act : Verdict → LoraAppFrame → ℕ → Receiver → Receiver
act incomplete rx now r = record r { stats = record stats { incomplete = next stats.incomplete } }
  where
    stats : RxStats
    stats = r.stats
act bad_preamble rx now r = record r {
  stats = record stats { bad_preamble = next stats.bad_preamble };
}
  where
    stats : RxStats
    stats = r.stats
act bad_crc rx now r = record r { stats = record stats { bad_crc = next stats.bad_crc } }
  where
    stats : RxStats
    stats = r.stats
act semantic_invalid rx now r = record r {
  stats = record stats { semantic_invalid = next stats.semantic_invalid };
}
  where
    stats : RxStats
    stats = r.stats
act not_for_us rx now r = record r { stats = record stats { wrong_dst = next stats.wrong_dst } }
  where
    stats : RxStats
    stats = r.stats
act acknowledgement rx now r =
    take_ack (record { msg_id = rx.msg_id; src_id = rx.src_id }) (record r { last_rx_ms = now })
act other rx now r = record r {
  last_rx_ms = now;
  stats = record stats { data_rx = next stats.data_rx };
}
  where
    stats : RxStats
    stats = r.stats

-- `len < 0`: the third failure in a row marks the radio as out of order.
unfoldable pub uart_error : Receiver → Receiver
uart_error r =
    if leb 3 (next_streak g.uart_error_streak)
    then record r { gateway = record g { lora_ready = false; uart_error_streak = 0 } }
    else record r { gateway = record g { uart_error_streak = next_streak g.uart_error_streak } }
  where
    g : Gateway
    g = r.gateway

-- A frame came: the radio works.
unfoldable pub heard_frame : Receiver → Receiver
heard_frame r = record r {
  gateway = record g { lora_ready = true; uart_error_streak = 0 };
  stats = record stats { frame_ok = next stats.frame_ok };
}
  where
    g : Gateway
    g = r.gateway

    stats : RxStats
    stats = r.stats

-- `received` is what `lora_e32_receive_raw` answers, 0 where the radio was busy, and `rx` the struct
-- that it filled.
unfoldable pub receive_step : ℤ → LoraAppFrame → ℕ → Receiver → Receiver
receive_step (negsuc n) rx now r = uart_error r
receive_step (pos len) rx now r =
    if len == 0
    then record r { stats = record stats { timeout = next stats.timeout } }
    else act (verdict g.device_id rx len) rx now (heard_frame r)
  where
    g : Gateway
    g = r.gateway

    stats : RxStats
    stats = r.stats

-- A round begins only while somebody waits for an acknowledgement.
unfoldable pub gtw_lora_rx_task_round : ℤ → LoraAppFrame → ℕ → Receiver → Receiver
gtw_lora_rx_task_round received rx now r =
    if waits.active then receive_step received rx now r else r
  where
    g : Gateway
    g = r.gateway

    waits : AckWait
    waits = g.wait
