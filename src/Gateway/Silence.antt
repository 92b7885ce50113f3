-- ===== src/Gateway/Silence.antt =====
-- The gateway that receives telemetry and hears nothing: a round of `gtw_lora_health_task` of main/main.c in
-- that build (`GTW_ROLE_RX_ONLY`).
use gtw_jalles_websoket_blue.Prelude.{
  ℕ, ◌+◌, ◌-◌, ◌*◌, ◌≤◌, ◌<◌, Bool, ◌&&◌, List, [], ◌∷◌, ltb, leb, if◌then◌else◌, inl, inr,
  Bool-cases, arith,
}
use gtw_jalles_websoket_blue.Lora.Radio.{Radio, Exchange, lora_e32_apply_cfg_temp}

-- The radio, `gtw_last_lora_rx_ms` and `recovery_cycles`; `tries` counts the attempts to configure the
-- radio again.
pub record Silence : Type 0 where
  pub radio : Radio
  pub last_rx_ms : ℕ
  pub recovery_cycles : ℕ
  pub tries : ℕ

-- The time, whether the two mutexes were taken, and the talk with the module.
pub record SilenceRound : Type 0 where
  pub now_ms : ℕ
  pub request_lock : Bool
  pub radio_lock : Bool
  pub exchange : Exchange

unfoldable pub configure_again : SilenceRound → Silence → Silence
configure_again r s =
    if r.request_lock && r.radio_lock
    then record s {
      radio = (lora_e32_apply_cfg_temp r.exchange s.radio).radio;
      tries = s.tries + 1;
    }
    else s

unfoldable pub gtw_lora_health_task_silence : SilenceRound → Silence → Silence
gtw_lora_health_task_silence r s =
    if ltb (r.now_ms - s.last_rx_ms) 180000
    then record s { recovery_cycles = 0 }
    else record (configure_again r s) {
      last_rx_ms = r.now_ms;
      recovery_cycles = if leb 5 (s.recovery_cycles + 1) then 0 else s.recovery_cycles + 1;
    }

unfoldable pub silence_rounds : List SilenceRound → Silence → Silence
silence_rounds [] s = s
silence_rounds (r ∷ rs) s = silence_rounds rs (gtw_lora_health_task_silence r s)

-- `last_rx_ms` has moved on by three minutes for each attempt to configure the radio since `before`, and
-- fewer than five cycles are counted.
pub record IsSpaced (before s : Silence) : Type 0 where
  pub spaced : before.last_rx_ms + 180000 * s.tries ≤ s.last_rx_ms + 180000 * before.tries
  pub cycles : s.recovery_cycles < 5

round-IsSpaced :
    (r : SilenceRound) (before s : Silence)
    → IsSpaced before s
    → IsSpaced before (gtw_lora_health_task_silence r s)
unfolding gtw_lora_health_task_silence configure_again
round-IsSpaced r before s v = elim (Bool-cases (ltb (r.now_ms - s.last_rx_ms) 180000)) [
  | inl heard ↦ simp heard (record { spaced = v.spaced; cycles = omega arith })
  | inr silent ↦ elim (Bool-cases (r.request_lock && r.radio_lock)) [
    | inl free ↦
        simp (silent, free)
          (record { spaced = ground (arith, v.spaced); cycles = ground (arith, v.cycles) })
    | inr busy ↦
        simp (silent, busy)
          (record { spaced = ground (arith, v.spaced); cycles = ground (arith, v.cycles) })
  ]
]

-- The rounds keep their distance: the attempts to configure the radio again, in rounds in which nothing else
-- moves `last_rx_ms`, are three minutes or more apart.
pub silence_rounds-IsSpaced :
    (rs : List SilenceRound) (before s : Silence)
    → IsSpaced before s
    → IsSpaced before (silence_rounds rs s)
unfolding silence_rounds
silence_rounds-IsSpaced [] before s v = v
silence_rounds-IsSpaced (r ∷ rs) before s v =
    silence_rounds-IsSpaced rs before _ (round-IsSpaced r before s v)
