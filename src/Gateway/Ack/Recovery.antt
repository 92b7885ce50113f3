-- ===== src/Gateway/Ack/Recovery.antt =====
-- What `gtw_send_frame_wait_ack` relies on when it sets the radio up again.
use gtw_jalles_websoket_blue.Prelude.{
  ℕ, zero, suc, ◌<◌, ◌≡◌, refl, ◌∙◌, Bool, true, false, inl, inr, Bool-cases, if◌then◌else◌, arith,
}
use gtw_jalles_websoket_blue.Lora.Radio.{
  Exchange, Applied, lora_e32_reinit, lora_e32_apply_cfg, lora_e32_apply_cfg_temp,
}
use gtw_jalles_websoket_blue.Esp.{is_ok}
use gtw_jalles_websoket_blue.Gateway.Ack.{
  Gateway, config_loop, lora_apply_config_with_retries, Surroundings, recover,
}

-- What the recovery of the radio leaves behind: the wait as it was, the failures as they were or
-- none, and a radio out of order if it failed.
pub record IsRecovery (g h : Gateway) (ok : Bool) : Type 0 where
  pub same_wait : h.wait ≡ g.wait
  pub few_failures : g.transaction_failures < 255 → h.transaction_failures < 255
  pub out_of_order : ok ≡ false → h.lora_ready ≡ false

abbrev Recovers : Gateway → Gateway × Bool → Type 0
Recovers g p = IsRecovery g p.0 p.1

-- The radio changes and nothing else.
from_radio :
    (g h : Gateway) (p : Gateway × Bool)
    → h.wait ≡ g.wait
    → h.transaction_failures ≡ g.transaction_failures
    → Recovers h p
    → Recovers g p
from_radio g h p wait same x = record {
  same_wait = x.same_wait ∙ wait;
  few_failures = λ few. x.few_failures (omega arith);
  out_of_order = x.out_of_order;
}

config_loop-IsRecovery :
    (temporary : Bool) (exchanges : ℕ → Exchange) (left k : ℕ) (g : Gateway)
    → Recovers g (config_loop temporary exchanges left k g)
unfolding config_loop
config_loop-IsRecovery temporary exchanges zero k g = record {
  same_wait = refl;
  few_failures = λ h. h;
  out_of_order = λ h. refl;
}
config_loop-IsRecovery temporary exchanges (suc left) k g =
    elim (Bool-cases (is_ok applied.result)) [
      | inl configured ↦
          simp configured
            (record { same_wait = refl; few_failures = λ h. omega arith; out_of_order = λ h. cc })
      | inr refused ↦ simp refused (
          from_radio g (record g { radio = applied.radio }) _ refl refl
            (config_loop-IsRecovery temporary exchanges left (suc k)
              (record g { radio = applied.radio })))
    ]
  where
    applied : Applied
    applied =
        if temporary
        then lora_e32_apply_cfg_temp (exchanges k) g.radio
        else lora_e32_apply_cfg (exchanges k) g.radio

pub recover-IsRecovery : (e : Surroundings) (g : Gateway) → Recovers g (recover e g)
unfolding recover lora_apply_config_with_retries
recover-IsRecovery e g = elim (Bool-cases g.lora_ready) [
  | inl ready ↦
      simp ready (record { same_wait = refl; few_failures = λ h. h; out_of_order = λ h. cc })
  | inr out ↦ elim (Bool-cases e.recovery_lock) [
    | inr busy ↦
        simp (out, busy)
          (record { same_wait = refl; few_failures = λ h. h; out_of_order = λ h. out })
    | inl free ↦ elim (Bool-cases (is_ok (lora_e32_reinit e.set_up g.radio).1)) [
      | inl set_up ↦
          simp (out, free, set_up)
            (from_radio g
              (record g { radio = (lora_e32_reinit e.set_up g.radio).0; lora_ready = false }) _ refl
              refl
              (config_loop-IsRecovery true e.exchanges 5 1
                (record g { radio = (lora_e32_reinit e.set_up g.radio).0; lora_ready = false })))
      | inr failed ↦
          simp (out, free, failed)
            (record { same_wait = refl; few_failures = λ h. h; out_of_order = λ h. refl })
    ]
  ]
]
