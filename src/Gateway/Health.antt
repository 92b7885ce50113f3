-- ===== src/Gateway/Health.antt =====
-- Setting up and watching the radio in main/main.c: `lora_setup_gtw`, and a round of
-- `gtw_lora_health_task` in the build that controls the tanks (`GTW_ROLE_TX_ONLY`).
use gtw_jalles_websoket_blue.Prelude.{
  ℕ, ◌%◌, ◌^◌, ◌≡◌, ◌↔◌, refl, Bool, true, false, not, ◌&&◌, if◌then◌else◌, inl, inr, Bool-cases,
}
use gtw_jalles_websoket_blue.Esp.{is_ok}
use gtw_jalles_websoket_blue.Lora.Radio.{
  Config, SetUp, Exchange, lora_e32_init, lora_e32_reinit, lora_e32_apply_cfg_temp,
}
use gtw_jalles_websoket_blue.Gateway.Ack.{
  Gateway, config_loop, lora_apply_config_with_retries, max_retries_config,
}

-- The parameters of the module in the field.
abbrev pub field_config : Config
field_config = record {
  has_reset_pin = false;
  head = 0xC0;
  addh = 0x00;
  addl = 0x01;
  speed = 0x18;
  channel = 0x17;
  option = 0x64;
}

-- `random` is `esp_random`.
unfoldable pub lora_setup_gtw : ℕ → SetUp → (ℕ → Exchange) → Gateway → Gateway
lora_setup_gtw random u exchanges g =
    if is_ok (lora_e32_init u field_config g.radio).1
    then (lora_apply_config_with_retries max_retries_config false exchanges started).0
    else record started { lora_ready = false }
  where
    started : Gateway
    started = record g {
      msg_counter = random % 2 ^ 8;
      radio = (lora_e32_init u field_config g.radio).0;
    }

-- Whether the two mutexes were taken in time, and the talk with the module.
pub record Checkup : Type 0 where
  pub request_lock : Bool
  pub radio_lock : Bool
  pub set_up : SetUp
  pub exchanges : ℕ → Exchange

unfoldable pub gtw_lora_health_task_round : Checkup → Gateway → Gateway
gtw_lora_health_task_round c g =
    if g.lora_ready
    then g
    else if not (c.request_lock && c.radio_lock)
    then g
    else if is_ok (lora_e32_reinit c.set_up g.radio).1
    then (lora_apply_config_with_retries 1 true c.exchanges started).0
    else started
  where
    started : Gateway
    started = record g { radio = (lora_e32_reinit c.set_up g.radio).0 }

-- After a round of the health task on a radio that is out of order, the radio is in order exactly when
-- both mutexes were taken, the driver could be set up again, and the module confirmed its parameters.
pub gtw_lora_health_task_round_iff :
    (c : Checkup) (g : Gateway)
    → g.lora_ready ≡ false
    → ((gtw_lora_health_task_round c g).lora_ready ≡ true) ↔ (
        ((c.request_lock && c.radio_lock) ≡ true)
        × (is_ok (lora_e32_reinit c.set_up g.radio).1 ≡ true)
        × (is_ok
              (lora_e32_apply_cfg_temp (c.exchanges 1) (lora_e32_reinit c.set_up g.radio).0).result
            ≡ true))
unfolding gtw_lora_health_task_round lora_apply_config_with_retries config_loop
gtw_lora_health_task_round_iff c g out = elim (Bool-cases (c.request_lock && c.radio_lock)) [
  | inr busy ↦ simp (out, busy) (λ h. cc, λ x. let taken = x.0 in cc)
  | inl free ↦ elim (Bool-cases (is_ok (lora_e32_reinit c.set_up g.radio).1)) [
    | inr failed ↦ simp (out, free, failed) (λ h. cc, λ x. let ready = x.1 in cc)
    | inl ready ↦
        elim (Bool-cases (
          is_ok
            (lora_e32_apply_cfg_temp (c.exchanges 1)
              (lora_e32_reinit c.set_up g.radio).0).result)) [
                | inl confirmed ↦
                    simp (out, free, ready, confirmed) (λ h. (refl, refl, refl), λ x. refl)
                | inr refused ↦
                    simp (out, free, ready, refused) (λ h. cc, λ x. let confirmed = x.2 in cc)
              ]
  ]
]
