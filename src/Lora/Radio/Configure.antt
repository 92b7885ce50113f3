-- ===== src/Lora/Radio/Configure.antt =====
-- When the E32 counts as configured, and what every outcome leaves behind.
use gtw_jalles_websoket_blue.Prelude.{
  ℕ, zero, suc, ◌+◌, ◌≤◌, ◌≡◌, ◌↔◌, ◌⊎◌, refl, true, List, [], ◌∷◌, pos, arith, ltb, length, drop,
  get_or, inl, inr, Bool-cases, ltb→lt, if◌then◌else◌,
}
use gtw_jalles_websoket_blue.Esp.{esp_ok, is_ok}
use gtw_jalles_websoket_blue.Lora.Stream.{Read, failed, got}
use gtw_jalles_websoket_blue.Lora.Radio.{
  Radio, config, normal, response_at, cfg_response_matches, Exchange, command, read_result,
  write_result, exchange_result, lora_e32_apply_cfg_with_head,
}

-- Six bytes of a response, from `r` on, that confirm the command: one of the three heads, and the
-- parameters sent, where the module may name one speed by another number.
pub record ConfirmsAt (cmd r : List ℕ) : Type 0 where
  pub head : (get_or r 0 0 ≡ 0xC0) ⊎ ((get_or r 0 0 ≡ 0xC1) ⊎ (get_or r 0 0 ≡ 0xC2))
  pub addh : get_or r 1 0 ≡ get_or cmd 1 0
  pub addl : get_or r 2 0 ≡ get_or cmd 2 0
  pub speed : (get_or r 3 0 ≡ get_or cmd 3 0) ⊎ ((get_or cmd 3 0 ≡ 0x18) × (get_or r 3 0 ≡ 0x1A))
  pub channel : get_or r 4 0 ≡ get_or cmd 4 0
  pub option : get_or r 5 0 ≡ get_or cmd 5 0

response_at_iff : (cmd r : List ℕ) → (response_at cmd r ≡ true) ↔ ConfirmsAt cmd r
unfolding response_at
response_at_iff cmd r = (
  λ h. record {
    head = ground arith;
    addh = ground arith;
    addl = ground arith;
    speed = ground arith;
    channel = ground arith;
    option = ground arith;
  },
  λ c. ground (arith, c.head, c.addh, c.addl, c.speed, c.channel, c.option),
)

-- The offsets at which six bytes of the response confirm the command.
abbrev pub Confirms : List ℕ → List ℕ → Type 0
Confirms resp cmd = (offset : ℕ) × (offset + 6 ≤ length resp) × ConfirmsAt cmd (drop offset resp)

module _ (b : ℕ) (rest cmd : List ℕ) where
  confirm_later : Confirms rest cmd → Confirms (b ∷ rest) cmd
  confirm_later (offset, fits, same) = (suc offset, omega arith, same)

  confirm_cases :
      Confirms (b ∷ rest) cmd
      → (6 ≤ length (b ∷ rest)) × (ConfirmsAt cmd (b ∷ rest) ⊎ Confirms rest cmd)
  confirm_cases (zero, fits, same) = (omega arith, inl same)
  confirm_cases (suc offset, fits, same) = (omega arith, inr (offset, omega arith, same))

-- `cfg_response_matches` is true exactly when some offset within the response has six bytes that
-- confirm the command.
pub cfg_response_matches_iff :
    (resp cmd : List ℕ) → (cfg_response_matches resp cmd ≡ true) ↔ Confirms resp cmd
unfolding cfg_response_matches
cfg_response_matches_iff [] cmd = (λ h. cc, λ c. absurd (omega (arith, c.1)))
cfg_response_matches_iff (b ∷ rest) cmd = elim (Bool-cases (ltb (length (b ∷ rest)) 6)) [
  | inl short ↦
      rw short
        (λ h. cc, λ c. absurd (omega (arith, (confirm_cases b rest cmd c).0, ltb→lt _ _ short)))
  | inr long ↦ elim (Bool-cases (response_at cmd (b ∷ rest))) [
    | inl here ↦
        rw (long, here) (λ h. (0, ground arith, (response_at_iff cmd (b ∷ rest)).0 here), λ c. refl)
    | inr not_here ↦
        rw (long, not_here)
          (
            λ h. confirm_later b rest cmd ((cfg_response_matches_iff rest cmd).0 h),
            λ c. elim (confirm_cases b rest cmd c).1 [
              | inl here ↦ let again = (response_at_iff cmd (b ∷ rest)).1 here in cc
              | inr later ↦ (cfg_response_matches_iff rest cmd).1 later
            ],
          )
  ]
]

-- What ESP_OK means: the driver is installed, every call on the way succeeded, all six bytes were
-- written, and the answer confirms the command that was sent.
pub record IsConfirmed (head : ℕ) (x : Exchange) (r : Radio) : Type 0 where
  pub installed : r.installed ≡ true
  pub flushed : is_ok x.flush ≡ true
  pub written : x.written ≡ pos 6
  pub transmitted : is_ok x.tx_done ≡ true
  pub answer : List ℕ
  pub answered : x.response ≡ got answer
  pub confirmed : Confirms answer (command r.cfg head)

read_result_ok :
    (cmd : List ℕ) (r : Read)
    → read_result cmd r ≡ esp_ok
    → (answer : List ℕ) × (r ≡ got answer) × (cfg_response_matches answer cmd ≡ true)
unfolding read_result
read_result_ok cmd (failed n) h = cc
read_result_ok cmd (got answer) h = (answer, refl, ground arith)

exchange_ok :
    (cmd : List ℕ) (x : Exchange)
    → exchange_result cmd x ≡ esp_ok
    → (is_ok x.flush ≡ true)
      × (x.written ≡ pos 6)
      × (is_ok x.tx_done ≡ true)
      × (read_result cmd x.response ≡ esp_ok)
unfolding exchange_result write_result
exchange_ok cmd x h = ground arith

-- `lora_e32_apply_cfg_with_head` returns ESP_OK only when the module confirmed the parameters.
pub lora_e32_apply_cfg_ok :
    (head : ℕ) (x : Exchange) (r : Radio)
    → (lora_e32_apply_cfg_with_head head x r).result ≡ esp_ok
    → IsConfirmed head x r
unfolding lora_e32_apply_cfg_with_head
lora_e32_apply_cfg_ok head x r h = elim (Bool-cases r.installed) [
  | inl ready ↦
      let (flushed, written, transmitted, read) =
        exchange_ok (command r.cfg head) x (rw ready at h) in
      let (answer, answered, matched) = read_result_ok (command r.cfg head) x.response read in
      record {
        installed = ready;
        flushed = flushed;
        written = written;
        transmitted = transmitted;
        answer = answer;
        answered = answered;
        confirmed = (cfg_response_matches_iff answer (command r.cfg head)).0 matched;
      }
  | inr absent ↦ cc (rw absent at h)
]

-- On every outcome, errors included, the module is left in the mode to send and receive if it was in
-- that mode before, with the same parameters; and the pins go through the configuration mode exactly
-- when the driver is installed.
pub lora_e32_apply_cfg_restores :
    (head : ℕ) (x : Exchange) (r : Radio)
    → r.mode ≡ normal
    → ((lora_e32_apply_cfg_with_head head x r).radio.mode ≡ normal)
      × ((lora_e32_apply_cfg_with_head head x r).radio.cfg ≡ r.cfg)
      × ((lora_e32_apply_cfg_with_head head x r).modes
          ≡ (if r.installed then config ∷ normal ∷ [] else []))
unfolding lora_e32_apply_cfg_with_head
lora_e32_apply_cfg_restores head x r h = ground arith
