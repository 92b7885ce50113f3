-- ===== src/Gateway/Telemetry/History.antt =====
-- Where the entries of the receiving gateway's cache come from: from rounds of `gtw_lora_rx_task` in main/main.c
-- that queued data.
use gtw_jalles_websoket_blue.Prelude.{
  ℕ, ◌+◌, ◌-◌, ◌%◌, ◌^◌, ◌<◌, ◌≡◌, refl, sym, ap, ◌∙◌, Bool, true, false, ◌&&◌, List, [], ◌∷◌, ℤ,
  pos, negsuc, leb, ◌==◌, inl, inr, ◌⊎◌, Bool-cases, if-elim, arith,
}
use gtw_jalles_websoket_blue.Lora.Frame.{dev_tank, msg_data, msg_ping}
use gtw_jalles_websoket_blue.Gateway.Receive.{
  next_streak, Verdict, incomplete, bad_preamble, bad_crc, semantic_invalid, not_for_us,
  acknowledgement, other,
}
use gtw_jalles_websoket_blue.Gateway.Patch.{Patch}
use gtw_jalles_websoket_blue.Gateway.Telemetry.{
  RxDup, Telemetry, Reception, gtw_send_ack, dup_index, is_repeat, queue_telemetry,
}
use gtw_jalles_websoket_blue.Gateway.Telemetry.Round.{
  answer, take_ping, take_queued, take_data, take_other, telemetry_act, receive_failed, frame_came,
  telemetry_answer, telemetry_round, telemetry_rounds,
}

-- An entry that round `q` made: of data from a tank, which that round queued, so that the queue is `p`.
pub record IsEntry (q : Reception) (t : Telemetry) (p : Patch) (d : RxDup) : Type 0 where
  pub src : d.src_id ≡ q.rx.src_id
  pub msg : d.msg_id ≡ q.rx.msg_id
  pub tick : d.accepted_at ≡ q.ticks
  pub from_tank : q.rx.src_type ≡ dev_tank
  pub is_data : q.rx.msg_type ≡ msg_data
  pub queued : queue_telemetry q.locks q.rx t.patch ≡ (p, true)

-- A place of the cache after round `q`.
abbrev Kept : Reception → ℕ → Telemetry → Telemetry → Type 0
Kept q i t u = (u.dup_cache i ≡ t.dup_cache i) ⊎ IsEntry q t u.patch (u.dup_cache i)

-- Among the rounds from `t` on there is one that queued data of tank `src` with number `msg`, at the tick
-- `at`.
pub data Queued (src msg at : ℕ) : List Reception → Telemetry → Type 0 where
  now :
      (q : Reception) (rs : List Reception) (t : Telemetry)
      → q.rx.src_type ≡ dev_tank
      → q.rx.src_id ≡ src
      → q.rx.msg_type ≡ msg_data
      → q.rx.msg_id ≡ msg
      → q.ticks ≡ at
      → queue_telemetry q.locks q.rx t.patch ≡ ((telemetry_round q t).patch, true)
      → Queued src msg at (q ∷ rs) t
  later :
      (q : Reception) (rs : List Reception) (t : Telemetry)
      → Queued src msg at rs (telemetry_round q t)
      → Queued src msg at (q ∷ rs) t

answer-Kept : (q : Reception) (i : ℕ) (t u : Telemetry) → Kept q i t u → Kept q i t (answer q u)
unfolding answer gtw_send_ack
answer-Kept q i t u k = elim (Bool-cases q.ack_lock) [
  | inl free ↦ simp free k
  | inr busy ↦ simp busy k
]

take_queued-Kept :
    (q : Reception) (i : ℕ) (t u : Telemetry) (x : Patch × Bool)
    → u.dup_cache i ≡ t.dup_cache i
    → q.rx.src_type ≡ dev_tank
    → q.rx.msg_type ≡ msg_data
    → queue_telemetry q.locks q.rx t.patch ≡ x
    → Kept q i t (take_queued q x u)
unfolding take_queued
take_queued-Kept q i t u (p, true) same tank is_data queued =
    answer-Kept q i t _ (elim (Bool-cases (i == dup_index q.rx)) [
      | inl here ↦ inr (
          rw here (record {
            src = refl;
            msg = refl;
            tick = refl;
            from_tank = tank;
            is_data = is_data;
            queued = queued;
          }))
      | inr away ↦ inl (rw away same)
    ])
take_queued-Kept q i t u (p, false) same tank is_data queued = inl same

take_other-Kept :
    (q : Reception) (i : ℕ) (t u : Telemetry)
    → u.dup_cache i ≡ t.dup_cache i
    → u.patch ≡ t.patch
    → Kept q i t (take_other q u)
unfolding take_other take_ping take_data
take_other-Kept q i t u same patch =
    if-elim (Kept q i t) (q.rx.src_type == dev_tank && q.rx.msg_type == msg_ping)
      (λ ping. answer-Kept q i t _ (inl same))
      (λ no_ping.
        if-elim (Kept q i t) (q.rx.src_type == dev_tank && q.rx.msg_type == msg_data)
          (λ is_data.
            if-elim (Kept q i t) (is_repeat (u.dup_cache (dup_index q.rx)) q.rx q.ticks)
              (λ again. answer-Kept q i t _ (inl same))
              (λ first.
                take_queued-Kept q i t _ _ same (ground arith) (ground arith)
                  (ap (queue_telemetry q.locks q.rx) (sym patch))))
          (λ neither. inl same))

telemetry_act-Kept :
    (v : Verdict) (q : Reception) (i : ℕ) (t : Telemetry)
    → Kept q i t (telemetry_act v q (frame_came t))
unfolding telemetry_act frame_came
telemetry_act-Kept incomplete q i t = inl refl
telemetry_act-Kept bad_preamble q i t = inl refl
telemetry_act-Kept bad_crc q i t = inl refl
telemetry_act-Kept semantic_invalid q i t = inl refl
telemetry_act-Kept not_for_us q i t = inl refl
telemetry_act-Kept acknowledgement q i t = inl refl
telemetry_act-Kept other q i t = take_other-Kept q i t _ refl refl

telemetry_answer-Kept :
    (a : ℤ) (q : Reception) (i : ℕ) (t : Telemetry) → Kept q i t (telemetry_answer a q t)
unfolding telemetry_answer receive_failed
telemetry_answer-Kept (negsuc n) q i t =
    if-elim (Kept q i t) (leb 3 (next_streak t.uart_error_streak)) (λ third. inl refl)
      (λ few. inl refl)
telemetry_answer-Kept (pos len) q i t =
    if-elim (Kept q i t) (len == 0) (λ quiet. inl refl) (λ came. telemetry_act-Kept _ q i t)

telemetry_round-Kept : (q : Reception) (i : ℕ) (t : Telemetry) → Kept q i t (telemetry_round q t)
unfolding telemetry_round
telemetry_round-Kept q i t = telemetry_answer-Kept q.answer q i t

-- An entry is as it was at the start, or one of the rounds queued the data that it names.
telemetry_rounds-Queued :
    (rs : List Reception) (t : Telemetry) (i : ℕ) (d : RxDup)
    → (telemetry_rounds rs t).dup_cache i ≡ d
    → (d ≡ t.dup_cache i) ⊎ Queued d.src_id d.msg_id d.accepted_at rs t
unfolding telemetry_rounds
telemetry_rounds-Queued [] t i d e = inl (sym e)
telemetry_rounds-Queued (q ∷ rs) t i d e =
    elim (telemetry_rounds-Queued rs (telemetry_round q t) i d e) [
      | inr after ↦ inr (later q rs t after)
      | inl same ↦ elim (telemetry_round-Kept q i t) [
        | inl old ↦ inl (same ∙ old)
        | inr v ↦ inr (
            now q rs t v.from_tank (sym (ap (λ (x : RxDup). x.src_id) same ∙ v.src)) v.is_data
              (sym (ap (λ (x : RxDup). x.msg_id) same ∙ v.msg))
              (sym (ap (λ (x : RxDup). x.accepted_at) same ∙ v.tick)) v.queued)
      ]
    ]

-- Data with the numbers of `r` were queued in a round less than 1500 ticks before it, on a clock of 32
-- bits.
abbrev pub WasQueued : List Reception → Telemetry → Reception → Type 0
WasQueued rs t r =
    (at : ℕ) × Queued r.rx.src_id r.rx.msg_id at rs t × ((r.ticks + (2 ^ 32 - at)) % 2 ^ 32 < 1500)

pub is_repeat-WasQueued :
    (rs : List Reception) (t : Telemetry) (r : Reception)
    → ((i : ℕ) → (t.dup_cache i).used ≡ false)
    → is_repeat ((telemetry_rounds rs t).dup_cache (dup_index r.rx)) r.rx r.ticks ≡ true
    → WasQueued rs t r
unfolding is_repeat
is_repeat-WasQueued rs t r empty again =
    let d : RxDup = (telemetry_rounds rs t).dup_cache (dup_index r.rx) in
    let src : d.src_id ≡ r.rx.src_id = ground arith in
    let msg : d.msg_id ≡ r.rx.msg_id = ground arith in
    let soon : (r.ticks + (2 ^ 32 - d.accepted_at)) % 2 ^ 32 < 1500 = ground arith in
    elim (telemetry_rounds-Queued rs t (dup_index r.rx) d refl) [
      | inl same ↦
          let unused = ap (λ (x : RxDup). x.used) same ∙ empty (dup_index r.rx) in
          absurd (ground arith)
      | inr earlier ↦ (d.accepted_at, rw (src, msg) at earlier, soon)
    ]
