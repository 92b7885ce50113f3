-- ===== src/Gateway/Ack/Transaction.antt =====
-- Whole transactions: when `gtw_send_frame_wait_ack` reports success, and what it leaves behind.
use gtw_jalles_websoket_blue.Prelude.{
  ℕ, zero, suc, ◌+◌, ◌%◌, ◌<◌, ◌≡◌, ◌↔◌, ◌⊎◌, refl, subst, ap, ◌∙◌, Bool, true, false, List, [],
  ◌∷◌, ltb, leb, ◌==◌, inl, inr, Bool-cases, arith, if◌then◌else◌,
}
use gtw_jalles_websoket_blue.Lora.Frame.{LoraAppFrame, msg_ping}
use gtw_jalles_websoket_blue.Gateway.Ack.{
  Gateway, Ack, Attempt, match_ack, match_acks, begin_wait, end_wait, sends_whole, flush, attempt,
  attempts_loop, attempt_limit, account, Surroundings, recover, ack_matches,
  gtw_send_frame_wait_ack,
}
use gtw_jalles_websoket_blue.Gateway.Ack.Recovery.{recover-IsRecovery}
use gtw_jalles_websoket_blue.Gateway.Ack.Wait.{IsAnswered, IsIdle, attempt_lem}

-- Some round of the `left` that follow, the first of them round `k`, is answered.
abbrev pub SomeAnswered : LoraAppFrame → (ℕ → Attempt) → ℕ → ℕ → Type 0
SomeAnswered f attempts left k = (i : ℕ) × (i < left) × IsAnswered f (attempts (i + k))

module _ (f : LoraAppFrame) (attempts : ℕ → Attempt) where
  first_answered : (left k : ℕ) → IsAnswered f (attempts k) → SomeAnswered f attempts (suc left) k
  first_answered left k x =
      let place : k ≡ 0 + k = omega arith in
      (0, omega arith, subst (λ n. IsAnswered f (attempts n)) place x)

  later_answered :
      (left k : ℕ) → SomeAnswered f attempts left (suc k) → SomeAnswered f attempts (suc left) k
  later_answered left k (i, below, x) =
      let place : i + suc k ≡ suc i + k = omega arith in
      (suc i, omega arith, subst (λ n. IsAnswered f (attempts n)) place x)

  IsAnswered-cases :
      (left k : ℕ)
      → SomeAnswered f attempts (suc left) k
      → IsAnswered f (attempts k) ⊎ SomeAnswered f attempts left (suc k)
  IsAnswered-cases left k (zero, below, x) =
      let place : 0 + k ≡ k = omega arith in inl (subst (λ n. IsAnswered f (attempts n)) place x)
  IsAnswered-cases left k (suc i, below, x) =
      let place : suc i + k ≡ i + suc k = omega arith in
      inr (i, omega arith, subst (λ n. IsAnswered f (attempts n)) place x)

  -- The loop succeeds exactly when some round is answered, whatever it starts from.
  attempts_loop_iff :
      (left k : ℕ) (g : Gateway)
      → ((attempts_loop f attempts left k g).1 ≡ true) ↔ SomeAnswered f attempts left k
  unfolding attempts_loop
  attempts_loop_iff zero k g = (λ h. cc, λ x. absurd (omega (arith, x.1)))
  attempts_loop_iff (suc left) k g =
      let (answered, idle) = attempt_lem f (attempts k) g in
      let h = (attempt f (attempts k) g).0 in
      elim (Bool-cases (attempt f (attempts k) g).1) [
        | inl hit ↦ simp hit (λ e. first_answered left k (answered.0 hit), λ x. refl)
        | inr miss ↦ simp miss (
          λ e. later_answered left k ((attempts_loop_iff left (suc k) h).0 e),
          λ x. elim (IsAnswered-cases left k x) [
            | inl here ↦ let hit = answered.1 here in cc
            | inr later ↦ (attempts_loop_iff left (suc k) h).1 later
          ],
        )
      ]

  -- Nobody waits after the loop.
  attempts_loop-IsIdle :
      (left k : ℕ) (g : Gateway) → IsIdle g → IsIdle (attempts_loop f attempts left k g).0
  unfolding attempts_loop
  attempts_loop-IsIdle zero k g idle = idle
  attempts_loop-IsIdle (suc left) k g idle =
      let (answered, rests) = attempt_lem f (attempts k) g in
      elim (Bool-cases (attempt f (attempts k) g).1) [
        | inl hit ↦ simp hit rests
        | inr miss ↦
            simp miss (attempts_loop-IsIdle left (suc k) (attempt f (attempts k) g).0 rests)
      ]

-- The consecutive failures that `account` counts: only it and the recovery change them.
abbrev failures : Gateway → ℕ
failures g = g.transaction_failures

failures-match_ack : (a : Ack) (g : Gateway) → failures (match_ack a g) ≡ failures g
unfolding match_ack
failures-match_ack a g = elim (Bool-cases (ack_matches g.wait a)) [
  | inl hit ↦ simp hit refl
  | inr miss ↦ simp miss refl
]

failures-match_acks : (acks : List Ack) (g : Gateway) → failures (match_acks acks g) ≡ failures g
unfolding match_acks
failures-match_acks [] g = refl
failures-match_acks (a ∷ acks) g = failures-match_acks acks (match_ack a g) ∙ failures-match_ack a g

failures-attempt :
    (f : LoraAppFrame) (a : Attempt) (g : Gateway) → failures (attempt f a g).0 ≡ failures g
unfolding attempt begin_wait end_wait flush
failures-attempt f a g = elim (Bool-cases a.lock) [
  | inr busy ↦ simp busy (failures-match_acks a.heard _)
  | inl free ↦ elim (Bool-cases (sends_whole f a)) [
    | inr cut ↦ simp (free, cut) (failures-match_acks a.heard _)
    | inl whole ↦ elim (Bool-cases (ltb 0 (match_acks a.heard (flush (begin_wait f g))).pending)) [
      | inl notified ↦ simp (free, whole, notified) (failures-match_acks a.heard _)
      | inr silent ↦
          simp (free, whole, silent) (failures-match_acks a.late _ ∙ failures-match_acks a.heard _)
    ]
  ]
]

failures-attempts_loop :
    (f : LoraAppFrame) (attempts : ℕ → Attempt) (left k : ℕ) (g : Gateway)
    → failures (attempts_loop f attempts left k g).0 ≡ failures g
unfolding attempts_loop
failures-attempts_loop f attempts zero k g = refl
failures-attempts_loop f attempts (suc left) k g =
    let kept = failures-attempt f (attempts k) g in
    elim (Bool-cases (attempt f (attempts k) g).1) [
      | inl hit ↦ simp hit kept
      | inr miss ↦
          simp miss
            (failures-attempts_loop f attempts left (suc k) (attempt f (attempts k) g).0 ∙ kept)
    ]

-- A transaction reports success exactly when it gets its turn, the radio is in order or put in order,
-- and one of its attempts is answered: six of a command, five of a ping. What was pending before it
-- plays no part.
pub gtw_send_frame_wait_ack_iff :
    (f : LoraAppFrame) (e : Surroundings) (g : Gateway)
    → ((gtw_send_frame_wait_ack f e g).1 ≡ true) ↔ (
        (e.request_lock ≡ true)
        × ((recover e g).1 ≡ true)
        × SomeAnswered f e.attempts (if f.msg_type == msg_ping then 5 else 6) 1)
unfolding gtw_send_frame_wait_ack attempt_limit
gtw_send_frame_wait_ack_iff f e g =
    let loop = attempts_loop_iff f e.attempts (attempt_limit f) 1 (recover e g).0 in
    elim (Bool-cases e.request_lock) [
      | inr busy ↦ simp busy (λ h. cc, λ x. let taken = x.0 in cc)
      | inl turn ↦ elim (Bool-cases (recover e g).1) [
        | inr out ↦ simp (turn, out) (λ h. cc, λ x. let ready = x.1 in cc)
        | inl ready ↦ simp (turn, ready) (λ h. (refl, refl, loop.0 h), λ x. loop.1 x.2)
      ]
    ]

-- A failure makes the radio count as out of order.
account_lem :
    (g : Gateway) (success : Bool)
    → ((account g success).wait ≡ g.wait)
      × (failures g < 255 → success ≡ false → (account g success).lora_ready ≡ false)
unfolding account
account_lem g true = (refl, λ few h. cc)
account_lem g false = elim (Bool-cases (leb 1 ((failures g + 1) % 256))) [
  | inl reached ↦ simp reached (refl, λ few h. refl)
  | inr below ↦ simp below (refl, λ few h. absurd (ground arith))
]

-- If nobody waits for an acknowledgement before a transaction, nobody waits after it, however it ends.
pub gtw_send_frame_wait_ack-IsIdle :
    (f : LoraAppFrame) (e : Surroundings) (g : Gateway)
    → IsIdle g
    → IsIdle (gtw_send_frame_wait_ack f e g).0
unfolding gtw_send_frame_wait_ack
gtw_send_frame_wait_ack-IsIdle f e g idle =
    let r = recover-IsRecovery e g in
    let still : IsIdle (recover e g).0 =
      (ap (λ w. w.active) r.same_wait ∙ idle.0, ap (λ w. w.waiter) r.same_wait ∙ idle.1) in
    let p = attempts_loop f e.attempts (attempt_limit f) 1 (recover e g).0 in
    let end = attempts_loop-IsIdle f e.attempts (attempt_limit f) 1 (recover e g).0 still in
    let (kept, lost) = account_lem p.0 p.1 in
    elim (Bool-cases e.request_lock) [
      | inr busy ↦ simp busy idle
      | inl turn ↦ elim (Bool-cases (recover e g).1) [
        | inr out ↦ simp (turn, out) still
        | inl ready ↦
            simp (turn, ready) (ap (λ w. w.active) kept ∙ end.0, ap (λ w. w.waiter) kept ∙ end.1)
      ]
    ]

-- If a transaction had its turn and failed, and fewer than 255 failures were counted before it, the
-- radio counts as out of order, so that it is set up again before the next transmission.
pub gtw_send_frame_wait_ack_gives_up :
    (f : LoraAppFrame) (e : Surroundings) (g : Gateway)
    → g.transaction_failures < 255
    → e.request_lock ≡ true
    → (gtw_send_frame_wait_ack f e g).1 ≡ false
    → (gtw_send_frame_wait_ack f e g).0.lora_ready ≡ false
unfolding gtw_send_frame_wait_ack
gtw_send_frame_wait_ack_gives_up f e g few turn failed =
    let r = recover-IsRecovery e g in
    let p = attempts_loop f e.attempts (attempt_limit f) 1 (recover e g).0 in
    let few_at_end = failures-attempts_loop f e.attempts (attempt_limit f) 1 (recover e g).0 in
    let (kept, lost) = account_lem p.0 p.1 in
    elim (Bool-cases (recover e g).1) [
      | inr out ↦ simp (turn, out) (r.out_of_order out)
      | inl ready ↦
          simp (turn, ready)
            (lost (omega (arith, few_at_end, r.few_failures few)) (simp (turn, ready) at failed))
    ]
