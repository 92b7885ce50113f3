-- ===== src/Gateway/Ack/Wait.antt =====
-- Which acknowledgements an attempt counts, and what an attempt leaves of the wait.
use gtw_jalles_websoket_blue.Prelude.{
  ◌≡◌, ◌↔◌, ◌⊎◌, refl, ℤ, pos, negsuc, sym, subst, true, false, List, [], ◌∷◌, ltb, inl, inr,
  Bool-cases, arith,
}
use gtw_jalles_websoket_blue.Lora.Frame.{LoraAppFrame, lora_frame_air_len, lora_send_frame_air}
use gtw_jalles_websoket_blue.Lora.Radio.{lora_e32_send_raw}
use gtw_jalles_websoket_blue.Gateway.Ack.{
  Gateway, Ack, Attempt, ack_matches, match_ack, match_acks, begin_wait, end_wait, sends_whole,
  flush, attempt,
}

-- The acknowledgement that answers a frame: the tank it went to, and its message number.
abbrev pub Answers : LoraAppFrame → Ack → Type 0
Answers f a = (a.msg_id ≡ f.msg_id) × (a.src_id ≡ f.dst_id)

unfoldable pub Hears : LoraAppFrame → List Ack → Type 0
Hears f [] = ⊥
Hears f (a ∷ acks) = Answers f a ⊎ Hears f acks

-- An attempt that is answered: the radio was free, the driver took the whole frame, and the answer
-- came in time.
pub record IsAnswered (f : LoraAppFrame) (a : Attempt) : Type 0 where
  pub locked : a.lock ≡ true
  pub sent :
      (lora_send_frame_air (λ bytes. (lora_e32_send_raw a.write a.tx_done bytes).result) f).1
      ≡ pos (lora_frame_air_len f)
  pub heard : Hears f a.heard

-- Nobody waits.
abbrev pub IsIdle : Gateway → Type 0
IsIdle g = (g.wait.active ≡ false) × (g.wait.waiter ≡ false)

match_ack-IsIdle : (a : Ack) (g : Gateway) → g.wait.active ≡ false → match_ack a g ≡ g
unfolding match_ack ack_matches
match_ack-IsIdle a g h = rw h refl

pub match_acks-IsIdle :
    (acks : List Ack) (g : Gateway) → g.wait.active ≡ false → match_acks acks g ≡ g
unfolding match_acks
match_acks-IsIdle [] g h = refl
match_acks-IsIdle (a ∷ acks) g h = rw (match_ack-IsIdle a g h) (match_acks-IsIdle acks g h)

-- The wait for the answer to `f`.
abbrev WaitsFor : LoraAppFrame → Gateway → Type 0
WaitsFor f g =
    (g.wait.active ≡ true)
    × (g.wait.msg_id ≡ f.msg_id)
    × (g.wait.tank_id ≡ f.dst_id)
    × (g.wait.waiter ≡ true)
    × (g.pending ≡ 0)

ack_matches_iff :
    (f : LoraAppFrame) (a : Ack) (g : Gateway)
    → WaitsFor f g
    → (ack_matches g.wait a ≡ true) ↔ Answers f a
unfolding ack_matches
ack_matches_iff f a g (active, msg, tank, waiter, pending) =
    rw (active, msg, tank) (λ h. ground arith, λ h. ground arith)

match_ack_hit :
    (a : Ack) (g : Gateway)
    → g.wait.waiter ≡ true
    → ack_matches g.wait a ≡ true
    → (ltb 0 (match_ack a g).pending ≡ true) × IsIdle (match_ack a g)
unfolding match_ack
match_ack_hit a g waiter h = rw (h, waiter) (ground arith, (refl, refl))

match_ack_miss : (a : Ack) (g : Gateway) → ack_matches g.wait a ≡ false → match_ack a g ≡ g
unfolding match_ack
match_ack_miss a g h = rw h refl

-- What the acknowledgements handled during a wait come to: one of them answers and ends the wait, or
-- none does and nothing changes.
abbrev Heeds : LoraAppFrame → List Ack → Gateway → Gateway → Type 0
Heeds f acks g h =
    (Hears f acks × (ltb 0 h.pending ≡ true) × IsIdle h) ⊎ ((Hears f acks → ⊥) × (h ≡ g))

module _ (f : LoraAppFrame) (a : Ack) (acks : List Ack) (g : Gateway) where
  Heeds-later : (Answers f a → ⊥) → (h : Gateway) → Heeds f acks g h → Heeds f (a ∷ acks) g h
  unfolding Hears
  Heeds-later other h (inl (hears, notified, idle)) = inl (inr hears, notified, idle)
  Heeds-later other h (inr (deaf, same)) =
      inr ((λ c. elim c [ inl here ↦ other here | inr later ↦ deaf later ]), same)

match_acks-WaitsFor :
    (f : LoraAppFrame) (acks : List Ack) (g : Gateway)
    → WaitsFor f g
    → Heeds f acks g (match_acks acks g)
unfolding match_acks Hears
match_acks-WaitsFor f [] g w = inr ((λ h. h), refl)
match_acks-WaitsFor f (a ∷ acks) g w = elim (Bool-cases (ack_matches g.wait a)) [
  | inl hit ↦
      let (notified, idle) = match_ack_hit a g w.3 hit in
      subst (Heeds f (a ∷ acks) g) (sym (match_acks-IsIdle acks (match_ack a g) idle.0))
        (inl (inl ((ack_matches_iff f a g w).0 hit), notified, idle))
  | inr miss ↦
      subst (λ h. Heeds f (a ∷ acks) g (match_acks acks h)) (sym (match_ack_miss a g miss))
        (Heeds-later f a acks g
          (λ here. let hit : ack_matches g.wait a ≡ true = (ack_matches_iff f a g w).1 here in cc)
          (match_acks acks g) (match_acks-WaitsFor f acks g w))
]

sends_whole_iff :
    (f : LoraAppFrame) (a : Attempt)
    → (sends_whole f a ≡ true) ↔ (
        (lora_send_frame_air (λ bytes. (lora_e32_send_raw a.write a.tx_done bytes).result) f).1
        ≡ pos (lora_frame_air_len f))
unfolding sends_whole
sends_whole_iff f a =
    by_result
      (lora_send_frame_air (λ bytes. (lora_e32_send_raw a.write a.tx_done bytes).result) f).1 refl
  where
    answer : ℤ
    answer = (lora_send_frame_air (λ bytes. (lora_e32_send_raw a.write a.tx_done bytes).result) f).1

    by_result :
        (z : ℤ) → answer ≡ z → (sends_whole f a ≡ true) ↔ (answer ≡ pos (lora_frame_air_len f))
    by_result (pos n) e = rw e (λ h. ground arith, λ h. ground arith)
    by_result (negsuc n) e = rw e (λ h. ground arith, λ h. ground arith)

-- What an attempt does to the wait, whatever was pending before: it succeeds exactly when it is
-- answered, and nobody waits afterwards.
pub attempt_lem :
    (f : LoraAppFrame) (a : Attempt) (g : Gateway)
    → (((attempt f a g).1 ≡ true) ↔ IsAnswered f a) × IsIdle (attempt f a g).0
unfolding attempt begin_wait end_wait flush
attempt_lem f a g = elim (Bool-cases a.lock) [
  | inr busy ↦ simp busy ((λ h. cc, λ x. let taken = x.locked in cc), (refl, refl))
  | inl free ↦ elim (Bool-cases (sends_whole f a)) [
    | inr cut ↦
        simp (free, cut)
          ((λ h. cc, λ x. let sent = (sends_whole_iff f a).1 x.sent in cc), (refl, refl))
    | inl whole ↦
        elim (match_acks-WaitsFor f a.heard (flush (begin_wait f g))
          (refl, refl, refl, refl, refl)) [
            | inl (hears, notified, idle) ↦
                simp (free, whole, notified)
                  (
                    (
                      λ h. record {
                        locked = free;
                        sent = (sends_whole_iff f a).0 whole;
                        heard = hears;
                      },
                      λ x. refl,
                    ),
                    idle,
                  )
            | inr (deaf, same) ↦
                simp (free, whole, same) ((λ h. cc, λ x. absurd (deaf x.heard)), (refl, refl))
          ]
  ]
]
