-- ===== src/Lora/Radio/Send.antt =====
-- What `lora_e32_send_raw` puts on the wire.
use gtw_jalles_websoket_blue.Prelude.{
  ℕ, zero, suc, ◌+◌, ◌≤◌, ◌<◌, ◌≡◌, ◌≢◌, refl, sym, ap, ◌∙◌, Bool, true, false, List, [], ◌∷◌, ◌++◌,
  ℤ, pos, negsuc, arith, ◌==◌, length, take, drop, length-drop, length-take, length-append, inl,
  inr, Bool-cases, append_assoc, append-nil,
}
use gtw_jalles_websoket_blue.Lora.Radio.{Sent, stopped, go_on, send_loop, lora_e32_send_raw}

-- What the driver promises: it takes no more bytes than there are.
abbrev pub IsWriter : (ℕ → List ℕ → ℤ) → Type 0
IsWriter write = (total : ℕ) (left : List ℕ) (n : ℕ) → write total left ≡ pos n → n ≤ length left

take-drop : (n : ℕ) (xs : List ℕ) → take n xs ++ drop n xs ≡ xs
take-drop zero xs = refl
take-drop (suc n) [] = refl
take-drop (suc n) (x ∷ xs) = ap (λ t. x ∷ t) (take-drop n xs)

zero-ne-pos : (n : ℕ) → 0 < n → pos 0 ≢ pos n
zero-ne-pos n h e = ground arith

positive : (n : ℕ) → (n == 0) ≡ false → 0 < n
positive n h = ground arith

-- A call that stops early has not written the whole message.
stopped_short :
    (write : ℕ → List ℕ → ℤ) (tx_done : Bool) (total whole : ℕ) (wire : List ℕ) (written : ℤ)
    → total < whole
    → written ≢ pos whole
    → (stopped write tx_done total wire written).result ≢ pos whole
unfolding stopped
stopped_short write tx_done total whole wire written h differ = ground arith

module _ (write : ℕ → List ℕ → ℤ) (tx_done : Bool) (writer : IsWriter write) where
  -- The bytes written so far and the bytes left make up the message.
  send_loop_whole :
      (fuel total : ℕ) (wire left message : List ℕ)
      → length left ≤ fuel
      → wire ++ left ≡ message
      → length wire ≡ total
      → (send_loop write tx_done fuel total wire left).result ≡ pos (length message)
      → (send_loop write tx_done fuel total wire left).wire ≡ message
  unfolding send_loop go_on
  send_loop_whole zero total wire [] message enough split count h = sym (append-nil wire) ∙ split
  send_loop_whole (suc fuel) total wire [] message enough split count h =
      sym (append-nil wire) ∙ split
  send_loop_whole zero total wire (b ∷ left) message enough split count h = absurd (omega arith)
  send_loop_whole (suc fuel) total wire (b ∷ left) message enough split count h =
      written (write total (b ∷ left)) refl
        (λ n p.
          send_loop_whole fuel (total + n) (wire ++ take n (b ∷ left)) (drop n (b ∷ left)) message
            (omega (arith, length-drop n (b ∷ left)))
            (append_assoc wire (take n (b ∷ left)) (drop n (b ∷ left))
              ∙ ap (λ t. wire ++ t) (take-drop n (b ∷ left))
              ∙ split)
            (omega (arith, length-append wire (take n (b ∷ left)), length-take n (b ∷ left), p.1)))
        h
    where
      rest : ℕ → Sent
      rest n =
          send_loop write tx_done fuel (total + n) (wire ++ take n (b ∷ left)) (drop n (b ∷ left))

      short : total < length message
      short = omega (arith, ap length split, length-append wire (b ∷ left))

      written :
          (v : ℤ)
          → write total (b ∷ left) ≡ v
          → ((n : ℕ)
              → (0 < n) × (n ≤ length (b ∷ left))
              → (rest n).result ≡ pos (length message)
              → (rest n).wire ≡ message)
          → (go_on (stopped write tx_done total wire) rest v).result ≡ pos (length message)
          → (go_on (stopped write tx_done total wire) rest v).wire ≡ message
      written (negsuc n) e loop q =
          absurd
            (stopped_short write tx_done total (length message) wire (negsuc n) short (λ x. cc) q)
      written (pos n) e loop q = elim (Bool-cases (n == 0)) [
        | inl nothing ↦ absurd (
            stopped_short write tx_done total (length message) wire (pos 0) short
              (zero-ne-pos (length message) (omega (arith, short))) (rw nothing at q))
        | inr some_bytes ↦
            rw some_bytes
              (loop n (positive n some_bytes, writer total (b ∷ left) n e) (rw some_bytes at q))
      ]

-- If `lora_e32_send_raw` returns the length of the message, the driver took exactly the message.
pub lora_e32_send_raw_whole :
    (write : ℕ → List ℕ → ℤ) (tx_done : Bool) (message : List ℕ)
    → IsWriter write
    → (lora_e32_send_raw write tx_done message).result ≡ pos (length message)
    → (lora_e32_send_raw write tx_done message).wire ≡ message
unfolding lora_e32_send_raw
lora_e32_send_raw_whole write tx_done [] writer h = refl
lora_e32_send_raw_whole write tx_done (b ∷ message) writer h =
    let some_bytes : (length (b ∷ message) == 0) ≡ false = ground arith in
    rw some_bytes (
      send_loop_whole write tx_done writer (length (b ∷ message)) 0 [] (b ∷ message) (b ∷ message)
        (omega arith) refl refl (rw some_bytes at h))

-- A driver that takes at least one byte, and no more than there are, each time.
abbrev pub IsProgress : (ℕ → List ℕ → ℤ) → Type 0
IsProgress write =
    (total b : ℕ) (left : List ℕ)
    → (n : ℕ) × (write total (b ∷ left) ≡ pos n) × (0 < n) × (n ≤ length (b ∷ left))

send_loop_progress :
    (write : ℕ → List ℕ → ℤ)
    → IsProgress write
    → (fuel total : ℕ) (wire left : List ℕ) → length left ≤ fuel
    → (send_loop write true fuel total wire left).result ≡ pos (total + length left)
unfolding send_loop go_on
send_loop_progress write p zero total wire [] enough = ap pos (omega arith)
send_loop_progress write p (suc fuel) total wire [] enough = ap pos (omega arith)
send_loop_progress write p zero total wire (b ∷ left) enough = absurd (omega arith)
send_loop_progress write p (suc fuel) total wire (b ∷ left) enough =
    let (n, wrote, some_bytes, fits) = p total b left in
    let moved : (n == 0) ≡ false = ground arith in
    let short : length (drop n (b ∷ left)) ≤ fuel = omega (arith, length-drop n (b ∷ left)) in
    rw (wrote, moved)
      (send_loop_progress write p fuel (total + n) (wire ++ take n (b ∷ left)) (drop n (b ∷ left))
          short
        ∙ ap pos (omega (arith, length-drop n (b ∷ left))))

-- If the driver takes at least one byte each time and the transmission ends, `lora_e32_send_raw`
-- returns the length of the message, however the driver splits it.
pub lora_e32_send_raw_progress :
    (write : ℕ → List ℕ → ℤ) (message : List ℕ)
    → IsProgress write
    → (lora_e32_send_raw write true message).result ≡ pos (length message)
unfolding lora_e32_send_raw
lora_e32_send_raw_progress write [] p = refl
lora_e32_send_raw_progress write (b ∷ message) p =
    let some_bytes : (length (b ∷ message) == 0) ≡ false = ground arith in
    rw some_bytes (
      send_loop_progress write p (length (b ∷ message)) 0 [] (b ∷ message) (omega arith)
      ∙ ap pos (omega arith))
