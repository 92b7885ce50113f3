-- ===== src/Bluetooth/Order.antt =====
-- The texts of the client reach the program in order, none twice.
use gtw_jalles_websoket_blue.Prelude.{
  ℕ, ◌≤◌, ◌≡◌, refl, ap, ap₂, sym, List-cases, ◌<◌, ◌∙◌, inl, inr, Bool, false, not, ◌||◌, List, [],
  ◌∷◌, ◌++◌, All, append_assoc, append-nil, length, length-append, ltb, ◌==◌, get_or, if-elim,
  Option, arith,
}
use gtw_jalles_websoket_blue.Text.{c_string}
use gtw_jalles_websoket_blue.Bluetooth.State.{
  Status, Ble, set_status, payload_size, payload_copy, received, queue_full,
}
use gtw_jalles_websoket_blue.Bluetooth.Message.{Json, Answers}
use gtw_jalles_websoket_blue.Bluetooth.Still.{
  IsStill, still, after, IsQuiet-IsStill, advertise_task-IsStill, sync-IsStill, event-IsStill,
  timeout-IsStill, start-IsStill, stop-IsStill, stop_task-IsStill,
}
use gtw_jalles_websoket_blue.Bluetooth.Quiet.{
  notify_status-core, send-core, bt_binary_received_callback-core,
  bt_message_received_callback-core,
}
use gtw_jalles_websoket_blue.Bluetooth.Window.{
  AttResult, att_ok, insufficient_res, invalid_attr_value_len, unlikely, Write, refuse,
  queue_message, gatt_write, ble_rx_task_round,
}
use gtw_jalles_websoket_blue.Bluetooth.Steps.{
  accepted, Step, start, stop, stop_task, advertise_task, sync, event, write, receive, timeout,
  send, mode_task, startup_task, Reach, here, next,
}

-- A text of the client: 1 to 512 bytes, the first not the mark of a block of an update.
abbrev pub IsText : List ℕ → Type 0
IsText payload =
    (0 < length payload) × (length payload ≤ 512) × ((get_or payload 0 0 == 161) ≡ false)

-- What was taken from the queue and what waits in it are the texts, in order; at most 16 wait.
pub record IsOrdered (texts : List (List ℕ)) (b : Ble) : Type 0 where
  pub in_order : b.delivered ++ b.rx_queue ≡ texts
  pub within : length b.rx_queue ≤ 16
  pub are_texts : All IsText texts

carried : {texts : List (List ℕ)} {b x : Ble} → IsStill b x → IsOrdered texts b → IsOrdered texts x
carried s o = record {
  in_order = ap₂ (λ d q. d ++ q) s.taken s.waiting ∙ o.in_order;
  within = rw s.waiting (o.within);
  are_texts = o.are_texts;
}

IsStill-IsOrdered :
    {texts : List (List ℕ)} {b x : Ble}
    → IsStill b x
    → IsOrdered texts b
    → IsOrdered (texts ++ []) x
IsStill-IsOrdered {texts} s o = rw (append-nil texts) (carried s o)

All-snoc :
    (texts : List (List ℕ)) (t : List ℕ)
    → All IsText texts
    → IsText t
    → All IsText (texts ++ (t ∷ []))
All-snoc [] t h k = (k, _)
All-snoc (x ∷ texts) t h k = (h.0, All-snoc texts t (h.1) k)

refuse-IsStill :
    (sent : Bool) (s : Status) (r : AttResult) (b : Ble) → IsStill b (refuse sent s r b).0
unfolding refuse set_status
refuse-IsStill sent s r b =
    after (IsQuiet-IsStill (notify_status-core b.app sent _)) (still refl refl)

-- The state and the answer of a write, with the text that it accepted.
abbrev IsWritten : List (List ℕ) → List ℕ → (Ble × AttResult) → Type 0
IsWritten texts payload r = IsOrdered (texts ++ accepted payload r.1) r.0

queue_message-IsWritten :
    (texts : List (List ℕ)) (sent : Bool) (payload : List ℕ) (b : Ble)
    → IsText payload
    → IsOrdered texts b
    → IsWritten texts payload (queue_message sent payload b)
unfolding queue_message refuse
queue_message-IsWritten texts sent payload b t o =
    if-elim (IsWritten texts payload) (ltb (length b.rx_queue) 16)
      (λ room.
        let put : IsOrdered (texts ++ (payload ∷ []))
            (record b { rx_queue = b.rx_queue ++ (payload ∷ []) }) =
          record {
            in_order =
                sym (append_assoc b.delivered b.rx_queue (payload ∷ []))
                ∙ ap (λ l. l ++ (payload ∷ [])) o.in_order;
            within = let size = length-append b.rx_queue (payload ∷ []) in ground arith;
            are_texts = All-snoc texts payload (o.are_texts) t;
          } in
        simp (t.2) (
          carried
            (refuse-IsStill sent received att_ok
              (record b { rx_queue = b.rx_queue ++ (payload ∷ []) }))
            put))
      (λ full. IsStill-IsOrdered (refuse-IsStill sent queue_full insufficient_res b) o)

write-IsWritten :
    (texts : List (List ℕ)) (w : Write) (payload : List ℕ) (b : Ble)
    → IsOrdered texts b
    → IsWritten texts payload (gatt_write w payload b)
unfolding gatt_write refuse
write-IsWritten texts w payload b o =
    if-elim (IsWritten texts payload) (length payload == 0 || ltb 512 (length payload))
      (λ bad. IsStill-IsOrdered (refuse-IsStill w.sent payload_size invalid_attr_value_len b) o)
      (λ good.
        if-elim (IsWritten texts payload) (not w.copied)
          (λ failed. IsStill-IsOrdered (refuse-IsStill w.sent payload_copy unlikely b) o)
          (λ copied.
            if-elim (IsWritten texts payload) (get_or payload 0 0 == 161)
              (λ block. simp block (
                IsStill-IsOrdered
                  (IsQuiet-IsStill
                    (bt_binary_received_callback-core b.app w.sent w.wrote w.stored payload b))
                  o))
              (λ text.
                queue_message-IsWritten texts w.sent payload b (ground arith, ground arith, text)
                  o)))

receive-IsOrdered :
    (texts : List (List ℕ)) (parse : List ℕ → Option Json) (a : Answers) (b : Ble)
    → IsOrdered texts b
    → IsOrdered (texts ++ []) (ble_rx_task_round parse a b)
unfolding ble_rx_task_round
receive-IsOrdered texts parse a b o = elim (List-cases b.rx_queue) [
  | inl none ↦ simp none (IsStill-IsOrdered (still refl refl) o)
  | inr (msg, rest, found) ↦ simp found (
      IsStill-IsOrdered
        (IsQuiet-IsStill (bt_message_received_callback-core b.app a (parse (c_string msg)) _))
        (record {
          in_order =
              append_assoc b.delivered (msg ∷ []) rest
              ∙ (ap (λ q. b.delivered ++ q) (sym found) ∙ o.in_order);
          within = let w = o.within in let size = ap length found in ground arith;
          are_texts = o.are_texts;
        }))
]

Step-IsOrdered :
    {b c : Ble} {texts more : List (List ℕ)}
    → Step b more c
    → IsOrdered texts b
    → IsOrdered (texts ++ more) c
Step-IsOrdered {b} (start t n) o = IsStill-IsOrdered (start-IsStill t n b) o
Step-IsOrdered {b} (stop answers stored) o = IsStill-IsOrdered (stop-IsStill answers stored b) o
Step-IsOrdered {b} (stop_task answers stored) o =
    IsStill-IsOrdered (stop_task-IsStill answers stored b) o
Step-IsOrdered {b} (advertise_task a) o = IsStill-IsOrdered (advertise_task-IsStill a b) o
Step-IsOrdered {b} (sync inferred a) o = IsStill-IsOrdered (sync-IsStill inferred a b) o
Step-IsOrdered {b} (event made sent e) o = IsStill-IsOrdered (event-IsStill made sent e b) o
Step-IsOrdered {b} {texts = texts} (write w payload) o = write-IsWritten texts w payload b o
Step-IsOrdered {b} {texts = texts} (receive parse a) o = receive-IsOrdered texts parse a b o
Step-IsOrdered {b} (timeout made) o = IsStill-IsOrdered (timeout-IsStill made b) o
Step-IsOrdered {b} (send sent s) o =
    IsStill-IsOrdered (IsQuiet-IsStill (send-core b.app sent s b)) o
Step-IsOrdered (mode_task running) o = IsStill-IsOrdered (still refl refl) o
Step-IsOrdered startup_task o = IsStill-IsOrdered (still refl refl) o

Reach-IsOrdered :
    {b c : Ble} {texts : List (List ℕ)} → IsOrdered [] b → Reach b texts c → IsOrdered texts c
Reach-IsOrdered o here = o
Reach-IsOrdered o (next r s) = Step-IsOrdered s (Reach-IsOrdered o r)

-- Through any sequence of the calls of main/bluetooth.c, from a state with nothing taken and nothing
-- waiting: the messages that `ble_rx_task` took, followed by those that wait, are exactly the texts that
-- `gatt_access_cb` accepted, in order; at most 16 wait, and each has 1 to 512 bytes, of which the first
-- is not the mark of a block of an update.
pub messages_in_order :
    (b c : Ble) (texts : List (List ℕ))
    → b.delivered ≡ []
    → b.rx_queue ≡ []
    → Reach b texts c
    → IsOrdered texts c
messages_in_order b c texts d q r =
    Reach-IsOrdered
      (record {
        in_order = ap₂ (λ x y. x ++ y) d q;
        within = let size = ap length q in ground arith;
        are_texts = _;
      })
      r
