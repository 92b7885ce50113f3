-- ===== src/Command/Handles.antt =====
-- What a command does to the tank it is for.
use gtw_jalles_websoket_blue.Prelude.{
  ℕ, ◌<◌, ◌≤◌, ◌≡◌, refl, ap, ◌∙◌, Bool, true, false, not, Option, none, some, List, ℤ, pos, negsuc,
  length, leb, inl, inr, Option-cases, if-elim, arith,
}
use gtw_jalles_websoket_blue.Text.{c_string}
use gtw_jalles_websoket_blue.Http.{Http, server_get_json}
use gtw_jalles_websoket_blue.Gateway.Ack.{Gateway, gtw_send_to_tank}
use gtw_jalles_websoket_blue.Command.Fields.{
  Double, Item, null_item, other_item, boolean, number, DataObject, from_zero, at_most, Order,
  bomba_order, order_text,
}
use gtw_jalles_websoket_blue.Command.{
  to_u16, Consult, order_url, says_online, answer_online, send_order, obey, handle_bomba_control,
}
use gtw_jalles_websoket_blue.Command.Orders.{order_text_fits}

-- The server says that the tank of the order is online.
pub record IsOnline (c : Consult) (o : Order) (h : Http) : Type 0 where
  pub asked : c.http_lock ≡ true
  pub answer :
      (bytes : List ℕ) × ((server_get_json c.server (some (order_url c.route o.tank)) h).1
        ≡ (pos 1, some bytes))
      × (c.parse_online (c_string bytes) ≡ some (some (boolean true)))

-- What becomes of a command.
pub data Obeys (c : Consult) (d : DataObject) (g : Gateway) (h : Http)
    : Gateway × (Http × Option Bool) → Type 0 where
  refused : bomba_order g.device_id d ≡ none → Obeys c d g h (g, (h, none))
  online :
      (o : Order) (after : Http)
      → bomba_order g.device_id d ≡ some o
      → IsOnline c o h
      → Obeys c d g h (g, (after, none))
  sent :
      (o : Order) (after : Http)
      → bomba_order g.device_id d ≡ some o
      → (IsOnline c o h → ⊥)
      → Obeys c d g h (
        (gtw_send_to_tank
            (to_u16 o.tank)
            (order_text c.print o)
            (to_u16 o.pump)
            c.surroundings
            g).0,
        (
          after,
          some
              (gtw_send_to_tank
                (to_u16 o.tank)
                (order_text c.print o)
                (to_u16 o.pump)
                c.surroundings
                g).1,
        ),
      )

says_online_lem :
    (found : Option (Option Item)) → says_online found ≡ true → found ≡ some (some (boolean true))
says_online_lem (some (some (boolean true))) h = refl
says_online_lem (some (some (boolean false))) h = cc
says_online_lem (some (some (number v n))) h = cc
says_online_lem (some (some null_item)) h = cc
says_online_lem (some (some other_item)) h = cc
says_online_lem (some none) h = cc
says_online_lem none h = cc

answer_online_lem :
    (parse : List ℕ → Option (Option Item)) (a : ℤ × Option (List ℕ))
    → answer_online parse a ≡ true
    → (bytes : List ℕ) × (a ≡ (pos 1, some bytes))
      × (parse (c_string bytes) ≡ some (some (boolean true)))
answer_online_lem parse (pos n, some bytes) h =
    let one : n ≡ 1 = ground arith in
    (bytes, rw one refl, says_online_lem (parse (c_string bytes)) (ground arith))
answer_online_lem parse (pos n, none) h = cc
answer_online_lem parse (negsuc n, x) h = cc

answer_online_back :
    (parse : List ℕ → Option (Option Item)) (a : ℤ × Option (List ℕ)) (bytes : List ℕ)
    → a ≡ (pos 1, some bytes)
    → parse (c_string bytes) ≡ some (some (boolean true))
    → answer_online parse a ≡ true
answer_online_back parse a bytes e p = ap (answer_online parse) e ∙ ap says_online p

send_order_lem :
    (c : Consult) (o : Order) (g : Gateway)
    → length (order_text c.print o) < 64
    → send_order c o g ≡ (
      (gtw_send_to_tank (to_u16 o.tank) (order_text c.print o) (to_u16 o.pump) c.surroundings g).0,
      some
          (gtw_send_to_tank
            (to_u16 o.tank)
            (order_text c.print o)
            (to_u16 o.pump)
            c.surroundings
            g).1,
    )
unfolding send_order
send_order_lem c o g fits =
    let short : leb 64 (length (order_text c.print o)) ≡ false = ground arith in simp short refl

obey-Obeys :
    (c : Consult) (d : DataObject) (o : Order) (g : Gateway) (h : Http)
    → ((v : Double) → from_zero v ≡ true → at_most 100 v ≡ true → length (c.print v) ≤ 6)
    → bomba_order g.device_id d ≡ some o
    → Obeys c d g h (obey c o g h)
unfolding obey
obey-Obeys c d o g h short e =
    let s = send_order_lem c o g (order_text_fits c.print g.device_id d o short e) in
    if-elim (Obeys c d g h) (not c.http_lock)
      (λ busy. rw s (sent o h e (λ x. let taken = x.asked in absurd (ground arith))))
      (λ free.
        if-elim (Obeys c d g h)
          (answer_online c.parse_online
            (server_get_json c.server (some (order_url c.route o.tank)) h).1)
          (λ up.
            online o _ e
              (record { asked = ground arith; answer = answer_online_lem c.parse_online _ up }))
          (λ down. rw s (
            sent o _ e (λ x.
              let (bytes, got, says) = x.answer in
              let up = answer_online_back c.parse_online _ bytes got says in
              absurd (differ down up)))))
  where
    differ : {b : Bool} → b ≡ false → b ≡ true → ⊥
    differ x y = cc

-- A command that does not pass the tests changes nothing. Of one that does, the gateway sends the text to
-- the tank, with the pump, in one transaction, unless `MutexHTTP` was taken and the server answered with
-- JSON that has "online" true; then nothing is sent. It is assumed that `%.2f` prints at most six
-- characters of a number of 0 to 100.
pub handle_bomba_control-Obeys :
    (c : Consult) (d : DataObject) (g : Gateway) (h : Http)
    → ((v : Double) → from_zero v ≡ true → at_most 100 v ≡ true → length (c.print v) ≤ 6)
    → Obeys c d g h (handle_bomba_control c (some d) g h)
unfolding handle_bomba_control
handle_bomba_control-Obeys c d g h short = elim (Option-cases (bomba_order g.device_id d)) [
  | inl none_found ↦ rw none_found (refused none_found)
  | inr (o, e) ↦ rw e (obey-Obeys c d o g h short e)
]
