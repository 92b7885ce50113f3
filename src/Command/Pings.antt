-- ===== src/Command/Pings.antt =====
-- What a ping from the server reports.
use gtw_jalles_websoket_blue.Prelude.{
  ℕ, zero, suc, ◌+◌, ◌/◌, ◌%◌, ◌≡◌, ◌↔◌, refl, ap, Bool, true, false, Option, none, some, List, ◌∷◌,
  ℤ, pos, negsuc, length, length-append, ltb, inl, inr, Bool-cases, arith,
}
use gtw_jalles_websoket_blue.Text.{print_number}
use gtw_jalles_websoket_blue.Lora.Frame.{msg_ping}
use gtw_jalles_websoket_blue.Gateway.Ack.{
  Gateway, Surroundings, recover, next_id, to_tank, gtw_send_frame_wait_ack, gtw_ping_tank,
}
use gtw_jalles_websoket_blue.Gateway.Ack.Transaction.{SomeAnswered, gtw_send_frame_wait_ack_iff}
use gtw_jalles_websoket_blue.Config.{same_int}
use gtw_jalles_websoket_blue.Command.Fields.{
  gtw_tanque, control_id, DataObject, int_of, is_number, print_int,
}
use gtw_jalles_websoket_blue.Command.{
  to_u16, result_head, success_tail, fail_tail, ping_text, handle_ping_tanque,
}

length-print_number :
    (fuel n : ℕ) (text other : List ℕ)
    → length (print_number fuel n text) + length other
      ≡ length (print_number fuel n other) + length text
unfolding print_number
length-print_number zero n text other = omega arith
length-print_number (suc fuel) n text other = elim (Bool-cases (ltb n 10)) [
  | inl last ↦ simp last (omega arith)
  | inr more ↦ simp more (
      omega
        (arith, length-print_number fuel (n / 10) ((48 + n % 10) ∷ text) ((48 + n % 10) ∷ other)))
]

length-print_int :
    (z : ℤ) (text other : List ℕ)
    → length (print_int z text) + length other ≡ length (print_int z other) + length text
unfolding print_int
length-print_int (pos n) text other = length-print_number 10 n text other
length-print_int (negsuc n) text other = omega (arith, length-print_number 10 (suc n) text other)

abbrev size : Option (List ℕ) → ℕ
size none = 0
size (some text) = length text

-- The two results are different texts.
results_differ : (tank : ℤ) → some (ping_text tank false) ≡ some (ping_text tank true) → ⊥
unfolding ping_text
results_differ tank e = omega (
  arith,
  ap size e,
  length-append result_head (print_int tank success_tail),
  length-append result_head (print_int tank fail_tail),
  length-print_int tank success_tail fail_tail,
)

success_iff :
    (tank : ℤ) (ok : Bool) → (some (ping_text tank ok) ≡ some (ping_text tank true)) ↔ (ok ≡ true)
success_iff tank true = (λ h. refl, λ h. refl)
success_iff tank false = (λ h. absurd (results_differ tank h), λ h. cc)

-- A ping from the server for this gateway is reported as a success exactly when `gtw_request_mutex` was
-- taken, the radio was in order or could be recovered, and one of the five attempts was answered by the
-- tank, whose number is the id cut to 16 bits.
pub handle_ping_tanque_iff :
    (e : Surroundings) (d : DataObject) (g : Gateway)
    → is_number (d.field gtw_tanque) ≡ true
    → is_number (d.field control_id) ≡ true
    → same_int (int_of (d.field gtw_tanque)) (pos g.device_id) ≡ true
    → ((handle_ping_tanque e (some d) g).1 ≡ some (ping_text (int_of (d.field control_id)) true))
      ↔ ((e.request_lock ≡ true)
          × ((recover e (record g { msg_counter = next_id g.msg_counter })).1 ≡ true)
          × SomeAnswered (to_tank g (to_u16 (int_of (d.field control_id))) msg_ping) e.attempts 5 1)
unfolding handle_ping_tanque gtw_ping_tank to_tank
handle_ping_tanque_iff e d g known named ours =
    let tank : ℤ = int_of (d.field control_id) in
    let done =
      gtw_send_frame_wait_ack_iff (to_tank g (to_u16 tank) msg_ping) e
        (record g { msg_counter = next_id g.msg_counter }) in
    let text =
      success_iff tank
        (gtw_send_frame_wait_ack (to_tank g (to_u16 tank) msg_ping) e
          (record g { msg_counter = next_id g.msg_counter })).1 in
    simp (known, named, ours) (λ h. done.0 (text.0 h), λ x. text.1 (done.1 x))
