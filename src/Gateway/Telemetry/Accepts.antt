-- ===== src/Gateway/Telemetry/Accepts.antt =====
-- What the queue of requests takes of a tank's data.
use gtw_jalles_websoket_blue.Prelude.{
  ℕ, ◌≤◌, ◌<◌, ◌≡◌, ◌↔◌, refl, Bool, true, false, List, [], length, length-take, take, min, ◌==◌,
  inl, inr, ◌⊎◌, Bool-cases, arith,
}
use gtw_jalles_websoket_blue.Text.{starts_with, contains, print_number_short, c_string_short}
use gtw_jalles_websoket_blue.Lora.Frame.{LoraAppFrame, payload_size}
use gtw_jalles_websoket_blue.Gateway.Patch.{
  Patch, http_patch, http_post, Method, Locks, level_key, is_tank_level_patch, queue_http_request,
  queue_patch_request,
}
use gtw_jalles_websoket_blue.Gateway.Patch.Slots.{IsPool}
use gtw_jalles_websoket_blue.Gateway.Patch.Queue.{queue_http_request_iff}
use gtw_jalles_websoket_blue.Gateway.Telemetry.{
  telemetry_body, pump_path, tank_path, alerts_path, queue_telemetry,
}

body_fits : (rx : LoraAppFrame) → length (telemetry_body rx) < 256
unfolding telemetry_body
body_fits rx = omega (
  arith,
  c_string_short (take (min rx.len payload_size) rx.payload),
  length-take (min rx.len payload_size) rx.payload,
)

pump_path_fits : (id : ℕ) → length (pump_path id) < 64
unfolding pump_path
pump_path_fits id = omega (arith, print_number_short 5 id [])

tank_path_fits : (id : ℕ) → length (tank_path id) < 64
unfolding tank_path
tank_path_fits id = omega (arith, print_number_short 5 id [])

pump_level : (id : ℕ) (body : List ℕ) → is_tank_level_patch (pump_path id) body http_patch ≡ false
unfolding is_tank_level_patch starts_with pump_path
pump_level id body = refl

tank_level :
    (id : ℕ) (body : List ℕ)
    → is_tank_level_patch (tank_path id) body http_patch ≡ contains level_key body
unfolding is_tank_level_patch starts_with tank_path
tank_level id body = refl

alerts_level : (body : List ℕ) → is_tank_level_patch alerts_path body http_post ≡ false
unfolding is_tank_level_patch starts_with
alerts_level body = refl

-- One destination: `level` is whether the request is the level of a tank.
destination_iff :
    (has : ℕ) (level text : Bool) (free : ℕ) (accepted : Bool)
    → has ≤ 2
    → (level ≡ true → (has ≡ 0) × (text ≡ true))
    → (has ≡ 0 → text ≡ true → level ≡ true)
    → (accepted ≡ true) ↔ ((level ≡ true) ⊎ (0 < free))
    → (accepted ≡ true) ↔ ((has ≤ 2) × (((has ≡ 0) × (text ≡ true)) ⊎ (0 < free)))
destination_iff has level text free accepted small there back fit = (
  λ h. (small, elim (fit.0 h) [ inl l ↦ inl (there l) | inr room ↦ inr room ]),
  λ (n, x). fit.1 (elim x [ inl (z, t) ↦ inl (back z t) | inr room ↦ inr room ]),
)

fitting_iff :
    (locks : Locks) (path body : List ℕ) (method : Method) (p : Patch)
    → IsPool p
    → length path < 64
    → length body < 256
    → ((queue_http_request locks path body method p).1 ≡ true)
      ↔ ((is_tank_level_patch path body method ≡ true) ⊎ (0 < length p.free))
fitting_iff locks path body method p v short_path short_body =
    let fit = queue_http_request_iff locks path body method p v in
    (λ h. (fit.0 h).2, λ x. fit.1 (short_path, short_body, x))

-- While the pool is whole, the data of a tank is accepted exactly when it names a destination, and a
-- slot is free or the destination is the tank and the text holds its level; no text is ever too
-- long.
pub queue_telemetry_iff :
    (locks : Locks) (rx : LoraAppFrame) (p : Patch)
    → IsPool p
    → ((queue_telemetry locks rx p).1 ≡ true) ↔ (
        (rx.has_bomba_id ≤ 2)
        × (((rx.has_bomba_id ≡ 0) × (contains level_key (telemetry_body rx) ≡ true))
            ⊎ (0 < length p.free)))
unfolding queue_telemetry queue_patch_request
queue_telemetry_iff locks rx p v =
    let body : List ℕ = telemetry_body rx in
    let text : Bool = contains level_key body in
    let fits = body_fits rx in
    elim (Bool-cases (rx.has_bomba_id == 1)) [
      | inl pump ↦ simp pump (
          destination_iff rx.has_bomba_id _ text (length p.free) _ (ground arith)
            (λ l. cc (l, pump_level rx.bomba_id body)) (λ z. ground arith)
            (fitting_iff locks (pump_path rx.bomba_id) body http_patch p v
              (pump_path_fits rx.bomba_id) fits))
      | inr no_pump ↦ elim (Bool-cases (rx.has_bomba_id == 0)) [
        | inl tank ↦
            simp (no_pump, tank)
              (destination_iff rx.has_bomba_id _ text (length p.free) _ (ground arith)
                (λ l. (ground arith, cc (l, tank_level rx.src_id body)))
                (λ z t. cc (t, tank_level rx.src_id body))
                (fitting_iff locks (tank_path rx.src_id) body http_patch p v
                  (tank_path_fits rx.src_id) fits))
        | inr no_tank ↦ elim (Bool-cases (rx.has_bomba_id == 2)) [
          | inl alert ↦
              simp (no_pump, no_tank, alert)
                (destination_iff rx.has_bomba_id _ text (length p.free) _ (ground arith)
                  (λ l. cc (l, alerts_level body)) (λ z. ground arith)
                  (fitting_iff locks alerts_path body http_post p v (omega arith) fits))
          | inr none_of_them ↦
              simp (no_pump, no_tank, none_of_them) (λ h. cc, λ (n, x). ground arith)
        ]
      ]
    ]
