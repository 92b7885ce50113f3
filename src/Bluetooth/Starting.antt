-- ===== src/Bluetooth/Starting.antt =====
-- What `bluetooth_config_start` takes from the SDK and what it leaves behind when it fails.
use gtw_jalles_websoket_blue.Prelude.{
  ℕ, ◌+◌, ◌-◌, ◌^◌, ◌≡◌, ◌↔◌, refl, ◌∙◌, ap, ap₂, inl, inr, Bool, true, false, not, ◌&&◌, ◌||◌,
  ◌==◌, if◌then◌else◌, if-elim, Bool-cases, arith,
}
use gtw_jalles_websoket_blue.Esp.{EspErr, is_ok}
use gtw_jalles_websoket_blue.Bluetooth.State.{Ble, set_status, advertising}
use gtw_jalles_websoket_blue.Bluetooth.Window.{
  ble_advertise, ble_prepare_runtime, Prepare, Opening, Advert, set_window_timer, open_window,
  bluetooth_config_start,
}

-- The port of the stack and the flags for it and for the window.
record IsSameStack (b x : Ble) : Type 0 where
  ports : x.ports ≡ b.ports
  started : x.stack_started ≡ b.stack_started
  window : x.window_open ≡ b.window_open

advertise-IsSameStack : (a : Advert) (b : Ble) → IsSameStack b (ble_advertise a b)
unfolding ble_advertise
advertise-IsSameStack a b =
    if-elim (IsSameStack b) (a.fields && a.response && a.started)
      (λ h. record { ports = refl; started = refl; window = refl })
      (λ h. record { ports = refl; started = refl; window = refl })

timer-IsSameStack : (t : ℕ) (b : Ble) → IsSameStack b (set_window_timer t b)
unfolding set_window_timer
timer-IsSameStack t b =
    if-elim (IsSameStack b) (t == 2 ^ 32 - 1)
      (λ h. record { ports = refl; started = refl; window = refl })
      (λ h. record { ports = refl; started = refl; window = refl })

abbrev IsSamePrepared : Ble → (Ble × EspErr) → Type 0
IsSamePrepared b r = IsSameStack b r.0

prepare-IsSameStack : (p : Prepare) (b : Ble) → IsSamePrepared b (ble_prepare_runtime p b)
unfolding ble_prepare_runtime
prepare-IsSameStack p b =
    if-elim (IsSamePrepared b) (not b.queue_made && not p.queue)
      (λ h. record { ports = refl; started = refl; window = refl })
      (λ h.
        if-elim (IsSamePrepared b) (not b.task_made && not p.task)
          (λ k. record { ports = refl; started = refl; window = refl })
          (λ k.
            if-elim (IsSamePrepared b) (not b.timer_made && not p.timer)
              (λ l. record { ports = refl; started = refl; window = refl })
              (λ l. record { ports = refl; started = refl; window = refl })))

-- What becomes of the port, the window and the answer once the runtime is prepared.
open_window_lem :
    (t : ℕ) (o : Opening) (b : Ble)
    → (is_ok (open_window t o b).1 ≡ (b.stack_started || (is_ok o.port && o.gatt)))
      × ((open_window t o b).0.window_open ≡ is_ok (open_window t o b).1)
      × ((open_window t o b).0.stack_started ≡ is_ok (open_window t o b).1)
      × ((open_window t o b).0.ports
          ≡ b.ports + (if not b.stack_started && is_ok o.port then 1 else 0))
unfolding open_window set_status
open_window_lem t o b = elim (Bool-cases b.stack_started) [
  | inl on ↦
      let opened : Ble = record b {
        window_open = true;
        last_status = advertising;
        stack_started = true;
      } in
      let timed = timer-IsSameStack t (ble_advertise o.advert opened) in
      let heard = advertise-IsSameStack o.advert opened in
      simp on (
        refl,
        timed.window ∙ heard.window,
        timed.started ∙ heard.started,
        timed.ports ∙ (heard.ports ∙ omega arith),
      )
  | inr off ↦ elim (Bool-cases (is_ok o.port)) [
    | inr refused ↦ simp (off, refused) (refl, refl, refl, omega arith)
    | inl port ↦ elim (Bool-cases o.gatt) [
      | inr failed ↦ simp (off, port, failed) (refl, refl, refl, refl)
      | inl gatt ↦
          (let timed = timer-IsSameStack t (record b {
            tx_handle = o.handle;
            stack_started = true;
            window_open = true;
            last_status = advertising;
            ports = b.ports + 1;
          }) in
            simp (off, port, gatt) (refl, timed.window, timed.started, timed.ports))
    ]
  ]
]

port_iff :
    (after before : ℕ) (was is port gatt : Bool)
    → before ≡ (if was then 1 else 0)
    → is ≡ (was || (port && gatt))
    → after ≡ before + (if not was && port then 1 else 0)
    → (after ≡ (if is then 1 else 0)) ↔ ((not was && port && not gatt) ≡ false)
port_iff after before was is port gatt agree result grown = ground arith

-- From a state in which the program's flag for the stack agrees with the port that it holds:
-- `bluetooth_config_start` succeeds exactly when the runtime is prepared and the stack runs already or
-- its port is initialised and the services registered; the window is open after it exactly then, or if it
-- was open before and the runtime could not be prepared; and the flag agrees with the port afterwards
-- unless the port was initialised and the services could not be registered.
pub bluetooth_config_start_lem :
    (t : ℕ) (o : Opening) (b : Ble)
    → b.ports ≡ (if b.stack_started then 1 else 0)
    → (is_ok (bluetooth_config_start t o b).1 ≡ (
        is_ok (ble_prepare_runtime o.prepare b).1 && (b.stack_started || (is_ok o.port && o.gatt))))
      × ((bluetooth_config_start t o b).0.window_open ≡ (
          if is_ok (ble_prepare_runtime o.prepare b).1
          then is_ok (bluetooth_config_start t o b).1
          else b.window_open))
      × (((bluetooth_config_start t o b).0.ports
            ≡ (if (bluetooth_config_start t o b).0.stack_started then 1 else 0))
          ↔ ((is_ok (ble_prepare_runtime o.prepare b).1
                && not b.stack_started
                && is_ok o.port
                && not o.gatt)
              ≡ false))
unfolding bluetooth_config_start
bluetooth_config_start_lem t o b agree =
    let prepared = prepare-IsSameStack o.prepare b in
    let ports = prepared.ports in
    let started = prepared.started in
    let window = prepared.window in
    elim (Bool-cases (is_ok (ble_prepare_runtime o.prepare b).1)) [
      | inr refused ↦ simp (refused, window, ports, started) (refl, refl, (λ h. refl, λ h. agree))
      | inl ready ↦
          let opened = open_window_lem t o (ble_prepare_runtime o.prepare b).0 in
          let result = opened.0 ∙ ap (λ s. s || (is_ok o.port && o.gatt)) started in
          simp ready (
            result,
            opened.1,
            port_iff _ b.ports b.stack_started _ (is_ok o.port) o.gatt agree (opened.2 ∙ result) (
                opened.3 ∙ ap₂ (λ p s. p + (if not s && is_ok o.port then 1 else 0)) ports started),
          )
    ]
