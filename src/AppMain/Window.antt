-- ===== src/AppMain/Window.antt =====
-- The window at the start.
use gtw_jalles_websoket_blue.Prelude.{
  ℕ, ◌^◌, ◌-◌, ◌≡◌, refl, ap, ◌∙◌, Bool, true, false, not, ◌&&◌, List, [], ◌∷◌, ◌==◌, inl, inr, ◌⊎◌,
  Bool-cases, if-elim, arith,
}
use gtw_jalles_websoket_blue.Esp.{EspErr, esp_ok, is_ok}
use gtw_jalles_websoket_blue.Bluetooth.State.{App, Ble, set_status}
use gtw_jalles_websoket_blue.Bluetooth.Message.{bt_client_disconnected_callback}
use gtw_jalles_websoket_blue.Bluetooth.Window.{
  Advert, ble_advertise, ble_prepare_runtime, Prepare, Opening, set_window_timer, open_window,
  bluetooth_config_start, bluetooth_config_stop,
}
use gtw_jalles_websoket_blue.AppMain.{Task, ble_boot_wait, Launch, set_startup, open_startup_window}

-- Opening the window leaves the program's own variables alone; and if it succeeds the window is open.
record Opens (b : Ble) (x : Ble × EspErr) : Type 0 where
  app : x.0.app ≡ b.app
  shown : is_ok x.1 ≡ true → x.0.window_open ≡ true

prepare-app : (p : Prepare) (b : Ble) → (ble_prepare_runtime p b).0.app ≡ b.app
unfolding ble_prepare_runtime
prepare-app p b = elim (Bool-cases (not b.queue_made && not p.queue)) [
  | inl none_made ↦ simp none_made refl
  | inr queue ↦ elim (Bool-cases (not b.task_made && not p.task)) [
    | inl no_task ↦ simp (queue, no_task) refl
    | inr task ↦ elim (Bool-cases (not b.timer_made && not p.timer)) [
      | inl no_timer ↦ simp (queue, task, no_timer) refl
      | inr timer ↦ simp (queue, task, timer) refl
    ]
  ]
]

timer-Opens :
    (t : ℕ) (b u : Ble)
    → u.app ≡ b.app
    → u.window_open ≡ true
    → Opens b (set_window_timer t u, esp_ok)
unfolding set_window_timer
timer-Opens t b u same open_now = elim (Bool-cases (t == 2 ^ 32 - 1)) [
  | inl forever ↦ simp forever (record { app = same; shown = λ h. open_now })
  | inr limited ↦ simp limited (record { app = same; shown = λ h. open_now })
]

advertise_same :
    (a : Advert) (b : Ble)
    → ((ble_advertise a b).app ≡ b.app) × ((ble_advertise a b).window_open ≡ b.window_open)
unfolding ble_advertise
advertise_same a b = elim (Bool-cases (a.fields && a.response && a.started)) [
  | inl on ↦ simp on (refl, refl)
  | inr off ↦ simp off (refl, refl)
]

open_window-Opens : (t : ℕ) (o : Opening) (b : Ble) → Opens b (open_window t o b)
unfolding open_window set_status
open_window-Opens t o b =
    if-elim (Opens b) b.stack_started
      (λ started. let (same, shown) = advertise_same o.advert _ in timer-Opens t b _ same shown)
      (λ fresh.
        if-elim (Opens b) (not (is_ok o.port))
          (λ bad. record { app = refl; shown = λ h. absurd (ground arith) })
          (λ good.
            if-elim (Opens b) (not o.gatt) (λ no_gatt. record { app = refl; shown = λ h. cc })
              (λ gatt. timer-Opens t b _ refl refl)))

start-Opens : (t : ℕ) (o : Opening) (b : Ble) → Opens b (bluetooth_config_start t o b)
unfolding bluetooth_config_start
start-Opens t o b =
    let same = prepare-app o.prepare b in
    if-elim (Opens b) (is_ok (ble_prepare_runtime o.prepare b).1)
      (λ ready.
        let opens = open_window-Opens t o (ble_prepare_runtime o.prepare b).0 in
        record { app = opens.app ∙ same; shown = opens.shown })
      (λ failed. record { app = same; shown = λ h. absurd (ground (arith, failed)) })

-- The window at the start, with the configuration left alone: nobody waits for it, or it is open and has
-- its task.
pub record IsWatched (b : Ble) (x : Ble × List Task) : Type 0 where
  pub config : x.0.app.config ≡ b.app.config
  pub watch :
      ((x.0.app.startup_window ≡ false) × ((x.1 ≡ []) ⊎ (x.1 ≡ ble_boot_wait ∷ [])))
      ⊎ ((x.0.window_open ≡ true) × (x.1 ≡ ble_boot_wait ∷ []))

stopped :
    (answers : ℕ → Bool) (stored : EspErr) (b : Ble)
    → b.app.startup_window ≡ false
    → ((bluetooth_config_stop answers stored b).app.startup_window ≡ false)
      × ((bluetooth_config_stop answers stored b).app.config ≡ b.app.config)
unfolding bluetooth_config_stop bt_client_disconnected_callback set_status
stopped answers stored b off = elim (Bool-cases (not b.window_open && not b.stack_started)) [
  | inl shut ↦ simp shut (off, refl)
  | inr shown ↦ simp shown (refl, refl)
]

pub open_startup_window-IsWatched : (l : Launch) (b : Ble) → IsWatched b (open_startup_window l b)
unfolding open_startup_window set_startup
open_startup_window-IsWatched l b =
    let o = start-Opens 30000 l.window (set_startup true b) in
    let same = ap (λ (a : App). a.config) o.app in
    if-elim (IsWatched b)
      (not (is_ok (bluetooth_config_start 30000 l.window (set_startup true b)).1))
      (λ failed. record { config = same; watch = inl (refl, inl refl) })
      (λ opened.
        if-elim (IsWatched b) (not l.watch_made)
          (λ no_task.
            let (off, kept) =
              stopped l.deinits l.stored
                (set_startup false (bluetooth_config_start 30000 l.window (set_startup true b)).0)
                refl in
            record { config = kept ∙ same; watch = inl (off, inl refl) })
          (λ made. record { config = same; watch = inr (o.shown (ground (arith, opened)), refl) }))
