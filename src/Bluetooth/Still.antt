-- ===== src/Bluetooth/Still.antt =====
-- The calls that leave the queue of messages alone.
use gtw_jalles_websoket_blue.Prelude.{
  ℕ, ◌-◌, ◌^◌, ◌≡◌, refl, ap, ◌∙◌, Bool, not, ◌&&◌, ◌==◌, if-elim,
}
use gtw_jalles_websoket_blue.Esp.{EspErr, is_ok}
use gtw_jalles_websoket_blue.Bluetooth.State.{App, Ble, has_client, set_status}
use gtw_jalles_websoket_blue.Bluetooth.Quiet.{IsQuiet, notify_status-core}
use gtw_jalles_websoket_blue.Bluetooth.Window.{
  Advert, ble_advertise, ble_advertise_async, ble_stop_async, ble_advertise_task, ble_on_sync,
  GapEvent, connect, connect_failed, disconnect, adv_complete, other_event, subscribe, gap_event_cb,
  ble_window_timeout_cb, Prepare, ble_prepare_runtime, Opening, set_window_timer, open_window,
  bluetooth_config_start, deinit_within, bluetooth_config_stop, ble_stop_task,
}

-- The queue, and what was taken from it, are left alone.
pub record IsStill (b x : Ble) : Type 0 where
  pub taken : x.delivered ≡ b.delivered
  pub waiting : x.rx_queue ≡ b.rx_queue

pub still : {b x : Ble} → x.delivered ≡ b.delivered → x.rx_queue ≡ b.rx_queue → IsStill b x
still d q = record { taken = d; waiting = q }

pub IsQuiet-IsStill : {a : App} {b x : Ble} → IsQuiet a b x → IsStill b x
IsQuiet-IsStill h = record {
  taken = ap (λ (y : Ble). y.delivered) h.same;
  waiting = ap (λ (y : Ble). y.rx_queue) h.same;
}

pub after : {b x y : Ble} → IsStill x y → IsStill b x → IsStill b y
after q p = record { taken = q.taken ∙ p.taken; waiting = q.waiting ∙ p.waiting }

advertise-IsStill : (a : Advert) (b : Ble) → IsStill b (ble_advertise a b)
unfolding ble_advertise
advertise-IsStill a b =
    if-elim (IsStill b) (a.fields && a.response && a.started) (λ h. still refl refl)
      (λ h. still refl refl)

advertise_async-IsStill : (made : Bool) (b : Ble) → IsStill b (ble_advertise_async made b)
unfolding ble_advertise_async
advertise_async-IsStill made b =
    if-elim (IsStill b) made (λ h. still refl refl) (λ h. still refl refl)

stop_async-IsStill : (made : Bool) (b : Ble) → IsStill b (ble_stop_async made b)
unfolding ble_stop_async
stop_async-IsStill made b = if-elim (IsStill b) made (λ h. still refl refl) (λ h. still refl refl)

pub advertise_task-IsStill : (a : Advert) (b : Ble) → IsStill b (ble_advertise_task a b)
unfolding ble_advertise_task
advertise_task-IsStill a b =
    if-elim (IsStill b) b.window_open (λ h. after (advertise-IsStill a _) (still refl refl))
      (λ h. still refl refl)

pub sync-IsStill : (inferred : Bool) (a : Advert) (b : Ble) → IsStill b (ble_on_sync inferred a b)
unfolding ble_on_sync
sync-IsStill inferred a b =
    if-elim (IsStill b) (inferred && b.window_open) (λ h. advertise-IsStill a b)
      (λ h. still refl refl)

pub event-IsStill :
    (made sent : Bool) (e : GapEvent) (b : Ble) → IsStill b (gap_event_cb made sent e b)
unfolding gap_event_cb
event-IsStill made sent (connect handle) b = still refl refl
event-IsStill made sent connect_failed b =
    if-elim (IsStill b) b.window_open
      (λ h. after (advertise_async-IsStill made _) (still refl refl)) (λ h. still refl refl)
event-IsStill made sent disconnect b =
    if-elim (IsStill b) b.window_open (λ h. after (stop_async-IsStill made _) (still refl refl))
      (λ h. still refl refl)
event-IsStill made sent adv_complete b =
    if-elim (IsStill b) b.window_open (λ h. advertise_async-IsStill made b) (λ h. still refl refl)
event-IsStill made sent (subscribe attr_handle cur_notify) b =
    if-elim (IsStill b) (attr_handle == b.tx_handle)
      (λ h. after (IsQuiet-IsStill (notify_status-core b.app sent _)) (still refl refl))
      (λ h. still refl refl)
event-IsStill made sent other_event b = still refl refl

pub timeout-IsStill : (made : Bool) (b : Ble) → IsStill b (ble_window_timeout_cb made b)
unfolding ble_window_timeout_cb
timeout-IsStill made b =
    if-elim (IsStill b) (has_client b.conn) (λ h. still refl refl)
      (λ h. after (stop_async-IsStill made _) (still refl refl))

-- A start leaves the queue alone too.
abbrev pub IsStillStart : Ble → (Ble × EspErr) → Type 0
IsStillStart b r = IsStill b r.0

prepare-IsStill : (p : Prepare) (b : Ble) → IsStillStart b (ble_prepare_runtime p b)
unfolding ble_prepare_runtime
prepare-IsStill p b =
    if-elim (IsStillStart b) (not b.queue_made && not p.queue) (λ h. still refl refl)
      (λ h.
        if-elim (IsStillStart b) (not b.task_made && not p.task) (λ k. still refl refl)
          (λ k.
            if-elim (IsStillStart b) (not b.timer_made && not p.timer) (λ l. still refl refl)
              (λ l. still refl refl)))

timer-IsStill : (t : ℕ) (b : Ble) → IsStill b (set_window_timer t b)
unfolding set_window_timer
timer-IsStill t b =
    if-elim (IsStill b) (t == 2 ^ 32 - 1) (λ h. still refl refl) (λ h. still refl refl)

open_window-IsStill : (t : ℕ) (o : Opening) (b : Ble) → IsStillStart b (open_window t o b)
unfolding open_window set_status
open_window-IsStill t o b =
    if-elim (IsStillStart b) b.stack_started
      (λ h. after (timer-IsStill t _) (after (advertise-IsStill o.advert _) (still refl refl)))
      (λ h.
        if-elim (IsStillStart b) (not (is_ok o.port)) (λ k. still refl refl)
          (λ k.
            if-elim (IsStillStart b) (not o.gatt) (λ l. still refl refl)
              (λ l. after (timer-IsStill t _) (still refl refl))))

pub start-IsStill : (t : ℕ) (o : Opening) (b : Ble) → IsStillStart b (bluetooth_config_start t o b)
unfolding bluetooth_config_start
start-IsStill t o b =
    if-elim (IsStillStart b) (is_ok (ble_prepare_runtime o.prepare b).1)
      (λ h. after (open_window-IsStill t o _) (prepare-IsStill o.prepare b))
      (λ h. prepare-IsStill o.prepare b)

pub stop-IsStill :
    (answers : ℕ → Bool) (stored : EspErr) (b : Ble)
    → IsStill b (bluetooth_config_stop answers stored b)
unfolding bluetooth_config_stop set_status
stop-IsStill answers stored b =
    if-elim (IsStill b) (not b.window_open && not b.stack_started) (λ h. still refl refl)
      (λ h. after (still refl refl) (
        if-elim (IsStill b) (b.stack_started && deinit_within 10 answers) (λ k. still refl refl)
          (λ k. still refl refl)))

pub stop_task-IsStill :
    (answers : ℕ → Bool) (stored : EspErr) (b : Ble) → IsStill b (ble_stop_task answers stored b)
unfolding ble_stop_task
stop_task-IsStill answers stored b = after (still refl refl) (stop-IsStill answers stored b)
