-- ===== src/Bluetooth/Closing.antt =====
-- What `bluetooth_config_stop` leaves behind.
use gtw_jalles_websoket_blue.Prelude.{
  ℕ, ◌≡◌, refl, inl, inr, Bool, true, false, not, ◌&&◌, ◌||◌, Bool-cases, arith,
}
use gtw_jalles_websoket_blue.Esp.{EspErr, invalid_state}
use gtw_jalles_websoket_blue.Ota.State.{Ota, set_state}
use gtw_jalles_websoket_blue.Ota.Ble.{
  Finish, ble_ota_release, firmware_ota_ble_abort, firmware_ota_ble_finish,
}
use gtw_jalles_websoket_blue.Bluetooth.State.{Ble, has_client, set_status}
use gtw_jalles_websoket_blue.Bluetooth.Message.{bt_client_disconnected_callback}
use gtw_jalles_websoket_blue.Bluetooth.Window.{
  deinit_within, bluetooth_config_stop, bluetooth_config_is_active,
}

-- No update is in progress, and the choice of the partition is as it was.
abbrev IsIdleAfter : Ota → Ota → Type 0
IsIdleAfter o p = (p.ble.active ≡ false) × (p.boot_chosen ≡ o.boot_chosen)

abort-IsIdleAfter : (stored : EspErr) (o : Ota) → IsIdleAfter o (firmware_ota_ble_abort stored o)
unfolding firmware_ota_ble_abort ble_ota_release set_state
abort-IsIdleAfter stored o = ground arith

finish_without_update :
    (f : Finish) (o : Ota) → o.ble.active ≡ false → (firmware_ota_ble_finish f o).1 ≡ invalid_state
unfolding firmware_ota_ble_finish
finish_without_update f o idle = simp idle refl

-- If the window is open or the stack runs, then after `bluetooth_config_stop` the window is closed, no
-- client is connected or notified, the program has left the configuration mode, and Bluetooth is active
-- only if the stack ran and could not be given back in ten attempts; an update in progress is given up,
-- so that `firmware_ota_ble_finish` fails, and the partition to boot is the same as before.
pub bluetooth_config_stop_lem :
    (answers : ℕ → Bool) (stored : EspErr) (f : Finish) (b : Ble)
    → (b.window_open || b.stack_started) ≡ true
    → ((bluetooth_config_stop answers stored b).window_open ≡ false)
      × (has_client (bluetooth_config_stop answers stored b).conn ≡ false)
      × ((bluetooth_config_stop answers stored b).notify_enabled ≡ false)
      × ((bluetooth_config_stop answers stored b).app.config_mode ≡ false)
      × ((bluetooth_config_stop answers stored b).app.startup_window ≡ false)
      × (bluetooth_config_is_active (bluetooth_config_stop answers stored b)
          ≡ (b.stack_started && not (deinit_within 10 answers)))
      × ((firmware_ota_ble_finish f (bluetooth_config_stop answers stored b).app.ota).1
          ≡ invalid_state)
      × ((bluetooth_config_stop answers stored b).app.ota.boot_chosen ≡ b.app.ota.boot_chosen)
unfolding bluetooth_config_stop bluetooth_config_is_active bt_client_disconnected_callback
    set_status
bluetooth_config_stop_lem answers stored f b on =
    let runs : (not b.window_open && not b.stack_started) ≡ false = ground arith in
    let aborted = abort-IsIdleAfter stored b.app.ota in
    elim (Bool-cases (b.stack_started && deinit_within 10 answers)) [
      | inl back ↦
          simp (runs, back)
            (
              refl,
              refl,
              refl,
              refl,
              refl,
              ground arith,
              finish_without_update f _ (aborted.0),
              aborted.1,
            )
      | inr kept ↦
          simp (runs, kept)
            (
              refl,
              refl,
              refl,
              refl,
              refl,
              ground arith,
              finish_without_update f _ (aborted.0),
              aborted.1,
            )
    ]
