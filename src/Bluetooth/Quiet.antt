-- ===== src/Bluetooth/Quiet.antt =====
-- What the handling of a message leaves alone: everything but the notifications, the status and the
-- variables of main/main.c.
use gtw_jalles_websoket_blue.Prelude.{
  ℕ, ◌≡◌, refl, ◌∙◌, Bool, not, ◌||◌, Option, none, some, List, [], length, leb, ◌==◌, get_or,
  if-elim, drop, Option-cases, inl, inr,
}
use gtw_jalles_websoket_blue.Esp.{EspErr, is_ok}
use gtw_jalles_websoket_blue.Text.{same_text}
use gtw_jalles_websoket_blue.Ota.State.{Ota}
use gtw_jalles_websoket_blue.Bluetooth.State.{
  Status, idle, invalid_packet, App, Ble, has_client, set_status, notify_status,
  bluetooth_send_message,
}
use gtw_jalles_websoket_blue.Ota.Ble.{firmware_ota_ble_write, firmware_ota_ble_finish}
use gtw_jalles_websoket_blue.Bluetooth.Message.{
  ask_restart, with_ota, packet_offset, bt_binary_received_callback, Snapshot, send_snapshot,
  bt_send_config_snapshot, Json, Answers, update_size, ota_begin_command, ota_finish_command,
  gtw_config_command, same_ids, gtw_wifi_command, user_gtw, password_field, id_user, unidade,
  ssid_field, size_field, get_config, ble_ota_begin, ble_ota_finish, ble_ota_cancel, gtw_config,
  gtw_wifi, reset_name, command_of, run_command, bt_message_received_callback,
}

-- The window without the status, the notifications and the rest of the program.
abbrev pub core : App → Ble → Ble
core a b = record b { last_status = idle; notified = []; app = a }

pub record IsQuiet (a : App) (b x : Ble) : Type 0 where
  pub same : core a x ≡ core a b

quiet : {a : App} {b x : Ble} → core a x ≡ core a b → IsQuiet a b x
quiet e = record { same = e }

after : {a : App} {b x y : Ble} → IsQuiet a x y → IsQuiet a b x → IsQuiet a b y
after q p = record { same = q.same ∙ p.same }

pub notify_status-core : (a : App) (sent : Bool) (b : Ble) → IsQuiet a b (notify_status sent b)
unfolding notify_status
notify_status-core a sent b =
    if-elim (IsQuiet a b) (not b.window_open || not (has_client b.conn) || not b.notify_enabled)
      (λ silent. quiet refl)
      (λ heard. if-elim (IsQuiet a b) sent (λ s. quiet refl) (λ s. quiet refl))

pub send-core :
    (a : App) (sent : Bool) (s : Status) (b : Ble) → IsQuiet a b (bluetooth_send_message sent s b)
unfolding bluetooth_send_message set_status
send-core a sent s b = after (notify_status-core a sent (record b { last_status = s })) (quiet refl)

with_ota-core : (a : App) (o : Ota) (b : Ble) → IsQuiet a b (with_ota o b)
unfolding with_ota
with_ota-core a o b = quiet refl

ask_restart-core : (a : App) (b : Ble) → IsQuiet a b (ask_restart b)
unfolding ask_restart
ask_restart-core a b = quiet refl

pub bt_binary_received_callback-core :
    (a : App) (sent : Bool) (wrote stored : EspErr) (packet : List ℕ) (b : Ble)
    → IsQuiet a b (bt_binary_received_callback sent wrote stored packet b)
unfolding bt_binary_received_callback
bt_binary_received_callback-core a sent wrote stored packet b =
    if-elim (IsQuiet a b) (leb (length packet) 5 || not (get_or packet 0 0 == 161))
      (λ bad. send-core a sent invalid_packet b)
      (λ good.
        if-elim (IsQuiet a b)
          (is_ok
            ((firmware_ota_ble_write (packet_offset packet) (drop 5 packet) wrote stored
                b.app.ota).1
              ).0)
          (λ ok. with_ota-core a _ b)
          (λ failed. after (send-core a sent _ _) (with_ota-core a _ b)))

snapshot-core :
    (a : App) (s : Snapshot) (text : Status) (b : Ble) → IsQuiet a b (send_snapshot s text b)
unfolding send_snapshot
snapshot-core a s text b = send-core a s.sent _ b

config_snapshot-core :
    (a : App) (d w g : Snapshot) (b : Ble) → IsQuiet a b (bt_send_config_snapshot d w g b)
unfolding bt_send_config_snapshot
config_snapshot-core a d w g b =
    if-elim (IsQuiet a b) (not d.made) (λ none_made. snapshot-core a d _ b)
      (λ one.
        if-elim (IsQuiet a b) (not w.made)
          (λ none_made. after (snapshot-core a w _ _) (snapshot-core a d _ b))
          (λ two.
            after (snapshot-core a g _ _) (after (snapshot-core a w _ _) (snapshot-core a d _ b))))

ota_begin-core :
    (a : App) (n : Answers) (json : Json) (b : Ble) → IsQuiet a b (ota_begin_command n json b)
unfolding ota_begin_command
ota_begin-core a n json b = elim (Option-cases (update_size (json.number size_field))) [
  | inl missing ↦ simp missing (send-core a n.sent _ b)
  | inr (size, found) ↦ simp found (after (send-core a n.sent _ _) (with_ota-core a _ b))
]

ota_finish-core : (a : App) (n : Answers) (b : Ble) → IsQuiet a b (ota_finish_command n b)
unfolding ota_finish_command
ota_finish-core a n b =
    if-elim (IsQuiet a b) (is_ok (firmware_ota_ble_finish n.finishes b.app.ota).1)
      (λ ok.
        if-elim (IsQuiet a b) n.restart_made
          (λ due.
            after (ask_restart-core a _) (after (send-core a n.sent _ _) (with_ota-core a _ b)))
          (λ failed. after (send-core a n.sent _ _) (with_ota-core a _ b)))
      (λ failed. after (send-core a n.sent _ _) (with_ota-core a _ b))

gtw_config-core :
    (a : App) (n : Answers) (json : Json) (b : Ble) → IsQuiet a b (gtw_config_command n json b)
unfolding gtw_config_command
gtw_config-core a n json b = elim (Option-cases (json.text user_gtw)) [
  | inl missing ↦ simp missing (quiet refl)
  | inr (user, e1) ↦ elim (Option-cases (json.text password_field)) [
    | inl missing ↦ simp (e1, missing) (quiet refl)
    | inr (password, e2) ↦ elim (Option-cases (json.number id_user)) [
      | inl missing ↦ simp (e1, e2, missing) (quiet refl)
      | inr (m, e3) ↦ elim (Option-cases (json.number unidade)) [
        | inl missing ↦ simp (e1, e2, e3, missing) (quiet refl)
        | inr (k, e4) ↦ elim (Option-cases (same_ids m k)) [
          | inl differ ↦ simp (e1, e2, e3, e4, differ) (send-core a n.sent _ b)
          | inr (id, same) ↦
              simp (e1, e2, e3, e4, same) (after (send-core a n.sent _ _) (quiet refl))
        ]
      ]
    ]
  ]
]

gtw_wifi-core :
    (a : App) (n : Answers) (json : Json) (b : Ble) → IsQuiet a b (gtw_wifi_command n json b)
unfolding gtw_wifi_command
gtw_wifi-core a n json b = elim (Option-cases (json.text ssid_field)) [
  | inl missing ↦ simp missing (quiet refl)
  | inr (ssid, e1) ↦ elim (Option-cases (json.text password_field)) [
    | inl missing ↦ simp (e1, missing) (quiet refl)
    | inr (password, e2) ↦ simp (e1, e2) (after (quiet refl) (send-core a n.sent _ b))
  ]
]

run_command-core :
    (a : App) (n : Answers) (json : Json) (cmd : List ℕ) (b : Ble)
    → IsQuiet a b (run_command n json cmd b)
unfolding run_command
run_command-core a n json cmd b =
    if-elim (IsQuiet a b) (same_text cmd get_config)
      (λ e. config_snapshot-core a n.device n.wifi n.gateway b)
      (λ e1.
        if-elim (IsQuiet a b) (same_text cmd ble_ota_begin) (λ e. ota_begin-core a n json b)
          (λ e2.
            if-elim (IsQuiet a b) (same_text cmd ble_ota_finish) (λ e. ota_finish-core a n b)
              (λ e3.
                if-elim (IsQuiet a b) (same_text cmd ble_ota_cancel)
                  (λ e. after (send-core a n.sent _ _) (with_ota-core a _ b))
                  (λ e4.
                    if-elim (IsQuiet a b) (same_text cmd gtw_config)
                      (λ e. gtw_config-core a n json b)
                      (λ e5.
                        if-elim (IsQuiet a b) (same_text cmd gtw_wifi)
                          (λ e. gtw_wifi-core a n json b)
                          (λ e6.
                            if-elim (IsQuiet a b) (same_text cmd reset_name)
                              (λ e. after (ask_restart-core a _) (send-core a n.sent _ b))
                              (λ e7. send-core a n.sent _ b)))))))

pub bt_message_received_callback-core :
    (a : App) (n : Answers) (parsed : Option Json) (b : Ble)
    → IsQuiet a b (bt_message_received_callback n parsed b)
unfolding bt_message_received_callback
bt_message_received_callback-core a n none b = send-core a n.sent _ b
bt_message_received_callback-core a n (some json) b =
    elim (Option-cases (command_of json.type_text json.cmd_text)) [
      | inl missing ↦ simp missing (send-core a n.sent _ b)
      | inr (cmd, found) ↦ simp found (run_command-core a n json cmd b)
    ]
