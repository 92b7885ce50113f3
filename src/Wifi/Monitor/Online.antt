-- ===== src/Wifi/Monitor/Online.antt =====
-- When the gateway is online.
use gtw_jalles_websoket_blue.Prelude.{
  ◌≡◌, refl, ◌↔◌, inl, inr, Bool, true, false, ◌&&◌, ◌∙◌, leb, ltb, ◌+◌, ◌==◌, if◌then◌else◌,
  Bool-cases, if-elim, arith,
}
use gtw_jalles_websoket_blue.Wifi.Driver.{wifi_sta_has_ip, wifi_check_internet}
use gtw_jalles_websoket_blue.Wifi.Monitor.{
  Networks, Monitor, Round, tentar_conectar_wifi, check_cycles, in_window, when_inactive,
  cycle_driver, without_ip, with_internet, without_internet, with_ip, without_ap, when_active,
  wifi_task_round, sem_internet_ms,
}
use gtw_jalles_websoket_blue.Wifi.Monitor.Steady.{IsSteady}

-- The gateway is online, or not.
abbrev HasConnectado : Bool → Monitor → Type 0
HasConnectado b m = m.connectado ≡ b

check_cycles_keeps : (m : Monitor) → (check_cycles m).connectado ≡ m.connectado
unfolding check_cycles
check_cycles_keeps m =
    if-elim (HasConnectado m.connectado) (leb 5 m.ciclos_religar) (λ over. refl) (λ under. refl)

with_ip_online : (n : Networks) (r : Round) (m : Monitor) → (with_ip n r m).connectado ≡ r.websocket
unfolding with_ip with_internet without_internet cycle_driver
with_ip_online n r m = elim (Bool-cases r.websocket) [
  | inl on ↦ simp on refl
  | inr off ↦ elim (Bool-cases (wifi_check_internet r.found r.probes)) [
    | inl good ↦ simp (off, good) refl
    | inr bad ↦ simp bad (
        simp off (
          if-elim (HasConnectado false)
            (leb 300000 (
              sem_internet_ms
                (if m.inicio_falha_internet_ms == 0 then r.now else m.inicio_falha_internet_ms)
                r.now))
            (λ long. refl) (λ short. refl)))
  ]
]

without_ip_offline :
    (n : Networks) (r : Round) (m : Monitor) → (without_ip n r m).connectado ≡ false
unfolding without_ip cycle_driver
without_ip_offline n r m =
    if-elim (HasConnectado false) (leb 12 (m.falhas_ip + 1)) (λ over. check_cycles_keeps _)
      (λ under. refl)

without_ap_offline :
    (n : Networks) (r : Round) (m : Monitor) → (without_ap n r m).connectado ≡ false
unfolding without_ap cycle_driver
without_ap_offline n r m =
    if-elim (HasConnectado false) (ltb (m.falhas_wifi + 1) 15) (λ under. refl)
      (λ over. check_cycles_keeps _)

when_inactive_keeps :
    (n : Networks) (r : Round) (m : Monitor) → (when_inactive n r m).connectado ≡ m.connectado
unfolding when_inactive
when_inactive_keeps n r m =
    if-elim (HasConnectado m.connectado)
      (tentar_conectar_wifi n m.usando_secundario r.attempt m.driver).wifi_started (λ on. refl)
      (λ still. check_cycles_keeps _)

window_offline :
    (n : Networks) (r : Round) (m : Monitor)
    → m.restarted ≡ false
    → r.window ≡ true
    → (wifi_task_round n r m).connectado ≡ false
unfolding wifi_task_round in_window
window_offline n r m runs window = simp (runs, window) refl

-- Which part of the task a round runs.
pub inactive_round :
    (n : Networks) (r : Round) (m : Monitor)
    → m.restarted ≡ false
    → r.window ≡ false
    → m.driver.wifi_started ≡ false
    → wifi_task_round n r m ≡ when_inactive n r m
unfolding wifi_task_round
inactive_round n r m runs closed off = simp (runs, closed, off) refl

pub active_round :
    (n : Networks) (r : Round) (m : Monitor)
    → m.restarted ≡ false
    → r.window ≡ false
    → m.driver.wifi_started ≡ true
    → wifi_task_round n r m ≡ when_active n r m
unfolding wifi_task_round
active_round n r m runs closed on = simp (runs, closed, on) refl

pub alone_round :
    (n : Networks) (r : Round) (m : Monitor)
    → r.associated ≡ false
    → when_active n r m ≡ without_ap n r m
unfolding when_active
alone_round n r m alone = simp alone refl

-- An associated station is online exactly when it has an address and the WebSocket.
associated_online :
    (n : Networks) (r : Round) (m : Monitor)
    → r.associated ≡ true
    → (when_active n r m).connectado
      ≡ ((wifi_sta_has_ip n.v6 r.addresses m.driver).1 && r.websocket)
unfolding when_active
associated_online n r m ap = elim (Bool-cases (wifi_sta_has_ip n.v6 r.addresses m.driver).1) [
  | inr none ↦ simp (ap, none) (without_ip_offline n r _)
  | inl ip ↦ simp (ap, ip) (check_cycles_keeps _ ∙ with_ip_online n r _)
]

-- After a round of the task in a state that meets `IsSteady`, and before the ESP32 is restarted, the
-- gateway is online exactly when no
-- Bluetooth window is open, the driver is started, the station is associated and has an address, and
-- the WebSocket is connected.
pub wifi_task_round-online :
    (n : Networks) (r : Round) (m : Monitor)
    → IsSteady m
    → m.restarted ≡ false
    → ((wifi_task_round n r m).connectado ≡ true) ↔ (
        (r.window ≡ false)
        × (m.driver.wifi_started ≡ true)
        × (r.associated ≡ true)
        × ((wifi_sta_has_ip n.v6 r.addresses m.driver).1 ≡ true)
        × (r.websocket ≡ true))
wifi_task_round-online n r m s runs = elim (Bool-cases r.window) [
  | inl window ↦
      let offline = window_offline n r m runs window in (λ h. cc, λ x. let closed = x.0 in cc)
  | inr closed ↦ elim (Bool-cases m.driver.wifi_started) [
    | inr off ↦
        let round = inactive_round n r m runs closed off in
        let keeps = when_inactive_keeps n r m in let offline = s.online_only in ground arith
    | inl on ↦
        let round = active_round n r m runs closed on in
        elim (Bool-cases r.associated) [
          | inr alone ↦
              let branch = alone_round n r m alone in
              let offline = without_ap_offline n r m in (λ h. cc, λ x. let ap = x.2 in cc)
          | inl ap ↦
              let online = associated_online n r m ap in
              (
                λ h. (closed, on, ap, ground arith, ground arith),
                λ x. let ip = x.3 in let ws = x.4 in ground arith,
              )
        ]
  ]
]
