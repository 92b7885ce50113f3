-- ===== src/Wifi/Monitor/Steady.antt =====
-- What holds of the variables of `wifi_task` after every round.
use gtw_jalles_websoket_blue.Prelude.{
  ◌+◌, ◌<◌, ◌≡◌, refl, ◌∙◌, ◌⊎◌, inl, inr, Bool, true, false, not, ◌&&◌, ◌||◌, List, [], ◌∷◌, ltb,
  leb, ◌==◌, if◌then◌else◌, Bool-cases, if-elim, arith,
}
use gtw_jalles_websoket_blue.Wifi.Driver.{
  Driver, Connect, wifi_start_driver, wifi_stop_driver, wifi_sta_has_ip, wifi_check_internet,
}
use gtw_jalles_websoket_blue.Wifi.Driver.Balance.{
  IsBalanced, wifi_start_driver-IsBalanced, wifi_stop_driver-IsBalanced,
  wifi_connect_credentials-IsBalanced, wifi_sta_has_ip-IsBalanced,
}
use gtw_jalles_websoket_blue.Wifi.Monitor.{
  Networks, Monitor, Attempt, Round, tentar_conectar_wifi, connect_to, check_cycles, in_window,
  when_inactive, cycle_driver, without_ip, with_internet, without_internet, with_ip, without_ap,
  when_active, wifi_task_round, wifi_task_rounds, begun, wifi_task, off, sem_internet_ms,
}

pub connect_to-IsBalanced :
    (n : Networks) (secondary : Bool) (c : Connect) (d : Driver)
    → IsBalanced d
    → IsBalanced (connect_to n secondary c d)
      × ((connect_to n secondary c d).wifi_started ≡ d.wifi_started)
unfolding connect_to
connect_to-IsBalanced n secondary c d b = elim (Bool-cases (secondary && n.secondary)) [
  | inl second ↦
      simp second
        (wifi_connect_credentials-IsBalanced n.v6 n.secondary_ssid n.secondary_password c d b)
  | inr first ↦ simp first (wifi_connect_credentials-IsBalanced n.v6 n.ssid n.password c d b)
]

pub tentar_conectar_wifi-IsBalanced :
    (n : Networks) (secondary : Bool) (a : Attempt) (d : Driver)
    → IsBalanced d
    → IsBalanced (tentar_conectar_wifi n secondary a d)
unfolding tentar_conectar_wifi
tentar_conectar_wifi-IsBalanced n secondary a d b = elim (Bool-cases a.window) [
  | inl window ↦ simp window b
  | inr closed ↦
      let started = wifi_start_driver-IsBalanced a.start d b in
      elim (Bool-cases (wifi_start_driver a.start d).1) [
        | inl ok ↦
            simp (closed, ok)
              ((connect_to-IsBalanced n secondary a.connect (wifi_start_driver a.start d).0
                (started.0)).0)
        | inr bad ↦ simp (closed, bad) (started.0)
      ]
]

-- The calls of the driver agree with it, each count of failures stays below its limit unless the
-- ESP32 was restarted, and the gateway is online only while the driver is started.
pub record IsSteady (m : Monitor) : Type 0 where
  pub balanced : IsBalanced m.driver
  pub wifi_below : m.falhas_wifi < 15
  pub ip_below : m.falhas_ip < 12
  pub cycles_below : (m.restarted ≡ true) ⊎ (m.ciclos_religar < 5)
  pub online_only : (m.connectado && not m.driver.wifi_started) ≡ false

check_cycles-IsSteady :
    (m : Monitor)
    → IsBalanced m.driver
    → m.falhas_wifi < 15
    → m.falhas_ip < 12
    → (m.connectado && not m.driver.wifi_started) ≡ false
    → IsSteady (check_cycles m)
unfolding check_cycles
check_cycles-IsSteady m b w i o =
    if-elim IsSteady (leb 5 m.ciclos_religar)
      (λ over. record {
        balanced = b;
        wifi_below = w;
        ip_below = i;
        cycles_below = inl refl;
        online_only = o;
      })
      (λ under. record {
        balanced = b;
        wifi_below = w;
        ip_below = i;
        cycles_below = inr (ground arith);
        online_only = o;
      })

in_window-IsSteady : (m : Monitor) → IsSteady m → IsSteady (in_window m)
unfolding in_window
in_window-IsSteady m s = record {
  balanced = (wifi_stop_driver-IsBalanced m.driver s.balanced).0;
  wifi_below = s.wifi_below;
  ip_below = s.ip_below;
  cycles_below = s.cycles_below;
  online_only = refl;
}

when_inactive-IsSteady :
    (n : Networks) (r : Round) (m : Monitor)
    → m.driver.wifi_started ≡ false
    → IsSteady m
    → IsSteady (when_inactive n r m)
unfolding when_inactive
when_inactive-IsSteady n r m off s =
    let driver =
      tentar_conectar_wifi-IsBalanced n m.usando_secundario r.attempt m.driver s.balanced in
    let offline : m.connectado ≡ false = elim (Bool-cases m.connectado) [
      | inl on ↦ let o = s.online_only in ground arith
      | inr o ↦ o
    ] in
    if-elim IsSteady (tentar_conectar_wifi n m.usando_secundario r.attempt m.driver).wifi_started
      (λ on. record {
        balanced = driver;
        wifi_below = ground arith;
        ip_below = s.ip_below;
        cycles_below = s.cycles_below;
        online_only = simp offline refl;
      })
      (λ still. check_cycles-IsSteady _ driver s.wifi_below s.ip_below (simp offline refl))

cycled-IsBalanced :
    (n : Networks) (other : Bool) (a : Attempt) (d : Driver)
    → IsBalanced d
    → IsBalanced (tentar_conectar_wifi n other a (wifi_stop_driver d))
cycled-IsBalanced n other a d b =
    tentar_conectar_wifi-IsBalanced n other a (wifi_stop_driver d)
      ((wifi_stop_driver-IsBalanced d b).0)

-- A gateway with a started driver may be online.
online_if : (online started : Bool) → started ≡ true → (online && not started) ≡ false
online_if online started h = ground arith

without_ip-IsSteady :
    (n : Networks) (r : Round) (m : Monitor) → IsSteady m → IsSteady (without_ip n r m)
unfolding without_ip cycle_driver
without_ip-IsSteady n r m s =
    if-elim IsSteady (leb 12 (m.falhas_ip + 1))
      (λ over.
        check_cycles-IsSteady _ (cycled-IsBalanced n _ r.attempt m.driver s.balanced) s.wifi_below
          (ground arith) refl)
      (λ under. record {
        balanced = s.balanced;
        wifi_below = s.wifi_below;
        ip_below = ground arith;
        cycles_below = s.cycles_below;
        online_only = refl;
      })

without_ap-IsSteady :
    (n : Networks) (r : Round) (m : Monitor) → IsSteady m → IsSteady (without_ap n r m)
unfolding without_ap cycle_driver
without_ap-IsSteady n r m s =
    if-elim IsSteady (ltb (m.falhas_wifi + 1) 15)
      (λ under. record {
        balanced =
            tentar_conectar_wifi-IsBalanced n m.usando_secundario r.attempt m.driver s.balanced;
        wifi_below = ground arith;
        ip_below = ground arith;
        cycles_below = s.cycles_below;
        online_only = refl;
      })
      (λ over.
        check_cycles-IsSteady _ (cycled-IsBalanced n _ r.attempt m.driver s.balanced) (ground arith)
          (ground arith) refl)

-- `with_ip` from a started driver: what `check_cycles` needs.
with_ip-IsSteady :
    (n : Networks) (r : Round) (m : Monitor)
    → m.driver.wifi_started ≡ true
    → IsSteady m
    → IsSteady (check_cycles (with_ip n r m))
unfolding with_ip with_internet without_internet cycle_driver
with_ip-IsSteady n r m on s =
    if-elim (λ x. IsSteady (check_cycles x)) (r.websocket || wifi_check_internet r.found r.probes)
      (λ good.
        check_cycles-IsSteady _ s.balanced s.wifi_below (ground arith)
          (online_if r.websocket m.driver.wifi_started on))
      (λ bad.
        if-elim (λ x. IsSteady (check_cycles x))
          (leb 300000 (
            sem_internet_ms
              (if m.inicio_falha_internet_ms == 0 then r.now else m.inicio_falha_internet_ms)
              r.now))
          (λ long.
            check_cycles-IsSteady _ (cycled-IsBalanced n _ r.attempt m.driver s.balanced)
              s.wifi_below (ground arith) refl)
          (λ short. check_cycles-IsSteady _ s.balanced s.wifi_below (ground arith) refl))

when_active-IsSteady :
    (n : Networks) (r : Round) (m : Monitor)
    → m.driver.wifi_started ≡ true
    → IsSteady m
    → IsSteady (when_active n r m)
unfolding when_active
when_active-IsSteady n r m on s =
    let kept = wifi_sta_has_ip-IsBalanced n.v6 r.addresses m.driver s.balanced in
    let linked : IsSteady
        (record m { driver = (wifi_sta_has_ip n.v6 r.addresses m.driver).0; falhas_wifi = 0 }) =
      record {
        balanced = kept.0;
        wifi_below = ground arith;
        ip_below = s.ip_below;
        cycles_below = s.cycles_below;
        online_only = online_if m.connectado _ (kept.1 ∙ on);
      } in
    if-elim IsSteady (not r.associated) (λ alone. without_ap-IsSteady n r m s)
      (λ associated.
        if-elim IsSteady (wifi_sta_has_ip n.v6 r.addresses m.driver).1
          (λ ip. with_ip-IsSteady n r _ (kept.1 ∙ on) linked)
          (λ none. without_ip-IsSteady n r _ linked))

pub wifi_task_round-IsSteady :
    (n : Networks) (r : Round) (m : Monitor) → IsSteady m → IsSteady (wifi_task_round n r m)
unfolding wifi_task_round
wifi_task_round-IsSteady n r m s =
    if-elim IsSteady m.restarted (λ over. s)
      (λ runs.
        if-elim IsSteady r.window (λ window. in_window-IsSteady m s)
          (λ closed.
            if-elim IsSteady m.driver.wifi_started (λ on. when_active-IsSteady n r m on s)
              (λ off. when_inactive-IsSteady n r m off s)))

wifi_task_rounds-IsSteady :
    (n : Networks) (rounds : List Round) (m : Monitor)
    → IsSteady m
    → IsSteady (wifi_task_rounds n rounds m)
unfolding wifi_task_rounds
wifi_task_rounds-IsSteady n [] m s = s
wifi_task_rounds-IsSteady n (r ∷ rounds) m s =
    wifi_task_rounds-IsSteady n rounds (wifi_task_round n r m) (wifi_task_round-IsSteady n r m s)

-- After any number of rounds of `wifi_task`, whatever the SDK answers: the driver is initialised exactly
-- when it is started, with each event handler registered at most once; fewer than 15 failures to
-- associate and 12 to get an address are counted, and fewer than 5 cycles unless the ESP32 was
-- restarted; and the gateway is online only while the driver is started.
pub wifi_task-IsSteady :
    (n : Networks) (a : Attempt) (rounds : List Round) → IsSteady (wifi_task n a rounds)
unfolding wifi_task begun
wifi_task-IsSteady n a rounds = wifi_task_rounds-IsSteady n rounds _ (record {
  balanced = tentar_conectar_wifi-IsBalanced n false a off (refl, refl, refl, refl);
  wifi_below = ground arith;
  ip_below = ground arith;
  cycles_below = inr (ground arith);
  online_only = refl;
})
