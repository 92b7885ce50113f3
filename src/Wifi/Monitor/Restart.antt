-- ===== src/Wifi/Monitor/Restart.antt =====
-- A network that stays out of reach makes `wifi_task` restart the ESP32.
use gtw_jalles_websoket_blue.Prelude.{
  ℕ, ◌+◌, ◌*◌, ◌≤◌, ◌<◌, ◌≡◌, refl, sym, ◌∙◌, subst, ◌⊎◌, inl, inr, Bool, true, false, List, [],
  ◌∷◌, ◌++◌, length, All, ltb, leb, if◌then◌else◌, Bool-cases, if-elim, arith,
}
use gtw_jalles_websoket_blue.Wifi.Driver.{Driver, wifi_start_driver}
use gtw_jalles_websoket_blue.Wifi.Monitor.{
  Networks, Monitor, Attempt, Round, tentar_conectar_wifi, check_cycles, when_inactive,
  cycle_driver, without_ap, wifi_task_round, wifi_task_rounds, begun, wifi_task,
}
use gtw_jalles_websoket_blue.Wifi.Driver.Balance.{IsBalanced}
use gtw_jalles_websoket_blue.Wifi.Monitor.Steady.{
  IsSteady, connect_to-IsBalanced, wifi_task_round-IsSteady, wifi_task-IsSteady,
}
use gtw_jalles_websoket_blue.Wifi.Monitor.Online.{inactive_round, active_round, alone_round}

abbrev HasStarted : Driver → Type 0
HasStarted d = d.wifi_started ≡ true

-- An attempt to connect does not stop the driver.
tentar_conectar_wifi_keeps :
    (n : Networks) (secondary : Bool) (a : Attempt) (d : Driver)
    → IsBalanced d
    → d.wifi_started ≡ true
    → (tentar_conectar_wifi n secondary a d).wifi_started ≡ true
unfolding tentar_conectar_wifi wifi_start_driver
tentar_conectar_wifi_keeps n secondary a d b on =
    if-elim HasStarted a.window (λ window. on)
      (λ closed. simp on ((connect_to-IsBalanced n secondary a.connect d b).1 ∙ on))

-- A round that finds no Bluetooth window and no access point.
abbrev pub IsLost : Round → Type 0
IsLost r = (r.window ≡ false) × (r.associated ≡ false)

-- How far the task has come: seventeen for each cycle, one for each failure to associate in it.
abbrev weight : Monitor → ℕ
weight m = 17 * m.ciclos_religar + (if m.driver.wifi_started then m.falhas_wifi + 1 else 0)

-- The ESP32 was restarted, or the task came further than `w`.
abbrev IsPast : ℕ → Monitor → Type 0
IsPast w m = (m.restarted ≡ true) ⊎ (w < weight m)

check_cycles-IsPast : (w : ℕ) (m : Monitor) → w < 17 * m.ciclos_religar → IsPast w (check_cycles m)
unfolding check_cycles
check_cycles-IsPast w m h =
    if-elim (IsPast w) (leb 5 m.ciclos_religar) (λ over. inl refl) (λ under. inr (ground arith))

when_inactive-IsPast :
    (n : Networks) (r : Round) (m : Monitor)
    → m.driver.wifi_started ≡ false
    → IsPast (17 * m.ciclos_religar) (when_inactive n r m)
unfolding when_inactive
when_inactive-IsPast n r m off =
    if-elim (IsPast (17 * m.ciclos_religar))
      (tentar_conectar_wifi n m.usando_secundario r.attempt m.driver).wifi_started
      (λ on. inr (simp on (omega arith))) (λ still. check_cycles-IsPast _ _ (omega arith))

without_ap-IsPast :
    (n : Networks) (r : Round) (m : Monitor)
    → IsSteady m
    → m.driver.wifi_started ≡ true
    → IsPast (17 * m.ciclos_religar + m.falhas_wifi + 1) (without_ap n r m)
unfolding without_ap cycle_driver
without_ap-IsPast n r m s on =
    if-elim (IsPast (17 * m.ciclos_religar + m.falhas_wifi + 1)) (ltb (m.falhas_wifi + 1) 15)
      (λ under.
        let still =
          tentar_conectar_wifi_keeps n m.usando_secundario r.attempt m.driver s.balanced on in
        inr (simp still (omega arith)))
      (λ over. let below = s.wifi_below in check_cycles-IsPast _ _ (omega arith))

lost_round-IsPast :
    (n : Networks) (r : Round) (m : Monitor)
    → IsSteady m
    → m.restarted ≡ false
    → IsLost r
    → IsPast (weight m) (wifi_task_round n r m)
lost_round-IsPast n r m s runs lost = elim (Bool-cases m.driver.wifi_started) [
  | inr off ↦
      let past = when_inactive-IsPast n r m off in
      subst (IsPast (weight m)) (sym (inactive_round n r m runs (lost.0) off))
        (simp off (elim past [ inl over ↦ inl over | inr further ↦ inr (omega arith) ]))
  | inl on ↦
      let past = without_ap-IsPast n r m s on in
      subst (IsPast (weight m))
        (sym (active_round n r m runs (lost.0) on ∙ alone_round n r m (lost.1)))
        (simp on (elim past [ inl over ↦ inl over | inr further ↦ inr (omega arith) ]))
]

restarted_round :
    (n : Networks) (r : Round) (m : Monitor)
    → m.restarted ≡ true
    → (wifi_task_round n r m).restarted ≡ true
unfolding wifi_task_round
restarted_round n r m h = simp h refl

restarted_stays :
    (n : Networks) (rounds : List Round) (m : Monitor)
    → m.restarted ≡ true
    → (wifi_task_rounds n rounds m).restarted ≡ true
unfolding wifi_task_rounds
restarted_stays n [] m h = h
restarted_stays n (r ∷ rounds) m h = restarted_stays n rounds _ (restarted_round n r m h)

lost_rounds-IsPast :
    (n : Networks) (rounds : List Round) (m : Monitor)
    → IsSteady m
    → All IsLost rounds
    → ((wifi_task_rounds n rounds m).restarted ≡ true) ⊎ (length rounds + weight m ≤ 83)
unfolding wifi_task_rounds
lost_rounds-IsPast n [] m s lost = elim s.cycles_below [
  | inl over ↦ inl over
  | inr under ↦ let w = s.wifi_below in inr (ground arith)
]
lost_rounds-IsPast n (r ∷ rounds) m s lost =
    elim (lost_rounds-IsPast n rounds (wifi_task_round n r m) (wifi_task_round-IsSteady n r m s)
      (lost.1)) [
        | inl over ↦ inl over
        | inr rest ↦ elim (Bool-cases m.restarted) [
          | inl over ↦ inl (restarted_stays n rounds _ (restarted_round n r m over))
          | inr runs ↦ elim (lost_round-IsPast n r m s runs (lost.0)) [
            | inl over ↦ inl (restarted_stays n rounds _ over)
            | inr past ↦ inr (omega arith)
          ]
        ]
      ]

rounds-append :
    (n : Networks) (xs ys : List Round) (m : Monitor)
    → wifi_task_rounds n (xs ++ ys) m ≡ wifi_task_rounds n ys (wifi_task_rounds n xs m)
unfolding wifi_task_rounds
rounds-append n [] ys m = refl
rounds-append n (r ∷ xs) ys m = rounds-append n xs ys (wifi_task_round n r m)

-- Whatever happened before, 84 rounds in a row that find no Bluetooth window and no access point make
-- the task restart the ESP32, if it did not do so before.
pub wifi_task_restarts :
    (n : Networks) (a : Attempt) (before lost : List Round)
    → All IsLost lost
    → 84 ≤ length lost
    → (wifi_task n a (before ++ lost)).restarted ≡ true
unfolding wifi_task
wifi_task_restarts n a before lost all_lost long =
    rw (rounds-append n before lost (begun n a))
      (elim (lost_rounds-IsPast n lost (wifi_task n a before) (wifi_task-IsSteady n a before)
        all_lost) [ inl over ↦ over | inr short ↦ absurd (ground arith) ])
