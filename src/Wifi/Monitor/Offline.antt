-- ===== src/Wifi/Monitor/Offline.antt =====
-- The build that receives from the radio has no WebSocket.
use gtw_jalles_websoket_blue.Prelude.{
  ◌≡◌, refl, inl, inr, false, List, [], ◌∷◌, All, Bool-cases, arith,
}
use gtw_jalles_websoket_blue.Wifi.Monitor.{
  Networks, Monitor, Attempt, Round, wifi_task_round, wifi_task_rounds, begun, wifi_task,
}
use gtw_jalles_websoket_blue.Wifi.Monitor.Steady.{
  IsSteady, wifi_task_round-IsSteady, wifi_task-IsSteady,
}
use gtw_jalles_websoket_blue.Wifi.Monitor.Online.{wifi_task_round-online}

-- A round of that build, in which `websocket_conectado` keeps its first value.
abbrev pub HasNoSocket : Round → Type 0
HasNoSocket r = r.websocket ≡ false

offline_round :
    (n : Networks) (r : Round) (m : Monitor)
    → IsSteady m
    → m.connectado ≡ false
    → HasNoSocket r
    → (wifi_task_round n r m).connectado ≡ false
unfolding wifi_task_round
offline_round n r m s offline none = elim (Bool-cases m.restarted) [
  | inl over ↦ simp over offline
  | inr runs ↦ elim (Bool-cases (wifi_task_round n r m).connectado) [
    | inr off ↦ off
    | inl on ↦
        let socket = (wifi_task_round-online n r m s runs).0 on in
        absurd (let connected = socket.4 in ground arith)
  ]
]

offline_rounds :
    (n : Networks) (rounds : List Round) (m : Monitor)
    → IsSteady m
    → m.connectado ≡ false
    → All HasNoSocket rounds
    → (wifi_task_rounds n rounds m).connectado ≡ false
unfolding wifi_task_rounds
offline_rounds n [] m s offline all = offline
offline_rounds n (r ∷ rounds) m s offline all =
    offline_rounds n rounds (wifi_task_round n r m) (wifi_task_round-IsSteady n r m s)
      (offline_round n r m s offline (all.0)) (all.1)

-- Without a WebSocket, the gateway is never online for `wifi_task`.
pub wifi_task_offline :
    (n : Networks) (a : Attempt) (rounds : List Round)
    → All HasNoSocket rounds
    → (wifi_task n a rounds).connectado ≡ false
unfolding wifi_task wifi_task_rounds begun
wifi_task_offline n a rounds all =
    offline_rounds n rounds (begun n a) (wifi_task-IsSteady n a []) refl all
