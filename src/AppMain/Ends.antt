-- ===== src/AppMain/Ends.antt =====
-- How `app_main` ends, and what a start that succeeds leaves.
use gtw_jalles_websoket_blue.Prelude.{
  ℕ, refl, ◌∙◌, zero, suc, ◌≡◌, sym, ap, subst, Bool, true, false, not, ◌&&◌, some, List, [], ◌∷◌,
  ◌++◌, append_assoc, inl, inr, ◌⊎◌, Bool-cases, Option-cases, if-elim, All,
}
use gtw_jalles_websoket_blue.Esp.{is_ok}
use gtw_jalles_websoket_blue.Config.{Globals, Store}
use gtw_jalles_websoket_blue.Bluetooth.State.{Ble}
use gtw_jalles_websoket_blue.Ota.Boot.{firmware_ota_init}
use gtw_jalles_websoket_blue.Gateway.Health.{lora_setup_gtw}
use gtw_jalles_websoket_blue.AppMain.{
  Role, tx_only, rx_only, Control, patch_free_queue, patch_queue, ws_msg_queue, mutex_http,
  mutex_lora, gtw_ack_mutex, ws_lifecycle_mutex, gtw_request_mutex, patch_pool_mutex, Task,
  ble_boot_wait, wifi, lora_rx, lora_health, ws_processor, memory_monitor, Machine, Launch, Outcome,
  restarts, aborts, waits, runs, make, make_queues, make_ack_mutexes, make_controls, configured,
  wait_configured, with_loaded, create, create_ws, create_tasks, open_startup_window,
  launch_configured, launch_waiting, launch_firmware, app_main, start_nvs, is_ready, is_unusable,
}
use gtw_jalles_websoket_blue.AppMain.Window.{IsWatched, open_startup_window-IsWatched}

-- The tasks of a build, in order, behind the one that watches the window.
abbrev pub role_tasks : Role → List Task
role_tasks tx_only = wifi ∷ lora_rx ∷ lora_health ∷ ws_processor ∷ memory_monitor ∷ []
role_tasks rx_only = wifi ∷ lora_rx ∷ lora_health ∷ memory_monitor ∷ []

-- The queues and mutexes of a build, in order.
abbrev pub role_controls : Role → List Control
role_controls tx_only =
    ws_msg_queue ∷ mutex_http ∷ mutex_lora ∷ gtw_ack_mutex ∷ ws_lifecycle_mutex ∷ gtw_request_mutex
    ∷ []
role_controls rx_only =
    patch_free_queue ∷ patch_queue ∷ mutex_http ∷ mutex_lora ∷ gtw_request_mutex ∷ patch_pool_mutex
    ∷ []

abbrev pub IsCreated : (Task → Bool) → Task → Type 0
IsCreated created t = created t ≡ true

abbrev pub IsMade : (Control → Bool) → Control → Type 0
IsMade made c = made c ≡ true

-- The queues and mutexes are there.
pub record HasControls (l : Launch) (m : Machine) : Type 0 where
  pub all : All (IsMade l.made) (role_controls l.role)
  pub controls : m.controls ≡ role_controls l.role

-- A gateway at work: it has a configuration, and the queues, the mutexes and the tasks of its build; and
-- the window at the start is not waited for, or it is open and its task exists.
pub record IsUp (l : Launch) (u : Machine) : Type 0 where
  pub complete : configured (u.ble.app.config.0) ≡ true
  pub controlled : HasControls l u
  pub created : All (IsCreated l.created) (role_tasks l.role)
  pub tasks : (u.tasks ≡ role_tasks l.role) ⊎ (u.tasks ≡ ble_boot_wait ∷ role_tasks l.role)
  pub watched :
      (u.ble.app.startup_window ≡ false)
      ⊎ ((u.ble.window_open ≡ true) × (u.tasks ≡ ble_boot_wait ∷ role_tasks l.role))

-- How a start ends.
pub data Ends (l : Launch) : Outcome → Type 0 where
  restarting : Ends l restarts
  aborting : Ends l aborts
  waiting : Ends l waits
  running : (u : Machine) → IsUp l u → Ends l (runs u)

make-Ends :
    (l : Launch) (c : Control) (next : Machine → Outcome) (m : Machine)
    → (l.made c ≡ true → Ends l (next (record m { controls = m.controls ++ c ∷ [] })))
    → Ends l (make l c next m)
unfolding make
make-Ends l c next m after = if-elim (Ends l) (l.made c) after (λ failed. restarting)

create-Ends :
    (l : Launch) (t : Task) (next : Machine → Outcome) (m : Machine)
    → (l.created t ≡ true → Ends l (next (record m { tasks = m.tasks ++ t ∷ [] })))
    → Ends l (create l t next m)
unfolding create
create-Ends l t next m after = if-elim (Ends l) (l.created t) after (λ failed. restarting)

make_controls-Ends :
    (l : Launch) (next : Machine → Outcome) (m : Machine)
    → m.controls ≡ []
    → ((x : Machine) → HasControls l x → Ends l (next x))
    → Ends l (make_controls l next m)
unfolding make_controls make_queues make_ack_mutexes
make_controls-Ends l next m none_yet after = by_role l.role refl
  where
    by_role :
        (role : Role)
        → l.role ≡ role
        → Ends l (
            make_queues role l
              (make l mutex_http (make l mutex_lora (make_ack_mutexes role l next)))
              m)
    by_role tx_only e = make-Ends l _ _ m λ a. make-Ends l _ _ _ λ b. make-Ends l _ _ _ λ c.
        make-Ends l _ _ _ λ d. make-Ends l _ _ _ λ f. make-Ends l _ _ _ λ g.
          after _ (record {
            all = rw e (a, (b, (c, (d, (f, (g, _))))));
            controls = rw (e, none_yet) refl;
          })
    by_role rx_only e = make-Ends l _ _ m λ a. make-Ends l _ _ _ λ b. make-Ends l _ _ _ λ c.
        make-Ends l _ _ _ λ d. make-Ends l _ _ _ λ f. make-Ends l _ _ _ λ g.
          after _ (record {
            all = rw e (a, (b, (c, (d, (f, (g, _))))));
            controls = rw (e, none_yet) refl;
          })

-- Behind the tasks that there are.
create_tasks-Ends :
    (l : Launch) (m : Machine)
    → ((ts : List Task)
        → ts ≡ m.tasks ++ role_tasks l.role
        → All (IsCreated l.created) (role_tasks l.role)
        → Ends l (runs (record m { tasks = ts })))
    → Ends l (create_tasks l m)
unfolding create_tasks create_ws
create_tasks-Ends l m after = by_role l.role refl
  where
    by_role :
        (role : Role)
        → l.role ≡ role
        → Ends l (
            create l wifi
              (create l lora_rx
                (create l lora_health (create_ws role l (create l memory_monitor (λ u. runs u)))))
              m)
    by_role tx_only e = create-Ends l _ _ m λ a. create-Ends l _ _ _ λ b. create-Ends l _ _ _ λ c.
        create-Ends l _ _ _ λ d.
          create-Ends l _ _ _
            λ f. after _ (rw e (simp (append_assoc m.tasks) refl)) (rw e (a, (b, (c, (d, (f, _))))))
    by_role rx_only e = create-Ends l _ _ m λ a. create-Ends l _ _ _ λ b. create-Ends l _ _ _ λ c.
        create-Ends l _ _ _
          λ d. after _ (rw e (simp (append_assoc m.tasks) refl)) (rw e (a, (b, (c, (d, _)))))

wait_configured_lem :
    (l : Launch) (left k : ℕ) (b u : Ble)
    → wait_configured l left k b ≡ some u
    → configured (u.app.config.0) ≡ true
unfolding wait_configured
wait_configured_lem l zero k b u h = cc
wait_configured_lem l (suc left) k b u h = elim (Bool-cases (configured (b.app.config.0))) [
  | inl complete ↦
      let same : b ≡ u = some_same (simp complete at h) in
      subst (λ (x : Ble). configured (x.app.config.0) ≡ true) same complete
  | inr lacking ↦ wait_configured_lem l left (suc k) _ u (simp lacking at h)
]
  where
    some_same : {x y : Ble} → some x ≡ some y → x ≡ y
    some_same e = cc

launch_configured-Ends :
    (l : Launch) (m : Machine)
    → configured (m.ble.app.config.0) ≡ true
    → HasControls l m
    → Ends l (launch_configured l m)
unfolding launch_configured
launch_configured-Ends l m complete held =
    let w = open_startup_window-IsWatched l m.ble in
    create_tasks-Ends l _ (λ ts e all. running _ (up ts e all w))
  where
    opened : Ble × List Task
    opened = open_startup_window l m.ble

    prefixed :
        (before : List Task)
        → (before ≡ []) ⊎ (before ≡ ble_boot_wait ∷ [])
        → (before ++ role_tasks l.role ≡ role_tasks l.role)
          ⊎ (before ++ role_tasks l.role ≡ ble_boot_wait ∷ role_tasks l.role)
    prefixed before (inl e) = inl (ap (λ (x : List Task). x ++ role_tasks l.role) e)
    prefixed before (inr e) = inr (ap (λ (x : List Task). x ++ role_tasks l.role) e)

    up :
        (ts : List Task)
        → ts ≡ opened.1 ++ role_tasks l.role
        → All (IsCreated l.created) (role_tasks l.role)
        → IsWatched m.ble opened
        → IsUp l (record m {
          gateway = lora_setup_gtw l.random l.set_up l.exchanges m.gateway;
          ble = opened.0;
          tasks = ts;
        })
    up ts e all w = record {
      complete = subst (λ (c : Globals × Store). configured (c.0) ≡ true) (sym w.config) complete;
      controlled = record { all = held.all; controls = held.controls };
      created = all;
      tasks =
          rw e
            (elim w.watch [ inl x ↦ prefixed opened.1 x.1 | inr x ↦ prefixed opened.1 (inr x.1) ]);
      watched = elim w.watch [
        | inl x ↦ inl x.0
        | inr x ↦ inr (x.0, e ∙ ap (λ (ks : List Task). ks ++ role_tasks l.role) x.1)
      ];
    }

launch_waiting-Ends :
    (rounds : ℕ) (l : Launch) (m : Machine) → HasControls l m → Ends l (launch_waiting rounds l m)
unfolding launch_waiting
launch_waiting-Ends rounds l m held =
    elim (Option-cases (wait_configured l rounds 0 (with_loaded l m.ble))) [
      | inl never ↦ rw never waiting
      | inr (b, e) ↦ rw e (
          launch_configured-Ends l _ (wait_configured_lem l rounds 0 _ b e)
            (record { all = held.all; controls = held.controls }))
    ]

launch_firmware-Ends : (rounds : ℕ) (l : Launch) (m : Machine) → Ends l (launch_firmware rounds l m)
unfolding launch_firmware
launch_firmware-Ends rounds l m =
    if-elim (Ends l) (not (is_ok (firmware_ota_init l.fw m.fw.0 m.fw.1).1)) (λ bad. aborting)
      (λ good. make_controls-Ends l _ _ refl (λ x held. launch_waiting-Ends rounds l x held))

-- `app_main` ends with a restart, with an abort, or still waiting for a configuration, unless everything
-- was set up: then there is a complete configuration; the queues and mutexes of the build were all made,
-- in order, and so were its tasks (wifi, lora_rx, lora_health, ws_processor in the build with a WebSocket,
-- memory_monitor), behind the one that watches the window if that exists; and either nothing waits for the
-- window at the start, or the window is open and its task exists.
pub app_main-Ends : (rounds : ℕ) (l : Launch) (m : Machine) → Ends l (app_main rounds l m)
unfolding app_main
app_main-Ends rounds l m =
    if-elim (Ends l) (is_unusable l.nvs_first && not l.nvs_erased) (λ lost. aborting)
      (λ there.
        if-elim (Ends l) (not (is_ready (start_nvs l))) (λ failed. restarting)
          (λ ready. launch_firmware-Ends rounds l m))
