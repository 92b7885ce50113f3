-- ===== src/AppMain.antt =====
-- `app_main` of main/main.c: what it sets up in order, in either build, and with what it ends. The answers
-- of the SDK are arguments; log lines are left out.
pub mod Window
pub mod Ends
mod Tests
use gtw_jalles_websoket_blue.Prelude.{
  ℕ, zero, suc, Bool, true, false, not, ◌&&◌, ◌||◌, Option, none, some, List, [], ◌∷◌, ◌++◌, ℤ, pos,
  negsuc, length, ◌==◌, if◌then◌else◌,
}
use gtw_jalles_websoket_blue.Esp.{EspErr, is_ok}
use gtw_jalles_websoket_blue.Config.{Globals, Store, Boot, same_int, load_config}
use gtw_jalles_websoket_blue.Ota.State.{Ota}
use gtw_jalles_websoket_blue.Ota.Boot.{FwNvs, FwInfo, FwBoot, firmware_ota_init}
use gtw_jalles_websoket_blue.Ota.Validation.{Validation, firmware_ota_schedule_validation}
use gtw_jalles_websoket_blue.Lora.Radio.{SetUp, Exchange}
use gtw_jalles_websoket_blue.Gateway.Ack.{Gateway}
use gtw_jalles_websoket_blue.Gateway.Health.{lora_setup_gtw}
use gtw_jalles_websoket_blue.Bluetooth.State.{App, Ble}
use gtw_jalles_websoket_blue.Bluetooth.Window.{
  Opening, bluetooth_config_start, bluetooth_config_stop,
}

-- The build: GTW_ROLE_TX_ONLY or GTW_ROLE_RX_ONLY, never both.
pub data Role : Type 0 where
  tx_only rx_only : Role

-- The queues and mutexes that `app_main` makes.
pub data Control : Type 0 where
  patch_free_queue patch_queue ws_msg_queue : Control
  mutex_http mutex_lora gtw_ack_mutex ws_lifecycle_mutex gtw_request_mutex patch_pool_mutex :
      Control

-- The tasks that `app_main` creates.
pub data Task : Type 0 where
  ble_boot_wait wifi lora_rx lora_health ws_processor memory_monitor : Task

-- The answer of `nvs_flash_init`.
pub data NvsInit : Type 0 where
  nvs_ready nvs_unusable nvs_failed : NvsInit

-- What `app_main` sets up. The configuration and the state of the update stand in `ble`.
pub record Machine : Type 0 where
  pub fw : FwNvs × FwInfo
  pub validation : Validation
  pub ble : Ble
  pub gateway : Gateway
  pub controls : List Control
  pub tasks : List Task

-- The build, and the answers: of NVS to its start, to the erasure and to the second start; of the update;
-- whether the task that confirms the image, and each queue and mutex, could be made; of NVS to the loading;
-- of Bluetooth while there is no configuration, and what happens to it in the 5 seconds of each round; of
-- the radio; of Bluetooth at its window, with whether the task that watches it could be made, and what its
-- end meets; and whether each task could be made.
pub record Launch : Type 0 where
  pub role : Role
  pub nvs_first : NvsInit
  pub nvs_erased : Bool
  pub nvs_second : NvsInit
  pub fw : FwBoot
  pub validation_made : Bool
  pub made : Control → Bool
  pub load : Boot
  pub store : Store
  pub first_window : Opening
  pub during : ℕ → Ble → Ble
  pub random : ℕ
  pub set_up : SetUp
  pub exchanges : ℕ → Exchange
  pub window : Opening
  pub watch_made : Bool
  pub deinits : ℕ → Bool
  pub stored : EspErr
  pub created : Task → Bool

-- How the start ends: with a restart that it asks for, with an abort, still waiting for a
-- configuration, or with the tasks at work.
pub data Outcome : Type 0 where
  restarts aborts waits : Outcome
  runs : Machine → Outcome

unfoldable pub start_nvs : Launch → NvsInit
start_nvs l = go l.nvs_first
  where
    go : NvsInit → NvsInit
    go nvs_unusable = l.nvs_second
    go answer = answer

abbrev pub is_unusable : NvsInit → Bool
is_unusable nvs_unusable = true
is_unusable _ = false

abbrev pub is_ready : NvsInit → Bool
is_ready nvs_ready = true
is_ready _ = false

-- A queue or a mutex, and what follows it.
unfoldable pub make : Launch → Control → (Machine → Outcome) → Machine → Outcome
make l c next m = if l.made c then next (record m { controls = m.controls ++ c ∷ [] }) else restarts

unfoldable pub make_queues : Role → Launch → (Machine → Outcome) → Machine → Outcome
make_queues rx_only l next = make l patch_free_queue (make l patch_queue next)
make_queues tx_only l next = make l ws_msg_queue next

-- Those that the source makes before it looks at any of them.
unfoldable pub make_ack_mutexes : Role → Launch → (Machine → Outcome) → Machine → Outcome
make_ack_mutexes rx_only l next = make l gtw_request_mutex (make l patch_pool_mutex next)
make_ack_mutexes tx_only l next =
    make l gtw_ack_mutex (make l ws_lifecycle_mutex (make l gtw_request_mutex next))

unfoldable pub make_controls : Launch → (Machine → Outcome) → Machine → Outcome
make_controls l next =
    make_queues l.role l (make l mutex_http (make l mutex_lora (make_ack_mutexes l.role l next)))

-- Nothing of the configuration is missing.
unfoldable pub configured : Globals → Bool
configured g = not (
    length g.wifi_ssid == 0
    || length g.wifi_password == 0
    || same_int g.id_gateway (pos 0)
    || same_int g.device_id (pos 0)
    || length g.user_name == 0
    || length g.user_password == 0)

-- The wait for a configuration: Bluetooth is opened in the first round.
unfoldable pub wait_configured : Launch → ℕ → ℕ → Ble → Option Ble
wait_configured l zero k b = none
wait_configured l (suc left) k b =
    let opened = if k == 0 then (bluetooth_config_start 0 l.first_window b).0 else b in
    let rest = wait_configured l left (suc k) (l.during k opened) in
    if configured (b.app.config.0) then some b else rest

unfoldable pub set_startup : Bool → Ble → Ble
set_startup on b = record b { app = record app { startup_window = on } }
  where
    app : App
    app = b.app

-- The window at the start, and the task that watches it.
unfoldable pub open_startup_window : Launch → Ble → Ble × List Task
open_startup_window l b =
    if not (is_ok opened.1)
    then (set_startup false opened.0, [])
    else if not l.watch_made
    then (bluetooth_config_stop l.deinits l.stored (set_startup false opened.0), [])
    else (opened.0, ble_boot_wait ∷ [])
  where
    opened : Ble × EspErr
    opened = bluetooth_config_start 30000 l.window (set_startup true b)

-- A task, and what follows it; if it cannot be made, the gateway restarts.
unfoldable pub create : Launch → Task → (Machine → Outcome) → Machine → Outcome
create l t next m = if l.created t then next (record m { tasks = m.tasks ++ t ∷ [] }) else restarts

unfoldable pub create_ws : Role → Launch → (Machine → Outcome) → Machine → Outcome
create_ws tx_only l next = create l ws_processor next
create_ws rx_only l next = next

unfoldable pub create_tasks : Launch → Machine → Outcome
create_tasks l = create l wifi (
    create l lora_rx
      (create l lora_health (create_ws l.role l (create l memory_monitor (λ m. runs m)))))

-- With a configuration.
unfoldable pub launch_configured : Launch → Machine → Outcome
launch_configured l m = create_tasks l (record m {
  gateway = lora_setup_gtw l.random l.set_up l.exchanges m.gateway;
  ble = opened.0;
  tasks = opened.1;
})
  where
    opened : Ble × List Task
    opened = open_startup_window l m.ble

unfoldable pub with_loaded : Launch → Ble → Ble
with_loaded l b = record b { app = record app { config = load_config l.load l.store } }
  where
    app : App
    app = b.app

unfoldable pub launch_waiting : ℕ → Launch → Machine → Outcome
launch_waiting rounds l m = go (wait_configured l rounds 0 (with_loaded l m.ble))
  where
    go : Option Ble → Outcome
    go none = waits
    go (some b) = launch_configured l (record m { ble = b })

-- From the update on.
unfoldable pub launch_firmware : ℕ → Launch → Machine → Outcome
launch_firmware rounds l m =
    if not (is_ok init.1)
    then aborts
    else make_controls l (launch_waiting rounds l) (record m {
      fw = init.0;
      ble = record ble { app = record app { ota = info.ota } };
      validation =
          (firmware_ota_schedule_validation l.validation_made 30000
            (record validation { ota = info.ota })).0;
      controls = [];
    })
  where
    init : (FwNvs × FwInfo) × EspErr
    init = firmware_ota_init l.fw m.fw.0 m.fw.1

    info : FwInfo
    info = init.0.1

    validation : Validation
    validation = m.validation

    ble : Ble
    ble = m.ble

    app : App
    app = ble.app

-- `rounds` bounds the wait for a configuration.
unfoldable pub app_main : ℕ → Launch → Machine → Outcome
app_main rounds l m =
    if is_unusable l.nvs_first && not l.nvs_erased
    then aborts
    else if not (is_ready (start_nvs l))
    then restarts
    else launch_firmware rounds l m
