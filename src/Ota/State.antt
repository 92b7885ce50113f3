-- ===== src/Ota/State.antt =====
-- The static variables of main/firmware_ota.c, and what an update does outside of them: the bytes in
-- the update partition and the choice of the partition to boot. NVS answers are arguments.
use gtw_jalles_websoket_blue.Prelude.{ℕ, Bool, false, List, if◌then◌else◌}
use gtw_jalles_websoket_blue.Esp.{EspErr, is_ok}

-- The texts that `set_state` stores.
pub data Phase : Type 0 where
  fresh pending valid invalid aborted active no_ota download ready failed : Phase

-- `ble_ota_session_t`; `last_log_percent` only decides what is logged and is left out. `handle` says
-- that the handle is not 0.
pub record Session : Type 0 where
  pub handle : Bool
  pub expected_size : ℕ
  pub received_size : ℕ
  pub active : Bool

-- `s_info`, `s_initialized`, `s_update_mutex` (`busy`: it is taken) and `s_ble_ota`; `flash` is what
-- was written to the update partition since the update began, and `boot_chosen` whether that
-- partition was chosen to boot.
pub record Ota : Type 0 where
  pub initialized : Bool
  pub ota_capable : Bool
  pub current : List ℕ
  pub target : List ℕ
  pub state : Phase
  pub busy : Bool
  pub ble : Session
  pub flash : List ℕ
  pub boot_chosen : Bool

-- The state in memory follows the one in NVS only when that was stored.
unfoldable pub set_state : EspErr → Phase → Ota → Ota
set_state stored phase o = if is_ok stored then record o { state = phase } else o

abbrev pub no_session : Session
no_session = record { handle = false; expected_size = 0; received_size = 0; active = false }
