-- ===== src/Esp.antt =====
-- `esp_err_t`: the codes that the program itself returns or tests, and any other code of the SDK.
use gtw_jalles_websoket_blue.Prelude.{ℕ, Bool, true, false}

pub data EspErr : Type 0 where
  esp_ok esp_fail : EspErr
  no_mem invalid_arg invalid_state invalid_size : EspErr
  timeout invalid_response invalid_version : EspErr
  other : ℕ → EspErr

abbrev pub is_ok : EspErr → Bool
is_ok esp_ok = true
is_ok _ = false

abbrev pub is_ok_or_invalid_state : EspErr → Bool
is_ok_or_invalid_state esp_ok = true
is_ok_or_invalid_state invalid_state = true
is_ok_or_invalid_state _ = false
