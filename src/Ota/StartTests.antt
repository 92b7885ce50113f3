-- ===== src/Ota/StartTests.antt =====
-- A new version that starts and asks for an update, on which the theorems on both are applied.
use gtw_jalles_websoket_blue.Prelude.{
  ℕ, ◌≡◌, refl, true, false, Option, none, some, List, [], ◌∷◌, pos,
}
use gtw_jalles_websoket_blue.Esp.{esp_ok}
use gtw_jalles_websoket_blue.Text.{starts_with, same_text}
use gtw_jalles_websoket_blue.Ota.Version.{
  read_number, after_number, parse_parts, version_of, parse_version, compare_parsed,
  compare_versions, versions_equal, equal_parsed,
}
use gtw_jalles_websoket_blue.Ota.State.{Ota, active, no_session, set_state}
use gtw_jalles_websoket_blue.Ota.Https.{
  Download, https_prefix, image_result, download_result, https_done, https_locked,
  firmware_ota_update_https, firmware_ota_current_version, check_for_update_once,
}
use gtw_jalles_websoket_blue.Ota.Https.Gate.{IsAccepted}
use gtw_jalles_websoket_blue.Ota.Boot.{FwNvs, FwInfo, FwBoot, firmware_ota_init, boots}
use gtw_jalles_websoket_blue.Ota.Boot.Counts.{running, IsWorking, Counts, boots-Counts}
use gtw_jalles_websoket_blue.Ota.Fetch.{
  ota_metadata_event, receive_metadata, FetchExchange, version_text, Metadata, write_version,
  read_metadata, fetch_remote_version, fetched_check,
}
use gtw_jalles_websoket_blue.Ota.Fetch.Update.{IsFetched, check_chooses_remote}

-- "1.2" and "1.10".
abbrev v12 : List ℕ
v12 = 49 ∷ 46 ∷ 50 ∷ []

abbrev v110 : List ℕ
v110 = 49 ∷ 46 ∷ 49 ∷ 48 ∷ []

abbrev idle : Ota
idle = record {
  initialized = true;
  ota_capable = true;
  current = v12;
  target = [];
  state = active;
  busy = false;
  ble = no_session;
  flash = [];
  boot_chosen = false;
}

-- NVS still names 1.2, and 1.10 runs.
abbrev old_nvs : FwNvs
old_nvs = record {
  current = some v12;
  previous = none;
  target = some v110;
  state = none;
  boot_count = some 7;
}

abbrev info : FwInfo
info = record { ota = idle; previous = []; boot_count = 0 }

abbrev boot : FwBoot
boot = record {
  version = v110;
  capable = true;
  opened = esp_ok;
  put_current = esp_ok;
  put_previous = esp_ok;
  put_zero = esp_ok;
  image = none;
  count_read = esp_ok;
  put_count = esp_ok;
  put_schema = esp_ok;
  put_state = esp_ok;
  committed = esp_ok;
  mutex = true;
}

boot-IsWorking : IsWorking boot
boot-IsWorking = record {
  opened = refl;
  put_current = refl;
  put_previous = refl;
  put_zero = refl;
  count_read = refl;
  put_count = refl;
  put_schema = refl;
  put_state = refl;
  committed = refl;
  mutex = refl;
}

new_version : same_text v12 (running boot) ≡ false
unfolding same_text
new_version = refl

boots-Counts_example : Counts boot v12 3 (
    boots 2 boot
      (firmware_ota_init boot old_nvs info).0.0
      (firmware_ota_init boot old_nvs info).0.1)
boots-Counts_example =
    boots-Counts 2 boot old_nvs info 49 (46 ∷ 50 ∷ []) boot-IsWorking refl new_version

-- A download of "1.10" from "https://a", while "1.2" runs.
abbrev url : List ℕ
url = 104 ∷ 116 ∷ 116 ∷ 112 ∷ 115 ∷ 58 ∷ 47 ∷ 47 ∷ 97 ∷ []

abbrev image : Download
image = record {
  credentials = true;
  begin_result = esp_ok;
  desc_result = esp_ok;
  same_project = true;
  incoming = v110;
  perform_result = esp_ok;
  all_data = true;
  finish_result = esp_ok;
  stored = esp_ok;
}

-- The answer is {} in two pieces, and cJSON finds file 5 and the version in it.
abbrev exchange : FetchExchange
exchange = record {
  client = true;
  key_header = esp_ok;
  accept_header = esp_ok;
  performed = esp_ok;
  status = 200;
  pieces = (123 ∷ []) ∷ (125 ∷ []) ∷ [];
}

abbrev parse : List ℕ → Option Metadata
parse text = some (record { id = some (pos 5); version = some (version_text v110) })

fetched_chooses :
    (check_for_update_once url (fetched_check 5 parse exchange image) idle).0.boot_chosen ≡ true
unfolding check_for_update_once firmware_ota_current_version compare_versions compare_parsed
    firmware_ota_update_https starts_with https_locked https_done download_result image_result
    set_state versions_equal equal_parsed same_text parse_version version_of parse_parts
    after_number read_number fetched_check fetch_remote_version receive_metadata ota_metadata_event
    read_metadata write_version
fetched_chooses = refl

check_chooses_remote_example :
    IsFetched 5 parse exchange (fetch_remote_version 5 parse exchange).1
    × (compare_versions
          (fetch_remote_version 5 parse exchange).1
          (firmware_ota_current_version idle)
        ≡ pos 1)
    × (starts_with https_prefix url ≡ true)
    × IsAccepted (fetch_remote_version 5 parse exchange).1 v12 image
check_chooses_remote_example =
    check_chooses_remote url 5 parse exchange image idle refl fetched_chooses
