-- ===== src/Ota/Tests.antt =====
-- Version texts, a small image and a download, on which the theorems on the update are applied.
use gtw_jalles_websoket_blue.Prelude.{
  ℕ, ◌≡◌, ◌↔◌, refl, true, false, some, List, [], ◌∷◌, ◌++◌, pos, negsuc, arith, if◌then◌else◌, inr,
}
use gtw_jalles_websoket_blue.Esp.{esp_ok, is_ok}
use gtw_jalles_websoket_blue.Ota.Version.{
  Version, read_number, after_number, parse_parts, version_of, parse_version, compare_parsed,
  compare_versions, versions_equal, equal_parsed,
}
use gtw_jalles_websoket_blue.Ota.Version.Number.{IsReadable, parse_version_iff}
use gtw_jalles_websoket_blue.Ota.Version.Order.{
  NewerText, compare_versions_iff, compare_versions_trans, versions_equal_iff,
}
use gtw_jalles_websoket_blue.Ota.State.{Ota, active, no_session, set_state}
use gtw_jalles_websoket_blue.Ota.Ble.{
  Begin, begin_in, ble_ota_release, Finish, firmware_ota_ble_begin, firmware_ota_ble_write,
  firmware_ota_ble_finish,
}
use gtw_jalles_websoket_blue.Ota.Ble.Ending.{
  IsComplete, firmware_ota_ble_finish_iff, firmware_ota_ble_finish_ends,
}
use gtw_jalles_websoket_blue.Ota.Ble.Run.{Call, begin, write, finish, step, run}
use gtw_jalles_websoket_blue.Ota.Ble.Chosen.{IsCompletion, run_chooses}
use gtw_jalles_websoket_blue.Ota.Ble.Upload.{joined, upload, upload_completes}
use gtw_jalles_websoket_blue.Ota.Https.{
  Download, https_prefix, image_result, download_result, https_done, https_locked,
  firmware_ota_update_https, firmware_ota_current_version, Check, check_for_update_once,
}
use gtw_jalles_websoket_blue.Ota.Https.Gate.{IsAccepted, check_for_update_once_chooses}
use gtw_jalles_websoket_blue.Text.{starts_with, same_text}

-- "1.2", "1.2.0" and "1.10".
abbrev v12 : List ℕ
v12 = 49 ∷ 46 ∷ 50 ∷ []

abbrev v120 : List ℕ
v120 = 49 ∷ 46 ∷ 50 ∷ 46 ∷ 48 ∷ []

abbrev v110 : List ℕ
v110 = 49 ∷ 46 ∷ 49 ∷ 48 ∷ []

abbrev v2 : List ℕ
v2 = 50 ∷ []

abbrev version : ℕ → ℕ → ℕ → Version
version a b c = record { major = a; minor = b; patch = c }

parse_12 : parse_version v12 ≡ some (version 1 2 0)
unfolding parse_version version_of parse_parts after_number read_number
parse_12 = refl

parse_120 : parse_version v120 ≡ some (version 1 2 0)
unfolding parse_version version_of parse_parts after_number read_number
parse_120 = refl

-- "1.2.0." is read as well.
parse_trailing_point : parse_version (v120 ++ 46 ∷ []) ≡ some (version 1 2 0)
unfolding parse_version version_of parse_parts after_number read_number
parse_trailing_point = refl

compare_110 : compare_versions v110 v12 ≡ pos 1
unfolding compare_versions compare_parsed parse_version version_of parse_parts after_number
    read_number
compare_110 = refl

compare_2 : compare_versions v2 v110 ≡ pos 1
unfolding compare_versions compare_parsed parse_version version_of parse_parts after_number
    read_number
compare_2 = refl

parse_version_iff_example :
    ((text : List ℕ) × (parse_version text ≡ some (version 1 2 0))) ↔ IsReadable (version 1 2 0)
parse_version_iff_example = parse_version_iff (version 1 2 0)

compare_versions_iff_example : (compare_versions v110 v12 ≡ pos 1) ↔ NewerText v110 v12
compare_versions_iff_example = compare_versions_iff v110 v12

three_in_order : (compare_versions v2 v12 ≡ pos 1) × (compare_versions v12 v2 ≡ negsuc 0)
three_in_order = compare_versions_trans v2 v110 v12 compare_2 compare_110

equal_texts :
    (versions_equal v12 v120 ≡ true)
    ↔ ((compare_versions v12 v120 ≡ pos 0) × (compare_versions v120 v12 ≡ pos 0))
equal_texts = versions_equal_iff v12 v120 (version 1 2 0) (version 1 2 0) parse_12 parse_120

abbrev idle : Ota
idle = record {
  initialized = true;
  ota_capable = true;
  current = v12;
  target = [];
  state = active;
  busy = false;
  ble = no_session;
  flash = [];
  boot_chosen = false;
}

abbrev started : Begin
started = record { partition = some 100; stored = esp_ok; start = esp_ok }

abbrev answers : Finish
answers = record {
  end_result = esp_ok;
  read_result = esp_ok;
  same_project = true;
  boot = esp_ok;
  version = v110;
  stored = esp_ok;
}

-- After the bytes 7, 8, 9 in two pieces.
abbrev pieces : List (List ℕ)
pieces = (7 ∷ 8 ∷ []) ∷ (9 ∷ []) ∷ []

abbrev receiving : Ota
receiving = record idle {
  busy = true;
  ble = record { handle = true; expected_size = 3; received_size = 3; active = true };
  flash = 7 ∷ 8 ∷ 9 ∷ [];
}

finish_chosen :
    ((firmware_ota_ble_finish answers receiving).1 ≡ esp_ok) ↔ IsComplete answers receiving
finish_chosen = firmware_ota_ble_finish_iff answers receiving

finish_ended :
    ((firmware_ota_ble_finish answers receiving).0.ble ≡ no_session)
    × ((firmware_ota_ble_finish answers receiving).0.busy ≡ false)
    × ((firmware_ota_ble_finish answers receiving).0.boot_chosen
        ≡ (if is_ok (firmware_ota_ble_finish answers receiving).1 then true else false))
finish_ended = firmware_ota_ble_finish_ends answers receiving refl

abbrev calls : List Call
calls =
    begin 3 started
    ∷ write 0 (7 ∷ 8 ∷ []) esp_ok esp_ok
    ∷ write 5 (9 ∷ []) esp_ok esp_ok
    ∷ write 2 (9 ∷ []) esp_ok esp_ok
    ∷ finish answers
    ∷ []

calls_choose : (run calls idle).boot_chosen ≡ true
unfolding run step firmware_ota_ble_begin begin_in set_state firmware_ota_ble_write
    firmware_ota_ble_finish ble_ota_release
calls_choose = refl

run_chooses_example :
    (before : List Call) × (c : Call) × (after : List Call) × (calls ≡ before ++ c ∷ after)
    × IsCompletion c (run before idle)
run_chooses_example = run_chooses calls idle (inr refl) refl calls_choose

upload_completes_example :
    ((run (begin 3 started ∷ upload 0 pieces) idle).flash ≡ 7 ∷ 8 ∷ 9 ∷ [])
    × ((firmware_ota_ble_finish answers (run (begin 3 started ∷ upload 0 pieces) idle)).1 ≡ esp_ok)
    × ((firmware_ota_ble_finish answers
          (run (begin 3 started ∷ upload 0 pieces) idle)).0.boot_chosen
        ≡ true)
unfolding joined
upload_completes_example =
    upload_completes pieces 100 started answers idle refl refl refl refl refl refl
      (omega arith, (omega arith, tt)) (omega arith) (omega arith) (refl, refl, refl, refl)

-- A download of "1.10" from "https://a", while "1.2" runs.
abbrev url : List ℕ
url = 104 ∷ 116 ∷ 116 ∷ 112 ∷ 115 ∷ 58 ∷ 47 ∷ 47 ∷ 97 ∷ []

abbrev image : Download
image = record {
  credentials = true;
  begin_result = esp_ok;
  desc_result = esp_ok;
  same_project = true;
  incoming = v110;
  perform_result = esp_ok;
  all_data = true;
  finish_result = esp_ok;
  stored = esp_ok;
}

abbrev check : Check
check = record { fetched = esp_ok; remote = v110; download = image }

download_chooses : (firmware_ota_update_https url v110 image idle).0.boot_chosen ≡ true
unfolding firmware_ota_update_https starts_with https_locked https_done download_result image_result
    set_state versions_equal equal_parsed same_text parse_version version_of parse_parts
    after_number read_number
download_chooses = refl

check_chooses : (check_for_update_once url check idle).0.boot_chosen ≡ true
unfolding check_for_update_once firmware_ota_current_version compare_versions compare_parsed
    firmware_ota_update_https starts_with https_locked https_done download_result image_result
    set_state versions_equal equal_parsed same_text parse_version version_of parse_parts
    after_number read_number
check_chooses = refl

check_of_110 :
    (compare_versions v110 (firmware_ota_current_version idle) ≡ pos 1)
    × (starts_with https_prefix url ≡ true)
    × IsAccepted v110 v12 image
check_of_110 = check_for_update_once_chooses url check idle refl check_chooses
