-- ===== src/Ota/Https.antt =====
-- The update over HTTPS in main/firmware_ota.c: `firmware_ota_update_https`,
-- `check_for_update_once` and the attempts of `ota_check_task`. The header buffers of the request,
-- progress logs and delays are left out; the answers of the HTTPS OTA library are arguments.
pub mod Gate
use gtw_jalles_websoket_blue.Prelude.{
  ℕ, zero, suc, ◌+◌, Bool, true, false, not, ◌&&◌, ◌||◌, Option, none, some, List, [], ◌∷◌, length,
  take, ltb, leb, ◌==◌, ℤ, pos, negsuc, if◌then◌else◌,
}
use gtw_jalles_websoket_blue.Text.{starts_with}
use gtw_jalles_websoket_blue.Esp.{
  EspErr, esp_ok, esp_fail, invalid_arg, invalid_state, invalid_size, invalid_version, timeout,
  is_ok,
}
use gtw_jalles_websoket_blue.Ota.State.{download, ready, failed, Ota, set_state}
use gtw_jalles_websoket_blue.Ota.Version.{Version, parse_version, compare_versions, versions_equal}

-- `https://`.
abbrev pub https_prefix : List ℕ
https_prefix = 104 ∷ 116 ∷ 116 ∷ 112 ∷ 115 ∷ 58 ∷ 47 ∷ 47 ∷ []

-- `FW_VERSION_TEXT_MAX`.
abbrev pub version_text_max : ℕ
version_text_max = 32

-- What the library answers on the way: `credentials` is whether the header texts fit their buffers;
-- then `esp_https_ota_begin`, `_get_img_desc`, whether the description names this project, its
-- version, the answer with which the loop of `_perform` ends, whether all data came, and `_finish`,
-- which chooses the partition to boot.
pub record Download : Type 0 where
  pub credentials : Bool
  pub begin_result : EspErr
  pub desc_result : EspErr
  pub same_project : Bool
  pub incoming : List ℕ
  pub perform_result : EspErr
  pub all_data : Bool
  pub finish_result : EspErr
  pub stored : EspErr

-- From the description of the image on: the first test that fails decides. An empty expected version
-- is none.
unfoldable pub image_result : List ℕ → Download → Ota → EspErr
image_result expected d o =
    if not (is_ok d.desc_result)
    then d.desc_result
    else if not d.same_project
    then invalid_arg
    else if ltb 0 (length expected) && not (versions_equal d.incoming expected)
    then invalid_version
    else if versions_equal d.incoming o.current
    then invalid_state
    else if not (is_ok d.perform_result)
    then d.perform_result
    else if not d.all_data
    then invalid_size
    else d.finish_result

unfoldable pub download_result : List ℕ → Download → Ota → EspErr
download_result expected d o =
    if is_ok d.begin_result then image_result expected d o else d.begin_result

-- The labels `abort` and `done`, and the success before them.
unfoldable pub https_done : Download → Ota → EspErr → Ota × EspErr
https_done d o err =
    if is_ok err
    then (
      set_state d.stored ready (record o { target = take 31 d.incoming; boot_chosen = true }),
      err,
    )
    else (set_state d.stored failed o, err)

-- With the mutex taken.
unfoldable pub https_locked : List ℕ → Download → Ota → Ota × EspErr
https_locked expected d o =
    if not d.credentials
    then (o, invalid_size)
    else https_done d opened (download_result expected d opened)
  where
    opened : Ota
    opened =
        set_state d.stored download
          (if ltb 0 (length expected) then record o { target = take 31 expected } else o)

unfoldable pub firmware_ota_update_https : List ℕ → List ℕ → Download → Ota → Ota × EspErr
firmware_ota_update_https url expected d o =
    if not o.initialized || not o.ota_capable
    then (o, invalid_state)
    else if not (starts_with https_prefix url)
    then (o, invalid_arg)
    else if leb version_text_max (length expected)
    then (o, invalid_size)
    else if o.busy
    then (o, invalid_state)
    else unlocked (https_locked expected d (record o { busy = true }))
  where
    unlocked : Ota × EspErr → Ota × EspErr
    unlocked (q, err) = (record q { busy = false }, err)

-- `firmware_ota_current_version`: the text "unknown" where there is none.
abbrev pub unknown_text : List ℕ
unknown_text = 117 ∷ 110 ∷ 107 ∷ 110 ∷ 111 ∷ 119 ∷ 110 ∷ []

unfoldable pub firmware_ota_current_version : Ota → List ℕ
firmware_ota_current_version o = if length o.current == 0 then unknown_text else o.current

-- `fetched` is what `fetch_remote_version` answers, with the version if it succeeds.
pub record Check : Type 0 where
  pub fetched : EspErr
  pub remote : List ℕ
  pub download : Download

abbrev pub is_parsed : Option Version → Bool
is_parsed none = false
is_parsed (some v) = true

abbrev pub is_newer : ℤ → Bool
is_newer (pos n) = ltb 0 n
is_newer (negsuc n) = false

-- The state, the result and `*updated`.
unfoldable pub check_for_update_once : List ℕ → Check → Ota → Ota × (EspErr × Bool)
check_for_update_once url c o =
    if not (is_ok c.fetched)
    then (o, (c.fetched, false))
    else if not (is_parsed (parse_version (firmware_ota_current_version o)))
        || not (is_parsed (parse_version c.remote))
    then (o, (invalid_version, false))
    else if not (is_newer (compare_versions c.remote (firmware_ota_current_version o)))
    then (o, (esp_ok, false))
    else updating (firmware_ota_update_https url c.remote c.download o)
  where
    updating : Ota × EspErr → Ota × (EspErr × Bool)
    updating (q, err) = (q, (err, is_ok err))

-- `ota_check_task`: `checks k` is what attempt `k` meets, `none` where the HTTP mutex was not free.
-- The result is whether the device restarts.
unfoldable pub ota_check_task : List ℕ → (ℕ → Option Check) → ℕ → ℕ → Ota → Ota × Bool
ota_check_task url checks zero k o = (o, false)
ota_check_task url checks (suc left) k o =
    let r = once (checks k) in
    let rest = ota_check_task url checks left (suc k) r.0 in
    if is_ok r.1.0 then (r.0, r.1.1) else rest
  where
    once : Option Check → Ota × (EspErr × Bool)
    once none = (o, (timeout, false))
    once (some c) = check_for_update_once url c o
