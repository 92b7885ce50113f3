-- ===== src/Ota/Fetch.antt =====
-- The request for the version of an update in main/firmware_ota.c: `ota_metadata_event`,
-- `fetch_remote_version` and `firmware_ota_check_for_update_async`. The SDK's client, what cJSON finds in
-- a text, and what `%.9g` prints are arguments.
pub mod Update
use gtw_jalles_websoket_blue.Prelude.{
  ℕ, ◌+◌, ◌-◌, ◌≤◌, ◌<◌, ◌≡◌, ◌↔◌, refl, sym, ap, ◌∙◌, Bool, true, false, not, ◌&&◌, ◌||◌, Option,
  none, some, List, [], ◌∷◌, ◌++◌, append_assoc, append-nil, length, length-append, take, ltb, leb,
  ◌==◌, if◌then◌else◌, inl, inr, ◌⊎◌, Bool-cases, take_all, arith, ℤ, pos, negsuc,
}
use gtw_jalles_websoket_blue.Esp.{
  EspErr, esp_ok, esp_fail, no_mem, invalid_state, invalid_size, is_ok,
}
use gtw_jalles_websoket_blue.Ota.State.{Ota}
use gtw_jalles_websoket_blue.Ota.Https.{version_text_max, Check, Download}

-- `FW_METADATA_BODY_MAX`.
abbrev pub metadata_body_max : ℕ
metadata_body_max = 512

-- `ota_metadata_response_t`.
pub record MetadataResponse : Type 0 where
  pub body : List ℕ
  pub overflow : Bool

unfoldable pub ota_metadata_event : List ℕ → MetadataResponse → MetadataResponse × EspErr
ota_metadata_event bytes r =
    if length bytes == 0
    then (r, esp_ok)
    else if ltb (metadata_body_max - 1 - length r.body) (length bytes)
    then (record r { overflow = true }, esp_fail)
    else (record r { body = r.body ++ bytes }, esp_ok)

-- All pieces of an answer; the client goes on whatever the handler answers.
unfoldable pub receive_metadata : List (List ℕ) → MetadataResponse → MetadataResponse
receive_metadata [] r = r
receive_metadata (bytes ∷ pieces) r = receive_metadata pieces (ota_metadata_event bytes r).0

-- How the request goes: whether there is a client, the answers to the two headers and to the request, its
-- status and the pieces of the answer.
pub record FetchExchange : Type 0 where
  pub client : Bool
  pub key_header : EspErr
  pub accept_header : EspErr
  pub performed : EspErr
  pub status : ℕ
  pub pieces : List (List ℕ)

-- The field "version": a text, or a number, with what `%.9g` prints of it.
pub data RemoteVersion : Type 0 where
  version_text version_number : List ℕ → RemoteVersion

-- What cJSON finds: `valueint` of the field "id" if it is a number, and "version" if it is one of these.
pub record Metadata : Type 0 where
  pub id : Option ℤ
  pub version : Option RemoteVersion

abbrev pub printed : RemoteVersion → List ℕ
printed (version_text text) = text
printed (version_number text) = text

abbrev pub is_file : ℕ → Option ℤ → Bool
is_file file_id (some (pos n)) = n == file_id
is_file file_id _ = false

-- What is written to `version`, of 32 bytes.
unfoldable pub write_version : RemoteVersion → EspErr × List ℕ
write_version v =
    if length (printed v) == 0 || leb version_text_max (length (printed v))
    then (invalid_size, take 31 (printed v))
    else (esp_ok, printed v)

unfoldable pub read_metadata : ℕ → Option Metadata → EspErr × List ℕ
read_metadata file_id none = (esp_fail, [])
read_metadata file_id (some m) =
    if is_file file_id m.id then versioned m.version else (esp_fail, [])
  where
    versioned : Option RemoteVersion → EspErr × List ℕ
    versioned none = (esp_fail, [])
    versioned (some v) = write_version v

-- The headers and the request: the first answer that is not ESP_OK.
abbrev pub first_error : EspErr → EspErr → EspErr
first_error a b = if is_ok a then b else a

unfoldable pub fetch_remote_version :
    ℕ → (List ℕ → Option Metadata) → FetchExchange → EspErr × List ℕ
fetch_remote_version file_id parse e =
    if not e.client
    then (no_mem, [])
    else if not (is_ok result)
    then (result, [])
    else if not (e.status == 200)
    then (esp_fail, [])
    else if r.overflow || length r.body == 0
    then (invalid_size, [])
    else read_metadata file_id (parse r.body)
  where
    result : EspErr
    result = first_error (first_error e.key_header e.accept_header) e.performed

    r : MetadataResponse
    r = receive_metadata e.pieces (record { body = []; overflow = false })

-- What `check_for_update_once` meets.
unfoldable pub fetched_check : ℕ → (List ℕ → Option Metadata) → FetchExchange → Download → Check
fetched_check file_id parse e d = record {
  fetched = (fetch_remote_version file_id parse e).0;
  remote = (fetch_remote_version file_id parse e).1;
  download = d;
}

-- `task` says that `s_check_task` is not null, `key` how long `OTA_ACCESS_KEY` is, and `made` whether the
-- task could be created. The first component is whether there is a task afterwards.
unfoldable pub firmware_ota_check_for_update_async :
    (task : Bool) → (key : ℕ) → (made : Bool) → Ota → Bool × EspErr
firmware_ota_check_for_update_async task key made o =
    if not o.initialized || not o.ota_capable
    then (task, invalid_state)
    else if task
    then (task, esp_ok)
    else if ltb key 32
    then (task, invalid_size)
    else if made
    then (true, esp_ok)
    else (false, no_mem)
