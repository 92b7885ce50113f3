-- ===== src/Ota/Ble.antt =====
-- The update over Bluetooth in main/firmware_ota.c: `firmware_ota_ble_begin`, `_write`, `_finish`,
-- `_abort` and `ble_ota_release`. The answers of the OTA library are arguments; log lines are left
-- out.
pub mod Inv
pub mod Ending
pub mod Run
pub mod Chosen
pub mod Upload
use gtw_jalles_websoket_blue.Prelude.{
  ℕ, ◌+◌, ◌-◌, ◌*◌, ◌/◌, Bool, true, false, not, ◌&&◌, ◌||◌, Option, none, some, List, [], ◌∷◌,
  ◌++◌, length, take, ltb, ◌==◌, if◌then◌else◌, min,
}
use gtw_jalles_websoket_blue.Esp.{EspErr, esp_ok, invalid_arg, invalid_state, invalid_size, is_ok}
use gtw_jalles_websoket_blue.Ota.State.{
  Phase, download, ready, failed, Session, Ota, set_state, no_session,
}

-- `stored` is the answer of NVS to the new state.
unfoldable pub ble_ota_release : Bool → EspErr → Ota → Ota
ble_ota_release fails stored o =
    let idle = record o { ble = no_session; busy = false } in
    if fails then set_state stored failed idle else idle

-- `partition` is the size of the next update partition if there is one, `start` the answer of
-- `esp_ota_begin`.
pub record Begin : Type 0 where
  pub partition : Option ℕ
  pub stored : EspErr
  pub start : EspErr

-- From the choice of the partition on, with the mutex taken.
unfoldable pub begin_in : Option ℕ → ℕ → Begin → Ota → Ota × EspErr
begin_in none image_size b o = (record o { busy = false }, invalid_size)
begin_in (some size) image_size b o =
    if ltb size image_size
    then (record o { busy = false }, invalid_size)
    else if is_ok b.start
    then (
      record opened {
        ble = record {
          handle = true;
          expected_size = image_size;
          received_size = 0;
          active = true;
        };
        flash = [];
      },
      esp_ok,
    )
    else (ble_ota_release true b.stored (record opened { ble = session }), b.start)
  where
    session : Session
    session = record {
      handle = false;
      expected_size = image_size;
      received_size = 0;
      active = false;
    }

    opened : Ota
    opened = set_state b.stored download (record o { ble = session })

unfoldable pub firmware_ota_ble_begin : ℕ → Begin → Ota → Ota × EspErr
firmware_ota_ble_begin image_size b o =
    if not o.initialized || not o.ota_capable || image_size == 0
    then (o, invalid_state)
    else if o.ble.active || o.busy
    then (o, invalid_state)
    else begin_in b.partition image_size b (record o { busy = true })

abbrev pub percent : ℕ → ℕ → ℕ
percent received expected = min (received * 100 / expected) 100

-- `esp_ota_write` answers `wrote`. The third component is the progress, where it is reported.
unfoldable pub firmware_ota_ble_write :
    ℕ → List ℕ → EspErr → EspErr → Ota → Ota × (EspErr × Option ℕ)
firmware_ota_ble_write offset chunk wrote stored o =
    if not o.ble.active || length chunk == 0 || not (offset == o.ble.received_size)
    then (o, (invalid_arg, none))
    else if ltb (o.ble.expected_size - o.ble.received_size) (length chunk)
    then (o, (invalid_size, none))
    else if is_ok wrote
    then (
      record o { ble = record session { received_size = received }; flash = o.flash ++ chunk },
      (esp_ok, some (percent received o.ble.expected_size)),
    )
    else (ble_ota_release true stored o, (wrote, none))
  where
    session : Session
    session = o.ble

    received : ℕ
    received = o.ble.received_size + length chunk

-- The answers on the way through `firmware_ota_ble_finish`: of `esp_ota_end`, which checks the image,
-- of `esp_partition_read`; whether the description read from the partition has the magic word and
-- names this project; of `esp_ota_set_boot_partition`, and the version in the description.
pub record Finish : Type 0 where
  pub end_result : EspErr
  pub read_result : EspErr
  pub same_project : Bool
  pub boot : EspErr
  pub version : List ℕ
  pub stored : EspErr

-- What `strlcpy` keeps of a text in a field of `FW_VERSION_TEXT_MAX` bytes.
abbrev pub version_room : ℕ
version_room = 31

unfoldable pub firmware_ota_ble_finish : Finish → Ota → Ota × EspErr
firmware_ota_ble_finish f o =
    if not o.ble.active
    then (o, invalid_state)
    else if not (o.ble.received_size == o.ble.expected_size)
    then (ble_ota_release true f.stored o, invalid_size)
    else if not (is_ok f.end_result)
    then (ble_ota_release true f.stored closed, f.end_result)
    else if not (is_ok f.read_result) || not f.same_project
    then (
      ble_ota_release true f.stored closed,
      if is_ok f.read_result then invalid_arg else f.read_result,
    )
    else if not (is_ok f.boot)
    then (ble_ota_release true f.stored closed, f.boot)
    else (
      ble_ota_release false f.stored (
          set_state f.stored ready
            (record closed { target = take version_room f.version; boot_chosen = true })),
      esp_ok,
    )
  where
    session : Session
    session = o.ble

    closed : Ota
    closed = record o { ble = record session { handle = false } }

unfoldable pub firmware_ota_ble_abort : EspErr → Ota → Ota
firmware_ota_ble_abort stored o = if o.ble.active then ble_ota_release true stored o else o
