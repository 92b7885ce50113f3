-- ===== src/Ota/Boot.antt =====
-- The start of main/firmware_ota.c: `firmware_ota_init`, which notes the version that runs and counts its
-- boots. NVS is its contents and its answers; the name of the partition is left out.
pub mod Counts
use gtw_jalles_websoket_blue.Prelude.{
  ℕ, zero, suc, ◌+◌, ◌%◌, ◌^◌, ◌≡◌, refl, ap, ◌∙◌, Bool, true, false, Option, none, some, List, [],
  ◌∷◌, length, take, ◌==◌, if◌then◌else◌, arith, subst,
}
use gtw_jalles_websoket_blue.Esp.{EspErr, esp_ok, no_mem, is_ok}
use gtw_jalles_websoket_blue.Text.{same_text}
use gtw_jalles_websoket_blue.Ota.State.{Phase, pending, active, no_ota, Ota}
use gtw_jalles_websoket_blue.Ota.Https.{unknown_text}

-- The namespace "fw_meta" of NVS.
pub record FwNvs : Type 0 where
  pub current : Option (List ℕ)
  pub previous : Option (List ℕ)
  pub target : Option (List ℕ)
  pub state : Option Phase
  pub boot_count : Option ℕ

-- `s_info` and the rest of the state, with the fields that only the start sets.
pub record FwInfo : Type 0 where
  pub ota : Ota
  pub previous : List ℕ
  pub boot_count : ℕ

-- What the start meets: the version of the program (empty if unknown), whether there are two partitions,
-- the answers of NVS, the state of the running image if the SDK knows it, and whether the mutex could be
-- made. `count_read` is ESP_OK also where there is no count.
pub record FwBoot : Type 0 where
  pub version : List ℕ
  pub capable : Bool
  pub opened : EspErr
  pub put_current : EspErr
  pub put_previous : EspErr
  pub put_zero : EspErr
  pub image : Option Phase
  pub count_read : EspErr
  pub put_count : EspErr
  pub put_schema : EspErr
  pub put_state : EspErr
  pub committed : EspErr
  pub mutex : Bool

-- One more write, if all went well so far.
unfoldable pub then_put : EspErr → (FwNvs → FwNvs) → FwNvs × EspErr → FwNvs × EspErr
then_put answer f (n, err) =
    if is_ok err then if is_ok answer then (f n, err) else (n, answer) else (n, err)

abbrev pub text_or_none : Option (List ℕ) → List ℕ
text_or_none none = []
text_or_none (some text) = text

abbrev pub or_phase : Option Phase → Phase → Phase
or_phase none p = p
or_phase (some q) p = q

abbrev pub with_phase : Phase → FwInfo → FwInfo
with_phase p i = record i { ota = record o { state = p } }
  where
    o : Ota
    o = i.ota

abbrev pub default_phase : Bool → Phase
default_phase capable = if capable then active else no_ota

-- `s_info` before the comparison.
unfoldable pub loaded : FwBoot → FwNvs → FwInfo → FwInfo
loaded b n i = record {
  ota = record o {
    current = take 31 (if length b.version == 0 then unknown_text else b.version);
    target = text_or_none n.target;
    ota_capable = b.capable;
  };
  previous = text_or_none n.previous;
  boot_count = 0;
}
  where
    o : Ota
    o = i.ota

-- By the version stored before, which is empty if there is none.
unfoldable pub note_version : FwBoot → List ℕ → FwNvs → FwInfo → FwInfo × (FwNvs × EspErr)
note_version b [] n i = (
  with_phase (default_phase b.capable) i,
  then_put b.put_current (λ m. record m { current = some i.ota.current }) (n, esp_ok),
)
note_version b (c ∷ stored) n i =
    if same_text (c ∷ stored) i.ota.current
    then (with_phase (or_phase n.state (default_phase b.capable)) i, (n, esp_ok))
    else (
      with_phase pending (record i { previous = c ∷ stored }),
      then_put b.put_zero (λ m. record m { boot_count = some 0 })
          (then_put b.put_current (λ m. record m { current = some i.ota.current })
            (then_put b.put_previous (λ m. record m { previous = some (c ∷ stored) }) (n, esp_ok))),
    )

abbrev pub count_of : Option ℕ → ℕ
count_of none = 0
count_of (some n) = n

-- The count, the state and the commit; then the mutex.
unfoldable pub note_boot : FwBoot → FwInfo × (FwNvs × EspErr) → (FwNvs × FwInfo) × EspErr
note_boot b (i, (n, err)) =
    if not_ok
    then ((saved.0, counted), saved.1)
    else if b.mutex
    then ((saved.0, record counted { ota = record o { initialized = true; busy = false } }), esp_ok)
    else ((saved.0, counted), no_mem)
  where
    seen : FwNvs × EspErr
    seen = if is_ok err then (n, b.count_read) else (n, err)

    count : ℕ
    count = (count_of n.boot_count + 1) % 2 ^ 32

    counted : FwInfo
    counted = if is_ok seen.1 then record i { boot_count = count } else i

    o : Ota
    o = counted.ota

    saved : FwNvs × EspErr
    saved =
        then_put b.committed (λ m. m)
          (then_put b.put_state (λ m. record m { state = some o.state })
            (then_put b.put_schema (λ m. m)
              (then_put b.put_count (λ m. record m { boot_count = some count }) seen)))

    not_ok : Bool
    not_ok = if is_ok saved.1 then false else true

unfoldable pub firmware_ota_init : FwBoot → FwNvs → FwInfo → (FwNvs × FwInfo) × EspErr
firmware_ota_init b n i =
    if is_ok b.opened
    then note_boot b (noted (loaded b n i))
    else ((n, record (loaded b fresh_nvs i) { previous = [] }), b.opened)
  where
    fresh_nvs : FwNvs
    fresh_nvs = record {
      current = none;
      previous = none;
      target = none;
      state = none;
      boot_count = none;
    }

    noted : FwInfo → FwInfo × (FwNvs × EspErr)
    noted j =
        let (info, written) = note_version b (text_or_none n.current) n j in
        (with_phase (or_phase b.image info.ota.state) info, written)

-- Starts one after the other.
unfoldable pub boots : ℕ → FwBoot → FwNvs → FwInfo → FwNvs × FwInfo
boots zero b n i = (n, i)
boots (suc k) b n i = let s = (firmware_ota_init b n i).0 in boots k b s.0 s.1
