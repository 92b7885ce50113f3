-- ===== src/Ota/Https/Gate.antt =====
-- Which images the update over HTTPS lets through.
use gtw_jalles_websoket_blue.Prelude.{
  ◌⊎◌, ℕ, ◌≡◌, refl, subst, ◌∙◌, true, false, not, ◌||◌, Option, none, some, List, length, take,
  ltb, leb, pos, if◌then◌else◌, inl, inr, Bool-cases, arith,
}
use gtw_jalles_websoket_blue.Esp.{EspErr, is_ok}
use gtw_jalles_websoket_blue.Ota.State.{Phase, download, failed, Ota, set_state}
use gtw_jalles_websoket_blue.Ota.Version.{
  Version, parse_version, compare_parsed, compare_versions, versions_equal,
}
use gtw_jalles_websoket_blue.Ota.Https.{
  Download, image_result, download_result, https_done, https_locked, firmware_ota_update_https,
  https_prefix, firmware_ota_current_version, Check, is_parsed, is_newer, check_for_update_once,
}
use gtw_jalles_websoket_blue.Text.{starts_with}

-- The image that may be booted: of this project, of the version that was asked for, of another one
-- than the running one, and complete.
pub record IsAccepted (expected current : List ℕ) (d : Download) : Type 0 where
  pub of_project : d.same_project ≡ true
  pub asked : (length expected ≡ 0) ⊎ (versions_equal d.incoming expected ≡ true)
  pub changes : versions_equal d.incoming current ≡ false
  pub complete : d.all_data ≡ true
  pub finished : is_ok d.finish_result ≡ true

image_result-IsAccepted :
    (expected : List ℕ) (d : Download) (o : Ota)
    → is_ok (image_result expected d o) ≡ true
    → IsAccepted expected o.current d
unfolding image_result
image_result-IsAccepted expected d o h = record {
  of_project = ground arith;
  asked = ground arith;
  changes = ground arith;
  complete = ground arith;
  finished = ground arith;
}

-- What `set_state` leaves alone.
set_state_keeps :
    (stored : EspErr) (phase : Phase) (o : Ota)
    → ((set_state stored phase o).boot_chosen ≡ o.boot_chosen)
      × ((set_state stored phase o).current ≡ o.current)
unfolding set_state
set_state_keeps stored phase o = elim (Bool-cases (is_ok stored)) [
  | inl kept ↦ simp kept (refl, refl)
  | inr lost ↦ simp lost (refl, refl)
]

https_done-chooses :
    (d : Download) (o : Ota) (err : EspErr)
    → o.boot_chosen ≡ false
    → (https_done d o err).0.boot_chosen ≡ true
    → is_ok err ≡ true
unfolding https_done
https_done-chooses d o err unset h = elim (Bool-cases (is_ok err)) [
  | inl good ↦ good
  | inr bad ↦ let (kept, same) = set_state_keeps d.stored failed o in cc (simp bad at h)
]

abbrev targeted : List ℕ → Ota → Ota
targeted expected o = if ltb 0 (length expected) then record o { target = take 31 expected } else o

targeted_keeps :
    (expected : List ℕ) (o : Ota)
    → ((targeted expected o).boot_chosen ≡ o.boot_chosen)
      × ((targeted expected o).current ≡ o.current)
targeted_keeps expected o = elim (Bool-cases (ltb 0 (length expected))) [
  | inl asked ↦ simp asked (refl, refl)
  | inr free ↦ simp free (refl, refl)
]

download_ok :
    (expected : List ℕ) (d : Download) (o : Ota)
    → is_ok (download_result expected d o) ≡ true
    → is_ok (image_result expected d o) ≡ true
unfolding download_result
download_ok expected d o h = ground arith

https_locked-chooses :
    (expected : List ℕ) (d : Download) (o : Ota)
    → o.boot_chosen ≡ false
    → (https_locked expected d o).0.boot_chosen ≡ true
    → IsAccepted expected o.current d
unfolding https_locked
https_locked-chooses expected d o unset h = elim (Bool-cases d.credentials) [
  | inr long ↦ cc (simp long at h)
  | inl fit ↦
      let opened : Ota = set_state d.stored download (targeted expected o) in
      let (kept, same) = set_state_keeps d.stored download (targeted expected o) in
      let (kept', same') = targeted_keeps expected o in
      let good =
        https_done-chooses d opened (download_result expected d opened) (kept ∙ kept' ∙ unset)
          (simp fit at h) in
      subst (λ v. IsAccepted expected v d) (same ∙ same')
        (image_result-IsAccepted expected d opened (download_ok expected d opened good))
]

-- An update over HTTPS makes the new partition the one to boot only if the address begins with
-- `https://` and the image is of this project, of the version asked for if one is, of another version
-- than the running one, and complete.
pub firmware_ota_update_https_chooses :
    (url expected : List ℕ) (d : Download) (o : Ota)
    → o.boot_chosen ≡ false
    → (firmware_ota_update_https url expected d o).0.boot_chosen ≡ true
    → (starts_with https_prefix url ≡ true) × IsAccepted expected o.current d
unfolding firmware_ota_update_https
firmware_ota_update_https_chooses url expected d o unset h =
    elim (Bool-cases (not o.initialized || not o.ota_capable)) [
      | inl refused ↦ cc (simp refused at h)
      | inr allowed ↦ elim (Bool-cases (starts_with https_prefix url)) [
        | inr plain ↦ cc (simp (allowed, plain) at h)
        | inl secure ↦ elim (Bool-cases (leb 32 (length expected))) [
          | inl long ↦ cc (simp (allowed, secure, long) at h)
          | inr short ↦ elim (Bool-cases o.busy) [
            | inl taken ↦ cc (simp (allowed, secure, short, taken) at h)
            | inr free ↦ (
              secure,
              https_locked-chooses expected d (record o { busy = true }) unset
                  (simp (allowed, secure, short, free) at h),
            )
          ]
        ]
      ]
    ]

newer_is_one :
    (left right : Option Version)
    → is_newer (compare_parsed left right) ≡ true
    → compare_parsed left right ≡ pos 1
unfolding compare_parsed
newer_is_one none right h = ground arith
newer_is_one (some l) none h = ground arith
newer_is_one (some l) (some r) h = ground arith

-- A check for an update makes the new partition the one to boot only if the remote version is newer
-- than the current one and the image is accepted as that version.
pub check_for_update_once_chooses :
    (url : List ℕ) (c : Check) (o : Ota)
    → o.boot_chosen ≡ false
    → (check_for_update_once url c o).0.boot_chosen ≡ true
    → (compare_versions c.remote (firmware_ota_current_version o) ≡ pos 1)
      × (starts_with https_prefix url ≡ true)
      × IsAccepted c.remote o.current c.download
unfolding check_for_update_once compare_versions
check_for_update_once_chooses url c o unset h = elim (Bool-cases (is_ok c.fetched)) [
  | inr lost ↦ cc (simp lost at h)
  | inl fetched ↦
      elim (Bool-cases (
        not (is_parsed (parse_version (firmware_ota_current_version o)))
        || not (is_parsed (parse_version c.remote)))) [
          | inl unreadable ↦ cc (simp (fetched, unreadable) at h)
          | inr readable ↦
              elim (Bool-cases
                (is_newer (compare_versions c.remote (firmware_ota_current_version o)))) [
                  | inr old ↦ cc (simp (fetched, readable, old) at h)
                  | inl newer ↦
                      let (secure, accepted) =
                        firmware_ota_update_https_chooses url c.remote c.download o unset
                          (simp (fetched, readable, newer) at h) in
                      (newer_is_one _ _ newer, secure, accepted)
                ]
        ]
]
