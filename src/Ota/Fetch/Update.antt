-- ===== src/Ota/Fetch/Update.antt =====
-- An update over HTTPS, from the request for its version to the choice of the image.
use gtw_jalles_websoket_blue.Prelude.{
  ℕ, ◌-◌, ◌≤◌, ◌<◌, ◌≡◌, refl, sym, ap, ◌∙◌, true, false, not, ◌||◌, Option, none, some, List, [],
  ◌∷◌, ◌++◌, append_assoc, append-nil, length, length-append, ltb, leb, ◌==◌, inl, inr, ◌⊎◌,
  Bool-cases, Option-cases, if-elim, arith, ℤ, pos, negsuc,
}
use gtw_jalles_websoket_blue.Esp.{EspErr, is_ok}
use gtw_jalles_websoket_blue.Ota.State.{Ota}
use gtw_jalles_websoket_blue.Ota.Https.{Check, Download}
use gtw_jalles_websoket_blue.Text.{starts_with}
use gtw_jalles_websoket_blue.Ota.Version.{compare_versions}
use gtw_jalles_websoket_blue.Ota.Https.{
  https_prefix, firmware_ota_current_version, check_for_update_once,
}
use gtw_jalles_websoket_blue.Ota.Https.Gate.{IsAccepted, check_for_update_once_chooses}
use gtw_jalles_websoket_blue.Ota.Fetch.{
  MetadataResponse, ota_metadata_event, receive_metadata, FetchExchange, RemoteVersion, Metadata,
  printed, is_file, write_version, read_metadata, first_error, fetch_remote_version, fetched_check,
}

abbrev pub joined : List (List ℕ) → List ℕ
joined [] = []
joined (bytes ∷ pieces) = bytes ++ joined pieces

-- An overflow is never forgotten.
stays_over :
    (pieces : List (List ℕ)) (r : MetadataResponse)
    → r.overflow ≡ true
    → (receive_metadata pieces r).overflow ≡ true
unfolding receive_metadata ota_metadata_event
stays_over [] r h = h
stays_over (bytes ∷ pieces) r h = elim (Bool-cases (length bytes == 0)) [
  | inl empty ↦ simp empty (stays_over pieces r h)
  | inr some_bytes ↦ elim (Bool-cases (ltb (511 - length r.body) (length bytes))) [
    | inl over ↦ simp (some_bytes, over) (stays_over pieces _ refl)
    | inr fits ↦ simp (some_bytes, fits) (stays_over pieces _ h)
  ]
]

empty_text : (bytes : List ℕ) → (length bytes == 0) ≡ true → bytes ≡ []
empty_text [] h = refl
empty_text (b ∷ bytes) h = absurd (ground arith)

-- Without an overflow the body holds all pieces; and there is none exactly when they fit.
receive_metadata_lem :
    (pieces : List (List ℕ)) (r : MetadataResponse)
    → r.overflow ≡ false
    → length r.body ≤ 511
    → (((receive_metadata pieces r).overflow ≡ false)
        × ((receive_metadata pieces r).body ≡ r.body ++ joined pieces)
        × (length (r.body ++ joined pieces) ≤ 511))
      ⊎ (((receive_metadata pieces r).overflow ≡ true) × (511 < length (r.body ++ joined pieces)))
unfolding receive_metadata ota_metadata_event
receive_metadata_lem [] r h low =
    inl (h, sym (append-nil r.body), omega (arith, low, length-append r.body []))
receive_metadata_lem (bytes ∷ pieces) r h low = elim (Bool-cases (length bytes == 0)) [
  | inl empty ↦ simp (empty_text bytes empty) (receive_metadata_lem pieces r h low)
  | inr some_bytes ↦ elim (Bool-cases (ltb (511 - length r.body) (length bytes))) [
    | inl over ↦
        simp (some_bytes, over)
          (inr (
            stays_over pieces _ refl,
            ground (
              arith,
              over,
              length-append r.body (bytes ++ joined pieces),
              length-append bytes (joined pieces),
            ),
          ))
    | inr fits ↦
        simp (some_bytes, fits, ← append_assoc)
          (receive_metadata_lem pieces (record r { body = r.body ++ bytes }) h
            (ground (arith, fits, length-append r.body bytes)))
  ]
]

-- An answer that gives `version`: the request went well, the pieces together are JSON of 1 to 511 bytes
-- about the file, with that version, of 1 to 31 characters.
pub record IsFetched (file_id : ℕ) (parse : List ℕ → Option Metadata) (e : FetchExchange)
    (version : List ℕ) : Type 0 where
  pub client : e.client ≡ true
  pub performed : is_ok e.performed ≡ true
  pub status : e.status ≡ 200
  pub some_bytes : 0 < length (joined e.pieces)
  pub fits : length (joined e.pieces) ≤ 511
  pub found :
      (m : Metadata) × (parse (joined e.pieces) ≡ some m)
      × (m.id ≡ some (pos file_id))
      × ((v : RemoteVersion) × (m.version ≡ some v) × (printed v ≡ version))
  pub some_text : 0 < length version
  pub short : length version < 32

-- What the metadata say.
record Says (file_id : ℕ) (found : Option Metadata) (version : List ℕ) : Type 0 where
  data_found :
      (m : Metadata) × (found ≡ some m)
      × (m.id ≡ some (pos file_id))
      × ((v : RemoteVersion) × (m.version ≡ some v) × (printed v ≡ version))
  some_text : 0 < length version
  short : length version < 32

is_file_lem : (file_id : ℕ) (id : Option ℤ) → is_file file_id id ≡ true → id ≡ some (pos file_id)
is_file_lem file_id (some (pos n)) h = let same : n ≡ file_id = ground arith in rw same refl
is_file_lem file_id (some (negsuc n)) h = cc
is_file_lem file_id none h = cc

abbrev Written : RemoteVersion → EspErr × List ℕ → Type 0
Written v x = is_ok x.0 ≡ true → (printed v ≡ x.1) × (0 < length x.1) × (length x.1 < 32)

write_version_lem : (v : RemoteVersion) → Written v (write_version v)
unfolding write_version
write_version_lem v =
    if-elim (Written v) (length (printed v) == 0 || leb 32 (length (printed v))) (λ unfit h. cc)
      (λ fits h. (refl, ground arith, ground arith))

abbrev SaysIf : ℕ → Option Metadata → EspErr × List ℕ → Type 0
SaysIf file_id found x = is_ok x.0 ≡ true → Says file_id found x.1

versioned_lem :
    (file_id : ℕ) (m : Metadata)
    → m.id ≡ some (pos file_id)
    → SaysIf file_id (some m) (read_metadata file_id (some m))
unfolding read_metadata
versioned_lem file_id m id = elim (Bool-cases (is_file file_id m.id)) [
  | inr other ↦ absurd (ground (arith, id))
  | inl this ↦ elim (Option-cases m.version) [
    | inl none_there ↦ simp (this, none_there) (λ h. cc)
    | inr (v, e) ↦
        simp (this, e)
          (λ h.
            let (same, some_text, short) = write_version_lem v h in
            record {
              data_found = (m, refl, id, (v, e, same));
              some_text = some_text;
              short = short;
            })
  ]
]

read_metadata_lem :
    (file_id : ℕ) (found : Option Metadata) → SaysIf file_id found (read_metadata file_id found)
unfolding read_metadata
read_metadata_lem file_id none = λ h. cc
read_metadata_lem file_id (some m) = elim (Bool-cases (is_file file_id m.id)) [
  | inl this ↦ versioned_lem file_id m (is_file_lem file_id m.id this)
  | inr other ↦ simp other (λ h. cc)
]

abbrev Fetches : ℕ → (List ℕ → Option Metadata) → FetchExchange → EspErr × List ℕ → Type 0
Fetches file_id parse e x = is_ok x.0 ≡ true → IsFetched file_id parse e x.1

performed_ok : (a b c : EspErr) → is_ok (first_error (first_error a b) c) ≡ true → is_ok c ≡ true
performed_ok a b c h = elim (Bool-cases (is_ok (first_error a b))) [
  | inl good ↦ simp good at h
  | inr bad ↦ absurd (cc (simp bad at h))
]

received_all :
    (pieces : List (List ℕ))
    → let r = receive_metadata pieces (record { body = []; overflow = false }) in
      (r.overflow || length r.body == 0) ≡ false
      → (r.body ≡ joined pieces) × (0 < length r.body) × (length r.body ≤ 511)
received_all pieces h =
    elim (receive_metadata_lem pieces (record { body = []; overflow = false }) refl (omega arith)) [
      | inl (whole, body, low) ↦ (body, ground arith, omega (arith, low, ap length body))
      | inr (over, long) ↦ absurd (ground arith)
    ]

-- A version that `fetch_remote_version` gives comes from an answer about the file, of status 200 and of 1
-- to 511 bytes, with its pieces in order, and has 1 to 31 characters.
pub fetch_remote_version_lem :
    (file_id : ℕ) (parse : List ℕ → Option Metadata) (e : FetchExchange)
    → Fetches file_id parse e (fetch_remote_version file_id parse e)
unfolding fetch_remote_version
fetch_remote_version_lem file_id parse e =
    let r = receive_metadata e.pieces (record { body = []; overflow = false }) in
    let result = first_error (first_error e.key_header e.accept_header) e.performed in
    if-elim (Fetches file_id parse e) (not e.client) (λ no_client h. cc)
      (λ client.
        if-elim (Fetches file_id parse e) (not (is_ok result)) (λ bad h. cc)
          (λ good.
            if-elim (Fetches file_id parse e) (not (e.status == 200)) (λ refused h. cc)
              (λ accepted.
                if-elim (Fetches file_id parse e) (r.overflow || length r.body == 0) (λ unfit h. cc)
                  (λ fits h.
                    let (body, some_bytes, low) = received_all e.pieces fits in
                    let s = read_metadata_lem file_id (parse r.body) h in
                    let (m, found, id, text) = s.data_found in
                    record {
                      client = ground arith;
                      performed =
                          performed_ok e.key_header e.accept_header e.performed (ground arith);
                      status = ground arith;
                      some_bytes = omega (arith, some_bytes, ap length body);
                      fits = omega (arith, low, ap length body);
                      found = (m, ap parse (sym body) ∙ found, id, text);
                      some_text = s.some_text;
                      short = s.short;
                    }))))

-- A check that chooses an image has fetched a version.
check_fetched :
    (url : List ℕ) (c : Check) (o : Ota)
    → o.boot_chosen ≡ false
    → (check_for_update_once url c o).0.boot_chosen ≡ true
    → is_ok c.fetched ≡ true
unfolding check_for_update_once
check_fetched url c o unset h = elim (Bool-cases (is_ok c.fetched)) [
  | inl fetched ↦ fetched
  | inr lost ↦ cc (simp lost at h)
]

-- A check for an update makes the new image the one to boot only if the request for its version was
-- answered about the file, with status 200, by JSON of 1 to 511 bytes with the version; that version is
-- newer than the one that runs; the address is one of HTTPS; and the image is accepted as that version.
pub check_chooses_remote :
    (url : List ℕ) (file_id : ℕ) (parse : List ℕ → Option Metadata) (e : FetchExchange)
    (d : Download) (o : Ota)
    → o.boot_chosen ≡ false
    → (check_for_update_once url (fetched_check file_id parse e d) o).0.boot_chosen ≡ true
    → IsFetched file_id parse e (fetch_remote_version file_id parse e).1
      × (compare_versions (fetch_remote_version file_id parse e).1 (firmware_ota_current_version o)
          ≡ pos 1)
      × (starts_with https_prefix url ≡ true)
      × IsAccepted (fetch_remote_version file_id parse e).1 o.current d
unfolding fetched_check
check_chooses_remote url file_id parse e d o unset h =
    let (newer, secure, accepted) =
      check_for_update_once_chooses url (fetched_check file_id parse e d) o unset h in
    (
      fetch_remote_version_lem file_id parse e
          (check_fetched url (fetched_check file_id parse e d) o unset h),
      newer,
      secure,
      accepted,
    )
