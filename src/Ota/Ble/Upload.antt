-- ===== src/Ota/Ble/Upload.antt =====
-- An image sent in pieces over Bluetooth arrives whole.
use gtw_jalles_websoket_blue.Prelude.{
  ℕ, ◌+◌, ◌-◌, ◌≤◌, ◌<◌, ◌≡◌, refl, sym, ap, subst, ◌∙◌, true, false, not, ◌||◌, some, List, [],
  ◌∷◌, ◌++◌, append_assoc, append-nil, All, length, length-append, ltb, ◌==◌, if◌then◌else◌, inl,
  inr, Bool-cases, arith,
}
use gtw_jalles_websoket_blue.Esp.{esp_ok, is_ok}
use gtw_jalles_websoket_blue.Ota.State.{download, Session, Ota, set_state, no_session}
use gtw_jalles_websoket_blue.Ota.Ble.{
  Begin, begin_in, firmware_ota_ble_begin, firmware_ota_ble_write, Finish, firmware_ota_ble_finish,
}
use gtw_jalles_websoket_blue.Ota.Ble.Inv.{IsActive}
use gtw_jalles_websoket_blue.Ota.Ble.Run.{Call, begin, write, step, run}
use gtw_jalles_websoket_blue.Ota.Ble.Ending.{
  firmware_ota_ble_finish_iff, firmware_ota_ble_finish_ends,
}

unfoldable pub joined : List (List ℕ) → List ℕ
joined [] = []
joined (chunk ∷ chunks) = chunk ++ joined chunks

-- The calls that send the pieces in order, each at its offset.
unfoldable pub upload : ℕ → List (List ℕ) → List Call
upload offset [] = []
upload offset (chunk ∷ chunks) =
    write offset chunk esp_ok esp_ok ∷ upload (offset + length chunk) chunks

-- What an active session is after some bytes.
record Holds (size : ℕ) (bytes : List ℕ) (o : Ota) : Type 0 where
  active : IsActive o
  sized : o.ble.expected_size ≡ size
  held : o.flash ≡ bytes

begin_accepted :
    (image_size size : ℕ) (b : Begin) (o : Ota)
    → o.initialized ≡ true
    → o.ota_capable ≡ true
    → o.ble ≡ no_session
    → o.busy ≡ false
    → b.partition ≡ some size
    → is_ok b.start ≡ true
    → 0 < image_size
    → image_size ≤ size
    → (k : Ota) × ((firmware_ota_ble_begin image_size b o).0 ≡ record k {
      busy = true;
      ble = record { handle = true; expected_size = image_size; received_size = 0; active = true };
      flash = [];
    })
unfolding firmware_ota_ble_begin begin_in set_state
begin_accepted image_size size b o initialized capable idle free found started some_bytes fits =
    let inactive : o.ble.active ≡ false = ap (λ s. s.active) idle in
    let sized : (image_size == 0) ≡ false = ground arith in
    let room : ltb size image_size ≡ false = ground arith in
    elim (Bool-cases (is_ok b.stored)) [
      | inl kept ↦ (
        record o { state = download },
        simp (initialized, capable, inactive, free, found, started, sized, room, kept) refl,
      )
      | inr lost ↦
          (o, simp (initialized, capable, inactive, free, found, started, sized, room, lost) refl)
    ]

begin-Holds :
    (image_size : ℕ) (k o : Ota)
    → 0 < image_size
    → o ≡ record k {
      busy = true;
      ble = record { handle = true; expected_size = image_size; received_size = 0; active = true };
      flash = [];
    }
    → Holds image_size [] o
begin-Holds image_size k o some_bytes e = subst (Holds image_size []) (sym e) (record {
  active = record {
    locked = refl;
    opened = refl;
    started = refl;
    counted = refl;
    bounded = omega arith;
    expected = some_bytes;
  };
  sized = refl;
  held = refl;
})

abbrev received : Session → ℕ → Session
received s n = record s { received_size = s.received_size + n }

write_accepted :
    (chunk bytes : List ℕ) (size : ℕ) (o : Ota)
    → Holds size bytes o
    → 0 < length chunk
    → length bytes + length chunk ≤ size
    → (firmware_ota_ble_write (length bytes) chunk esp_ok esp_ok o).0
      ≡ record o { ble = received o.ble (length chunk); flash = o.flash ++ chunk }
unfolding firmware_ota_ble_write
write_accepted chunk bytes size o h some_bytes fits =
    let a = h.active in
    let counted : o.ble.received_size ≡ length bytes = a.counted ∙ ap length h.held in
    let here : (not o.ble.active || length chunk == 0 || not (length bytes == o.ble.received_size))
        ≡ false =
      ground (arith, a.started) in
    let room : ltb (o.ble.expected_size - o.ble.received_size) (length chunk) ≡ false =
      ground (arith, h.sized) in
    simp (here, room) refl

write-Holds :
    (chunk bytes : List ℕ) (size : ℕ) (o : Ota)
    → Holds size bytes o
    → 0 < length chunk
    → length bytes + length chunk ≤ size
    → Holds size (bytes ++ chunk) (step (write (length bytes) chunk esp_ok esp_ok) o)
unfolding step
write-Holds chunk bytes size o h some_bytes fits =
    let a = h.active in
    let counted : o.ble.received_size ≡ length bytes = a.counted ∙ ap length h.held in
    subst (Holds size (bytes ++ chunk)) (sym (write_accepted chunk bytes size o h some_bytes fits))
      (record {
        active = record {
          locked = a.locked;
          opened = a.opened;
          started = a.started;
          counted = omega (arith, a.counted, length-append o.flash chunk);
          bounded = omega (arith, h.sized, counted);
          expected = a.expected;
        };
        sized = h.sized;
        held = ap (λ t. t ++ chunk) h.held;
      })

abbrev pub IsPiece : List ℕ → Type 0
IsPiece chunk = 0 < length chunk

upload-Holds :
    (chunks : List (List ℕ)) (bytes : List ℕ) (size : ℕ) (o : Ota)
    → Holds size bytes o
    → All IsPiece chunks
    → length bytes + length (joined chunks) ≤ size
    → Holds size (bytes ++ joined chunks) (run (upload (length bytes) chunks) o)
unfolding run upload joined
upload-Holds [] bytes size o h pieces fits = subst (λ t. Holds size t o) (sym (append-nil bytes)) h
upload-Holds (chunk ∷ chunks) bytes size o h pieces fits =
    let next =
      write-Holds chunk bytes size o h pieces.0
        (omega (arith, length-append chunk (joined chunks))) in
    let rest =
      upload-Holds chunks (bytes ++ chunk) size (step (write (length bytes) chunk esp_ok esp_ok) o)
        next pieces.1
        (omega (arith, length-append chunk (joined chunks), length-append bytes chunk)) in
    subst
      (λ t. Holds size t (
        run (upload (length bytes + length chunk) chunks)
          (step (write (length bytes) chunk esp_ok esp_ok) o)))
      (append_assoc bytes chunk (joined chunks))
      (subst
        (λ n.
          Holds size ((bytes ++ chunk) ++ joined chunks)
            (run (upload n chunks) (step (write (length bytes) chunk esp_ok esp_ok) o)))
        (length-append bytes chunk) rest)

-- If an update can begin and the image fits the partition, then sending it in pieces of at least one
-- byte, each accepted by the OTA library, puts the image in the partition, byte for byte; and if the
-- image passes the checks, `firmware_ota_ble_finish` returns ESP_OK and the partition is chosen to
-- boot.
pub upload_completes :
    (chunks : List (List ℕ)) (size : ℕ) (b : Begin) (f : Finish) (o : Ota)
    → o.initialized ≡ true
    → o.ota_capable ≡ true
    → o.ble ≡ no_session
    → o.busy ≡ false
    → b.partition ≡ some size
    → is_ok b.start ≡ true
    → All IsPiece chunks
    → 0 < length (joined chunks)
    → length (joined chunks) ≤ size
    → (is_ok f.end_result ≡ true)
      × (is_ok f.read_result ≡ true)
      × (f.same_project ≡ true)
      × (is_ok f.boot ≡ true)
    → ((run (begin (length (joined chunks)) b ∷ upload 0 chunks) o).flash ≡ joined chunks)
      × ((firmware_ota_ble_finish f (run (begin (length (joined chunks)) b ∷ upload 0 chunks) o)).1
          ≡ esp_ok)
      × ((firmware_ota_ble_finish f
            (run (begin (length (joined chunks)) b ∷ upload 0 chunks) o)).0.boot_chosen
          ≡ true)
unfolding run step
upload_completes chunks size b f o initialized capable idle free found started pieces some_bytes
      fits (valid, readable, own, chosen) =
    let n = length (joined chunks) in
    let (k, accepted) =
      begin_accepted n size b o initialized capable idle free found started some_bytes fits in
    let sent =
      upload-Holds chunks [] n (firmware_ota_ble_begin n b o).0
        (begin-Holds n k (firmware_ota_ble_begin n b o).0 some_bytes accepted) pieces
        (omega arith) in
    let a = sent.active in
    let done =
      (firmware_ota_ble_finish_iff f (run (upload 0 chunks) (firmware_ota_ble_begin n b o).0)).1
        (record {
          started = a.started;
          whole = a.counted ∙ ap length sent.held ∙ sym sent.sized;
          valid_image = valid;
          readable = readable;
          of_project = own;
          chosen = chosen;
        }) in
    let (empty, unlocked, boot) =
      firmware_ota_ble_finish_ends f (run (upload 0 chunks) (firmware_ota_ble_begin n b o).0)
        a.started in
    (
      sent.held,
      done,
      boot
          ∙ ap
              (λ e.
                if is_ok e
                then true
                else (run (upload 0 chunks) (firmware_ota_ble_begin n b o).0).boot_chosen)
              done,
    )
