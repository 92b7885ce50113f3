-- ===== src/Ota/Ble/Ending.antt =====
-- How an update over Bluetooth ends: `firmware_ota_ble_finish`.
use gtw_jalles_websoket_blue.Prelude.{
  ◌≡◌, ◌↔◌, refl, ap, ◌∙◌, Bool, true, false, take, ◌==◌, ==_iff, if◌then◌else◌, inl, inr,
  Bool-cases, arith,
}
use gtw_jalles_websoket_blue.Esp.{EspErr, esp_ok, invalid_arg, invalid_state, invalid_size, is_ok}
use gtw_jalles_websoket_blue.Ota.State.{Phase, ready, Session, Ota, set_state, no_session}
use gtw_jalles_websoket_blue.Ota.Ble.{
  version_room, ble_ota_release, Finish, firmware_ota_ble_finish,
}
use gtw_jalles_websoket_blue.Ota.Ble.Inv.{IsSession, release-IsSession}

-- The answers that let an update end well.
pub record IsComplete (f : Finish) (o : Ota) : Type 0 where
  pub started : o.ble.active ≡ true
  pub whole : o.ble.received_size ≡ o.ble.expected_size
  pub valid_image : is_ok f.end_result ≡ true
  pub readable : is_ok f.read_result ≡ true
  pub of_project : f.same_project ≡ true
  pub chosen : is_ok f.boot ≡ true

-- The state that an update leaves that ends well.
abbrev pub completed : Finish → Ota → Ota
completed f o = ble_ota_release false f.stored (
    set_state f.stored ready (record o {
      target = take version_room f.version;
      ble = record session { handle = false };
      boot_chosen = true;
    }))
  where
    session : Session
    session = o.ble

-- The three ways through `firmware_ota_ble_finish`: no session, an error that ends the session, and
-- success.
pub finish_cases :
    (P : Ota × EspErr → Type 0) (f : Finish) (o : Ota)
    → (o.ble.active ≡ false → P (o, invalid_state))
    → ((q : Ota) (e : EspErr)
        → (IsComplete f o → ⊥)
        → o.ble.active ≡ true
        → is_ok e ≡ false
        → q.boot_chosen ≡ o.boot_chosen
        → P (ble_ota_release true f.stored q, e))
    → (IsComplete f o → P (completed f o, esp_ok))
    → P (firmware_ota_ble_finish f o)
unfolding firmware_ota_ble_finish
finish_cases P f o idle fails complete = elim (Bool-cases o.ble.active) [
  | inr inactive ↦ simp inactive (idle inactive)
  | inl active ↦ elim (Bool-cases (o.ble.received_size == o.ble.expected_size)) [
    | inr short ↦
        simp (active, short)
          (fails o invalid_size (λ c. let all = c.whole in ground arith) active refl refl)
    | inl whole ↦ elim (Bool-cases (is_ok f.end_result)) [
      | inr bad ↦
          simp (active, whole, bad)
            (fails _ f.end_result (λ c. let good = c.valid_image in cc) active bad refl)
      | inl good ↦ elim (Bool-cases (is_ok f.read_result)) [
        | inr lost ↦
            simp (active, whole, good, lost)
              (fails _ f.read_result (λ c. let read = c.readable in cc) active lost refl)
        | inl read ↦ elim (Bool-cases f.same_project) [
          | inr foreign ↦
              simp (active, whole, good, read, foreign)
                (fails _ invalid_arg (λ c. let own = c.of_project in cc) active refl refl)
          | inl own ↦ elim (Bool-cases (is_ok f.boot)) [
            | inr refused ↦
                simp (active, whole, good, read, own, refused)
                  (fails _ f.boot (λ c. let chosen = c.chosen in cc) active refused refl)
            | inl chosen ↦
                simp (active, whole, good, read, own, chosen)
                  (simp active at complete (record {
                    started = active;
                    whole = (==_iff _ _).0 whole;
                    valid_image = good;
                    readable = read;
                    of_project = own;
                    chosen = chosen;
                  }))
          ]
        ]
      ]
    ]
  ]
]

pub firmware_ota_ble_finish-IsSession :
    (f : Finish) (o : Ota) → IsSession o → IsSession (firmware_ota_ble_finish f o).0
firmware_ota_ble_finish-IsSession f o v =
    finish_cases (λ p. IsSession p.0) f o (λ inactive. v)
      (λ q e incomplete active err same. release-IsSession true f.stored q)
      (λ c. release-IsSession false f.stored _)

not_ok : (e : EspErr) → is_ok e ≡ false → e ≡ esp_ok → ⊥
not_ok e err h = let good = ap is_ok h in cc

-- `firmware_ota_ble_finish` returns ESP_OK exactly when a session is active, every expected byte came,
-- the image is valid, readable and of this project, and the partition could be chosen.
pub firmware_ota_ble_finish_iff :
    (f : Finish) (o : Ota) → ((firmware_ota_ble_finish f o).1 ≡ esp_ok) ↔ IsComplete f o
firmware_ota_ble_finish_iff f o =
    finish_cases (λ p. (p.1 ≡ esp_ok) ↔ IsComplete f o) f o
      (λ inactive. (λ h. cc, λ c. let started = c.started in cc))
      (λ q e incomplete active err same. (λ h. absurd (not_ok e err h), λ c. absurd (incomplete c)))
      (λ c. (λ h. c, λ d. refl))

pub released :
    (fails : Bool) (stored : EspErr) (o : Ota)
    → ((ble_ota_release fails stored o).ble ≡ no_session)
      × ((ble_ota_release fails stored o).busy ≡ false)
      × ((ble_ota_release fails stored o).boot_chosen ≡ o.boot_chosen)
unfolding ble_ota_release set_state
released true stored o = elim (Bool-cases (is_ok stored)) [
  | inl kept ↦ simp kept (refl, refl, refl)
  | inr lost ↦ simp lost (refl, refl, refl)
]
released false stored o = (refl, refl, refl)

pub set_state-boot_chosen :
    (stored : EspErr) (phase : Phase) (o : Ota)
    → (set_state stored phase o).boot_chosen ≡ o.boot_chosen
unfolding set_state
set_state-boot_chosen stored phase o = elim (Bool-cases (is_ok stored)) [
  | inl kept ↦ simp kept refl
  | inr lost ↦ simp lost refl
]

-- However `firmware_ota_ble_finish` ends an active session, the session is empty and the mutex free
-- afterwards; and the new partition is chosen to boot if it was before or the call succeeded, and
-- otherwise not.
pub firmware_ota_ble_finish_ends :
    (f : Finish) (o : Ota)
    → o.ble.active ≡ true
    → ((firmware_ota_ble_finish f o).0.ble ≡ no_session)
      × ((firmware_ota_ble_finish f o).0.busy ≡ false)
      × ((firmware_ota_ble_finish f o).0.boot_chosen
          ≡ (if is_ok (firmware_ota_ble_finish f o).1 then true else o.boot_chosen))
firmware_ota_ble_finish_ends f o active =
    finish_cases
      (λ p.
        (p.0.ble ≡ no_session)
        × (p.0.busy ≡ false)
        × (p.0.boot_chosen ≡ (if is_ok p.1 then true else o.boot_chosen)))
      f o (λ inactive. cc)
      (λ q e incomplete started err same.
        let (empty, free, kept) = released true f.stored q in simp err (empty, free, kept ∙ same))
      (λ c.
        let (empty, free, kept) = released false f.stored _ in
        (empty, free, kept ∙ set_state-boot_chosen f.stored ready _))
