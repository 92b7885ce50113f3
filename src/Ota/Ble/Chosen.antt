-- ===== src/Ota/Ble/Chosen.antt =====
-- The new partition is chosen to boot only by the end of a complete update.
use gtw_jalles_websoket_blue.Prelude.{
  ℕ, ◌-◌, ◌≡◌, refl, sym, ap, ◌∙◌, true, false, not, ◌||◌, Option, none, some, List, [], ◌∷◌, ◌++◌,
  length, ltb, ◌==◌, inl, inr, Bool-cases,
}
use gtw_jalles_websoket_blue.Esp.{EspErr, is_ok}
use gtw_jalles_websoket_blue.Ota.State.{download, Ota}
use gtw_jalles_websoket_blue.Ota.Ble.{
  Begin, begin_in, firmware_ota_ble_begin, firmware_ota_ble_write, Finish, firmware_ota_ble_finish,
  firmware_ota_ble_abort,
}
use gtw_jalles_websoket_blue.Ota.Ble.Inv.{IsSession, active_of_started}
use gtw_jalles_websoket_blue.Ota.Ble.Ending.{
  IsComplete, finish_cases, released, set_state-boot_chosen,
}
use gtw_jalles_websoket_blue.Ota.Ble.Run.{
  Call, begin, write, finish, abort, step, run, step-IsSession,
}

begin_in-boot_chosen :
    (partition : Option ℕ) (image_size : ℕ) (b : Begin) (o : Ota)
    → (begin_in partition image_size b o).0.boot_chosen ≡ o.boot_chosen
unfolding begin_in
begin_in-boot_chosen none image_size b o = refl
begin_in-boot_chosen (some size) image_size b o = elim (Bool-cases (ltb size image_size)) [
  | inl big ↦ simp big refl
  | inr fits ↦ elim (Bool-cases (is_ok b.start)) [
    | inl started ↦ simp (fits, started) (set_state-boot_chosen b.stored download _)
    | inr refused ↦
        let (empty, free, kept) = released true b.stored _ in
        simp (fits, refused) (kept ∙ set_state-boot_chosen b.stored download _)
  ]
]

begin-boot_chosen :
    (image_size : ℕ) (b : Begin) (o : Ota)
    → (firmware_ota_ble_begin image_size b o).0.boot_chosen ≡ o.boot_chosen
unfolding firmware_ota_ble_begin
begin-boot_chosen image_size b o =
    elim (Bool-cases (not o.initialized || not o.ota_capable || image_size == 0)) [
      | inl refused ↦ simp refused refl
      | inr allowed ↦ elim (Bool-cases (o.ble.active || o.busy)) [
        | inl taken ↦ simp (allowed, taken) refl
        | inr free ↦ simp (allowed, free) (begin_in-boot_chosen b.partition image_size b _)
      ]
    ]

write-boot_chosen :
    (offset : ℕ) (chunk : List ℕ) (wrote stored : EspErr) (o : Ota)
    → (firmware_ota_ble_write offset chunk wrote stored o).0.boot_chosen ≡ o.boot_chosen
unfolding firmware_ota_ble_write
write-boot_chosen offset chunk wrote stored o =
    elim (Bool-cases
      (not o.ble.active || length chunk == 0 || not (offset == o.ble.received_size))) [
        | inl refused ↦ simp refused refl
        | inr allowed ↦
            elim (Bool-cases (ltb (o.ble.expected_size - o.ble.received_size) (length chunk))) [
              | inl big ↦ simp (allowed, big) refl
              | inr fits ↦ elim (Bool-cases (is_ok wrote)) [
                | inl kept ↦ simp (allowed, fits, kept) refl
                | inr lost ↦
                    let (empty, free, kept) = released true stored o in
                    simp (allowed, fits, lost) kept
              ]
            ]
      ]

abort-boot_chosen :
    (stored : EspErr) (o : Ota) → (firmware_ota_ble_abort stored o).boot_chosen ≡ o.boot_chosen
unfolding firmware_ota_ble_abort
abort-boot_chosen stored o = elim (Bool-cases o.ble.active) [
  | inl active ↦ let (empty, free, kept) = released true stored o in simp active kept
  | inr inactive ↦ simp inactive refl
]

-- A call that ends a complete update: all the bytes are in the partition, and every check passed.
pub record IsCompletion (c : Call) (o : Ota) : Type 0 where
  pub answers : Finish
  pub is_finish : c ≡ finish answers
  pub complete : IsComplete answers o
  pub all_bytes : length o.flash ≡ o.ble.expected_size

finish-chooses :
    (f : Finish) (o : Ota)
    → IsSession o
    → o.boot_chosen ≡ false
    → (firmware_ota_ble_finish f o).0.boot_chosen ≡ true
    → IsCompletion (finish f) o
finish-chooses f o v before after =
    finish_cases (λ p. p.0.boot_chosen ≡ true → IsCompletion (finish f) o) f o (λ inactive h. cc)
      (λ q e incomplete active err same h. let (empty, free, kept) = released true f.stored q in cc)
      (λ c h. record {
        answers = f;
        is_finish = refl;
        complete = c;
        all_bytes = sym (active_of_started o v c.started).counted ∙ c.whole;
      })
      after

step-chooses :
    (c : Call) (o : Ota)
    → IsSession o
    → o.boot_chosen ≡ false
    → (step c o).boot_chosen ≡ true
    → IsCompletion c o
unfolding step
step-chooses (begin image_size b) o v before h = let kept = begin-boot_chosen image_size b o in cc
step-chooses (write offset chunk wrote stored) o v before h =
    let kept = write-boot_chosen offset chunk wrote stored o in cc
step-chooses (finish f) o v before h = finish-chooses f o v before h
step-chooses (abort stored) o v before h = let kept = abort-boot_chosen stored o in cc

-- Through any sequence of Bluetooth calls, the partition that was not chosen to boot becomes chosen
-- only if one of the calls ends a complete update: with the calls before it all the expected bytes
-- are in the partition, and the image is valid, of this project and accepted.
pub run_chooses :
    (calls : List Call) (o : Ota)
    → IsSession o
    → o.boot_chosen ≡ false
    → (run calls o).boot_chosen ≡ true
    → (before : List Call) × (c : Call) × (after : List Call) × (calls ≡ before ++ c ∷ after)
      × IsCompletion c (run before o)
unfolding run
run_chooses [] o v before h = cc
run_chooses (c ∷ calls) o v unset h = elim (Bool-cases (step c o).boot_chosen) [
  | inl chosen ↦ ([], c, calls, refl, step-chooses c o v unset chosen)
  | inr not_yet ↦
      let (before, d, after, split, done) =
        run_chooses calls (step c o) (step-IsSession c o v) not_yet h in
      (c ∷ before, d, after, ap (λ t. c ∷ t) split, done)
]
