-- ===== src/Ota/Ble/Inv.antt =====
-- What holds of a session of the update over Bluetooth at any time, and what success means.
use gtw_jalles_websoket_blue.Prelude.{
  ℕ, ◌-◌, ◌≤◌, ◌<◌, ◌≡◌, refl, ap, Bool, true, false, not, ◌||◌, Option, none, some, List, length,
  length-append, ltb, ◌==◌, inl, inr, ◌⊎◌, Bool-cases, arith,
}
use gtw_jalles_websoket_blue.Esp.{EspErr, is_ok}
use gtw_jalles_websoket_blue.Ota.State.{Ota, set_state, no_session}
use gtw_jalles_websoket_blue.Ota.Ble.{
  ble_ota_release, Begin, begin_in, firmware_ota_ble_begin, firmware_ota_ble_write,
}

-- While a session is active it holds the mutex and an open handle, and the bytes received are those
-- in the partition, no more than expected; otherwise the session is empty.
pub record IsActive (o : Ota) : Type 0 where
  pub locked : o.busy ≡ true
  pub opened : o.ble.handle ≡ true
  pub started : o.ble.active ≡ true
  pub counted : o.ble.received_size ≡ length o.flash
  pub bounded : o.ble.received_size ≤ o.ble.expected_size
  pub expected : 0 < o.ble.expected_size

abbrev pub IsSession : Ota → Type 0
IsSession o = IsActive o ⊎ (o.ble ≡ no_session)

pub release-IsSession :
    (fails : Bool) (stored : EspErr) (o : Ota) → IsSession (ble_ota_release fails stored o)
unfolding ble_ota_release set_state
release-IsSession true stored o = elim (Bool-cases (is_ok stored)) [
  | inl kept ↦ simp kept (inr refl)
  | inr lost ↦ simp lost (inr refl)
]
release-IsSession false stored o = inr refl

idle-of_inactive : (o : Ota) → IsSession o → o.ble.active ≡ false → o.ble ≡ no_session
idle-of_inactive o (inl a) h = let started = a.started in cc
idle-of_inactive o (inr idle) h = idle

pub active_of_started : (o : Ota) → IsSession o → o.ble.active ≡ true → IsActive o
active_of_started o (inl a) h = a
active_of_started o (inr idle) h = let empty = ap (λ s. s.active) idle in cc

begin_in-IsSession :
    (partition : Option ℕ) (image_size : ℕ) (b : Begin) (o : Ota)
    → 0 < image_size
    → o.busy ≡ true
    → o.ble ≡ no_session
    → IsSession (begin_in partition image_size b o).0
unfolding begin_in set_state
begin_in-IsSession none image_size b o some_bytes locked idle = inr idle
begin_in-IsSession (some size) image_size b o some_bytes locked idle =
    elim (Bool-cases (ltb size image_size)) [
      | inl big ↦ simp big (inr idle)
      | inr fits ↦ elim (Bool-cases (is_ok b.start)) [
        | inr refused ↦ simp (fits, refused) (release-IsSession true b.stored _)
        | inl started ↦ elim (Bool-cases (is_ok b.stored)) [
          | inl kept ↦
              simp (fits, started, kept)
                (inl (record {
                  locked = locked;
                  opened = refl;
                  started = refl;
                  counted = refl;
                  bounded = omega arith;
                  expected = some_bytes;
                }))
          | inr lost ↦
              simp (fits, started, lost)
                (inl (record {
                  locked = locked;
                  opened = refl;
                  started = refl;
                  counted = refl;
                  bounded = omega arith;
                  expected = some_bytes;
                }))
        ]
      ]
    ]

pub firmware_ota_ble_begin-IsSession :
    (image_size : ℕ) (b : Begin) (o : Ota)
    → IsSession o
    → IsSession (firmware_ota_ble_begin image_size b o).0
unfolding firmware_ota_ble_begin
firmware_ota_ble_begin-IsSession image_size b o v =
    elim (Bool-cases (not o.initialized || not o.ota_capable || image_size == 0)) [
      | inl refused ↦ simp refused v
      | inr allowed ↦ elim (Bool-cases (o.ble.active || o.busy)) [
        | inl taken ↦ simp (allowed, taken) v
        | inr free ↦
            let inactive : o.ble.active ≡ false = ground arith in
            let idle = idle-of_inactive o v inactive in
            simp (allowed, free)
              (begin_in-IsSession b.partition image_size b (record o { busy = true }) (ground arith)
                refl idle)
      ]
    ]

pub firmware_ota_ble_write-IsSession :
    (offset : ℕ) (chunk : List ℕ) (wrote stored : EspErr) (o : Ota)
    → IsSession o
    → IsSession (firmware_ota_ble_write offset chunk wrote stored o).0
unfolding firmware_ota_ble_write
firmware_ota_ble_write-IsSession offset chunk wrote stored o v =
    elim (Bool-cases
      (not o.ble.active || length chunk == 0 || not (offset == o.ble.received_size))) [
        | inl refused ↦ simp refused v
        | inr allowed ↦
            elim (Bool-cases (ltb (o.ble.expected_size - o.ble.received_size) (length chunk))) [
              | inl big ↦ simp (allowed, big) v
              | inr fits ↦ elim (Bool-cases (is_ok wrote)) [
                | inr lost ↦ simp (allowed, fits, lost) (release-IsSession true stored o)
                | inl kept ↦
                    let active : o.ble.active ≡ true = ground arith in
                    let a = active_of_started o v active in
                    simp (allowed, fits, kept)
                      (inl (record {
                        locked = a.locked;
                        opened = a.opened;
                        started = a.started;
                        counted = omega (arith, a.counted, length-append o.flash chunk);
                        bounded = ground (arith, a.bounded);
                        expected = a.expected;
                      }))
              ]
            ]
      ]
