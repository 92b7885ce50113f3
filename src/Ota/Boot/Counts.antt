-- ===== src/Ota/Boot/Counts.antt =====
-- The count of boots and the versions over the starts of main/firmware_ota.c.
use gtw_jalles_websoket_blue.Prelude.{
  ℕ, zero, suc, ◌+◌, ◌%◌, ◌^◌, ◌≡◌, refl, ap, ◌∙◌, Bool, true, false, some, List, [], ◌∷◌, length,
  take, ◌==◌, if◌then◌else◌, arith, subst,
}
use gtw_jalles_websoket_blue.Esp.{EspErr, esp_ok, is_ok}
use gtw_jalles_websoket_blue.Text.{same_text, same_text_self}
use gtw_jalles_websoket_blue.Ota.State.{pending}
use gtw_jalles_websoket_blue.Ota.Https.{unknown_text}
use gtw_jalles_websoket_blue.Ota.Boot.{
  FwNvs, FwInfo, FwBoot, then_put, text_or_none, or_phase, with_phase, default_phase, loaded,
  note_version, count_of, note_boot, firmware_ota_init, boots,
}

-- The version that runs, as `s_info` holds it.
abbrev pub running : FwBoot → List ℕ
running b = take 31 (if length b.version == 0 then unknown_text else b.version)

-- NVS and the SDK do what is asked.
pub record IsWorking (b : FwBoot) : Type 0 where
  pub opened : is_ok b.opened ≡ true
  pub put_current : is_ok b.put_current ≡ true
  pub put_previous : is_ok b.put_previous ≡ true
  pub put_zero : is_ok b.put_zero ≡ true
  pub count_read : is_ok b.count_read ≡ true
  pub put_count : is_ok b.put_count ≡ true
  pub put_schema : is_ok b.put_schema ≡ true
  pub put_state : is_ok b.put_state ≡ true
  pub committed : is_ok b.committed ≡ true
  pub mutex : b.mutex ≡ true

-- After `k` starts of the version that runs, with the version before it.
pub record Counts (b : FwBoot) (before : List ℕ) (k : ℕ) (s : FwNvs × FwInfo) : Type 0 where
  pub stored_count : s.0.boot_count ≡ some (k % 2 ^ 32)
  pub stored_current : s.0.current ≡ some (running b)
  pub stored_previous : s.0.previous ≡ some before
  pub count : s.1.boot_count ≡ k % 2 ^ 32
  pub current : s.1.ota.current ≡ running b
  pub previous : s.1.previous ≡ before
  pub initialized : s.1.ota.initialized ≡ true

then_put_ok :
    (answer : EspErr) (f : FwNvs → FwNvs) (n : FwNvs)
    → is_ok answer ≡ true
    → then_put answer f (n, esp_ok) ≡ (f n, esp_ok)
unfolding then_put
then_put_ok answer f n good = simp good refl

note_boot_lem :
    (b : FwBoot) (i : FwInfo) (n : FwNvs) (k : ℕ)
    → IsWorking b
    → count_of n.boot_count ≡ k
    → note_boot b (i, (n, esp_ok)) ≡ (
      (
        record n { boot_count = some ((k + 1) % 2 ^ 32); state = some i.ota.state },
        record i {
          boot_count = (k + 1) % 2 ^ 32;
          ota = record i.ota { initialized = true; busy = false };
        },
      ),
      esp_ok,
    )
unfolding note_boot then_put
note_boot_lem b i n k w e =
    simp (w.count_read, w.put_count, w.put_schema, w.put_state, w.committed, w.mutex, e) refl

-- The version that runs is never the empty text.
running_some :
    (version : List ℕ)
    → (c : ℕ) × (cs : List ℕ) × (take 31 (if length version == 0 then unknown_text else version)
        ≡ c ∷ cs)
running_some [] = (_, _, refl)
running_some (x ∷ xs) =
    let known : (length (x ∷ xs) == 0) ≡ false = ground arith in
    (x, take 30 xs, ap (λ (t : Bool). take 31 (if t then unknown_text else x ∷ xs)) known)

noted_new :
    (b : FwBoot) (c : ℕ) (cs : List ℕ) (n : FwNvs) (i : FwInfo)
    → IsWorking b
    → same_text (c ∷ cs) i.ota.current ≡ false
    → note_version b (c ∷ cs) n i ≡ (
      with_phase pending (record i { previous = c ∷ cs }),
      (
        record n { previous = some (c ∷ cs); current = some i.ota.current; boot_count = some 0 },
        esp_ok,
      ),
    )
unfolding note_version then_put
noted_new b c cs n i w new = simp (new, w.put_previous, w.put_current, w.put_zero) refl

noted_same :
    (b : FwBoot) (c : ℕ) (cs : List ℕ) (n : FwNvs) (i : FwInfo)
    → same_text (c ∷ cs) i.ota.current ≡ true
    → note_version b (c ∷ cs) n i
      ≡ (with_phase (or_phase n.state (default_phase b.capable)) i, (n, esp_ok))
unfolding note_version
noted_same b c cs n i same = simp same refl

note_boot-Counts :
    (b : FwBoot) (j : FwInfo) (m : FwNvs) (before : List ℕ) (k : ℕ)
    → IsWorking b
    → count_of m.boot_count ≡ k % 2 ^ 32
    → m.current ≡ some (running b)
    → m.previous ≡ some before
    → j.ota.current ≡ running b
    → j.previous ≡ before
    → Counts b before (suc k) (note_boot b (j, (m, esp_ok))).0
note_boot-Counts b j m before k w counted stored past now was =
    let wraps : (k % 2 ^ 32 + 1) % 2 ^ 32 ≡ suc k % 2 ^ 32 = omega arith in
    rw (note_boot_lem b j m (k % 2 ^ 32) w counted) (record {
      stored_count = ap some wraps;
      stored_current = stored;
      stored_previous = past;
      count = wraps;
      current = now;
      previous = was;
      initialized = refl;
    })

first_start :
    (b : FwBoot) (n : FwNvs) (i : FwInfo) (c : ℕ) (cs : List ℕ)
    → IsWorking b
    → n.current ≡ some (c ∷ cs)
    → same_text (c ∷ cs) (running b) ≡ false
    → Counts b (c ∷ cs) 1 (firmware_ota_init b n i).0
unfolding firmware_ota_init loaded
first_start b n i c cs w e new =
    simp (w.opened, e, noted_new b c cs n (loaded b n i) w new)
      (note_boot-Counts b _ _ (c ∷ cs) 0 w refl refl refl refl refl)

next_start :
    (b : FwBoot) (n : FwNvs) (i : FwInfo) (before : List ℕ) (k : ℕ)
    → IsWorking b
    → Counts b before k (n, i)
    → Counts b before (suc k) (firmware_ota_init b n i).0
unfolding firmware_ota_init loaded
next_start b n i before k w v =
    let (c, cs, e) = running_some b.version in
    let held : n.current ≡ some (c ∷ cs) = v.stored_current ∙ ap some e in
    let same : same_text (c ∷ cs) (running b) ≡ true =
      ap (same_text (c ∷ cs)) e ∙ same_text_self (c ∷ cs) in
    simp (w.opened, held, noted_same b c cs n (loaded b n i) same)
      (note_boot-Counts b _ _ before k w (ap count_of v.stored_count) v.stored_current
        v.stored_previous refl (ap text_or_none v.stored_previous))

more_starts :
    (more : ℕ) (b : FwBoot) (n : FwNvs) (i : FwInfo) (before : List ℕ) (k : ℕ)
    → IsWorking b
    → Counts b before k (n, i)
    → Counts b before (more + k) (boots more b n i)
unfolding boots
more_starts zero b n i before k w v = subst (λ (m : ℕ). Counts b before m (n, i)) (base k) v
  where
    base : (a : ℕ) → a ≡ 0 + a
    base a = omega arith
more_starts (suc more) b n i before k w v =
    subst (λ (m : ℕ). Counts b before m (boots (suc more) b n i)) (shift more k)
      (more_starts more b _ _ before (suc k) w (next_start b n i before k w v))
  where
    shift : (a b : ℕ) → a + suc b ≡ suc a + b
    shift a b = omega arith

-- While NVS and the SDK work: after `more` further starts of a version that follows another one, the
-- count of boots is that of this version alone, up to its wrap; NVS holds this version as the current
-- one and the other as the previous one, as `s_info` does.
pub boots-Counts :
    (more : ℕ) (b : FwBoot) (n : FwNvs) (i : FwInfo) (c : ℕ) (cs : List ℕ)
    → IsWorking b
    → n.current ≡ some (c ∷ cs)
    → same_text (c ∷ cs) (running b) ≡ false
    → Counts b
        (c ∷ cs)
        (more + 1)
        (boots more b (firmware_ota_init b n i).0.0 (firmware_ota_init b n i).0.1)
boots-Counts more b n i c cs w e new =
    more_starts more b _ _ (c ∷ cs) 1 w (first_start b n i c cs w e new)
