-- ===== src/Config/Survive.antt =====
-- What of the configuration survives a restart.
use gtw_jalles_websoket_blue.Prelude.{
  ℕ, suc, ◌+◌, ◌≤◌, ◌<◌, ◌≡◌, ◌≢◌, refl, ap, sym, ◌∙◌, ◌↔◌, inl, inr, ℤ, pos, negsuc, true, false,
  ◌&&◌, some, List, [], ◌∷◌, length, take, take_all, leb, Bool-cases, arith,
}
use gtw_jalles_websoket_blue.Config.{
  TextKey, ssid_key, password_wifi_key, user_gtw_key, password_gtw_key, Store, Nvs, save_text,
  save_siid_wifi, save_password_wifi, save_uset_gtw, save_password_gtw, save_id_gtw,
  save_id_unidade_gtw, load_found, load_text, load_save_siid_wifi, load_password_wifi,
  load_save_uset_gtw, load_password_gtw, load_id, load_id_gtw, load_id_unidade_gtw, Globals, Boot,
  reconcile_ids, load_config, set_wifi, Saves, set_gateway, is_positive, same_int,
}

not_taken : (n : ℕ) (text : List ℕ) → suc n < length text → [] ≢ take (suc n) text
not_taken n [] h e = absurd (ground arith)
not_taken n (x ∷ text) h e =
    absurd (let size : 0 ≡ suc (length (take n text)) = ap length e in ground arith)

-- A text loaded into a variable of `n + 2` bytes is what was copied into one exactly if it fits.
load_found_iff :
    (n : ℕ) (text : List ℕ)
    → (load_found (some text) (suc (suc n)) [] ≡ take (suc n) text) ↔ (length text ≤ suc n)
unfolding load_found
load_found_iff n text = elim (Bool-cases (leb (length text + 1) (suc (suc n)))) [
  | inl fits ↦
      let short : length text ≤ suc n = ground arith in
      simp fits (λ h. short, λ h. sym (take_all (suc n) text h))
  | inr long ↦
      let over : suc n < length text = ground arith in
      simp long (λ h. absurd (not_taken n text over h), λ h. absurd (omega arith))
]

same_int_refl : (z : ℤ) → same_int z z ≡ true
same_int_refl (pos n) = ground arith
same_int_refl (negsuc n) = ground arith

positive_not_zero : (z : ℤ) → is_positive z ≡ true → same_int z (pos 0) ≡ false
positive_not_zero (pos n) h = ground arith
positive_not_zero (negsuc n) h = refl

-- Positive identifiers that agree are left alone.
reconcile_ids_same :
    (n : Nvs) (g : Globals) (s : Store)
    → g.id_gateway ≡ g.device_id
    → is_positive g.device_id ≡ true
    → reconcile_ids n (g, s) ≡ (g, s)
unfolding reconcile_ids
reconcile_ids_same n g s same positive =
    let agree : same_int g.id_gateway g.device_id ≡ true = simp same (same_int_refl g.device_id) in
    simp (agree, positive, positive_not_zero g.device_id positive) refl

abbrev globals_of : List ℕ → List ℕ → List ℕ → List ℕ → ℤ → Globals
globals_of a c u p id = record {
  wifi_ssid = a;
  wifi_password = c;
  user_name = u;
  user_password = p;
  id_gateway = id;
  device_id = id;
}

rebuilt :
    {a a' c c' u u' p p' : List ℕ} {id : ℤ}
    → a ≡ a'
    → c ≡ c'
    → u ≡ u'
    → p ≡ p'
    → globals_of a c u p id ≡ globals_of a' c' u' p' id
rebuilt ea ec eu ep = cc

module _ (n : TextKey → Nvs) (sv : Saves) (b : Boot) (ssid password user user_password : List ℕ)
    (id : ℤ) (state : Globals × Store)
    (saves : (k : TextKey) → ((n k).opens && (n k).stores) ≡ true)
    (saves_texts : (k : TextKey) → ((sv.texts k).opens && (sv.texts k).stores) ≡ true)
    (saves_ids : ((sv.id_gtw.opens && sv.id_gtw.stores)
        && (sv.id_unidade.opens && sv.id_unidade.stores))
      ≡ true)
    (opens : (k : TextKey) → b.texts_open k ≡ true)
    (ids_open : (b.id_gtw_opens && b.id_unidade_opens) ≡ true)
    (positive : is_positive id ≡ true) where
  abbrev configured : Globals × Store
  configured = set_gateway sv user user_password id (set_wifi n ssid password state)

  stored_texts :
      (configured.1.texts ssid_key ≡ some ssid)
      × (configured.1.texts password_wifi_key ≡ some password)
      × (configured.1.texts user_gtw_key ≡ some user)
      × (configured.1.texts password_gtw_key ≡ some user_password)
  unfolding set_gateway set_wifi save_text save_siid_wifi save_password_wifi save_uset_gtw
      save_password_gtw save_id_gtw save_id_unidade_gtw
  stored_texts =
      let ids : (sv.id_gtw.opens && sv.id_gtw.stores ≡ true)
          × (sv.id_unidade.opens && sv.id_unidade.stores ≡ true) =
        ground arith in
      simp
        (
          ids.0,
          ids.1,
          saves ssid_key,
          saves password_wifi_key,
          saves_texts user_gtw_key,
          saves_texts password_gtw_key,
        )
        (refl, refl, refl, refl)

  stored_ids : (configured.1.id_gtw ≡ some id) × (configured.1.id_unidade ≡ some id)
  unfolding set_gateway set_wifi save_text save_siid_wifi save_password_wifi save_uset_gtw
      save_password_gtw save_id_gtw save_id_unidade_gtw
  stored_ids =
      let ids : (sv.id_gtw.opens && sv.id_gtw.stores ≡ true)
          × (sv.id_unidade.opens && sv.id_unidade.stores ≡ true) =
        ground arith in
      simp (ids.0, ids.1) (refl, refl)

  -- What a restart loads: each text if it fits, and the identifier.
  loaded_lem : (load_config b configured.1).0 ≡ record {
    wifi_ssid = load_found (some ssid) 33 [];
    wifi_password = load_found (some password) 65 [];
    user_name = load_found (some user) 64 [];
    user_password = load_found (some user_password) 65 [];
    id_gateway = id;
    device_id = id;
  }
  unfolding load_config load_text load_save_siid_wifi load_password_wifi load_save_uset_gtw
      load_password_gtw load_id_gtw load_id_unidade_gtw load_id
  loaded_lem =
      let open_ids : (b.id_gtw_opens ≡ true) × (b.id_unidade_opens ≡ true) = ground arith in
      simp
        (
          open_ids.0,
          open_ids.1,
          opens ssid_key,
          opens password_wifi_key,
          opens user_gtw_key,
          opens password_gtw_key,
          stored_texts.0,
          stored_texts.1,
          stored_texts.2,
          stored_texts.3,
          stored_ids.0,
          stored_ids.1,
        )
        (ap (λ (x : Globals × Store). x.0)
          (reconcile_ids_same b.save_id _ configured.1 refl positive))

  -- If NVS opens and stores everything, the configuration set by the commands GtwWifi and GtwConfig with
  -- a positive identifier is the one that the next start loads exactly when every text fits its
  -- variable: 32 characters of SSID, 64 of the network's password, 63 of the user and 64 of its password.
  pub set_gateway-set_wifi_survives_iff :
      ((load_config b (set_gateway sv user user_password id (set_wifi n ssid password state)).1).0
        ≡ (set_gateway sv user user_password id (set_wifi n ssid password state)).0)
      ↔ ((length ssid ≤ 32)
          × (length password ≤ 64)
          × (length user ≤ 63)
          × (length user_password ≤ 64))
  unfolding set_gateway set_wifi
  set_gateway-set_wifi_survives_iff = (
    λ same.
        let e = sym loaded_lem ∙ same in
        (
          (load_found_iff 31 ssid).0 (ap (λ (g : Globals). g.wifi_ssid) e),
          (load_found_iff 63 password).0 (ap (λ (g : Globals). g.wifi_password) e),
          (load_found_iff 62 user).0 (ap (λ (g : Globals). g.user_name) e),
          (load_found_iff 63 user_password).0 (ap (λ (g : Globals). g.user_password) e),
        ),
    λ fit.
        loaded_lem
        ∙ rebuilt ((load_found_iff 31 ssid).1 (fit.0)) ((load_found_iff 63 password).1 (fit.1))
            ((load_found_iff 62 user).1 (fit.2)) ((load_found_iff 63 user_password).1 (fit.3)),
  )
