-- ===== src/Config/Tests.antt =====
-- The configuration at concrete inputs.
use gtw_jalles_websoket_blue.Prelude.{
  ◌≡◌, refl, ◌↔◌, ◌≤◌, pos, true, none, [], ◌∷◌, length, replicate,
}
use gtw_jalles_websoket_blue.Config.{
  Store, Nvs, Globals, Boot, Saves, load_config, set_wifi, set_gateway, reconcile_ids, load_text,
  load_found, load_id, load_id_gtw, load_id_unidade_gtw, load_save_siid_wifi, load_password_wifi,
  load_save_uset_gtw, load_password_gtw, save_text, save_siid_wifi, save_password_wifi,
}
use gtw_jalles_websoket_blue.Config.Survive.{set_gateway-set_wifi_survives_iff}

abbrev works : Nvs
works = record { opens = true; stores = true }

abbrev saves : Saves
saves = record { texts = λ k. works; id_gtw = works; id_unidade = works }

abbrev boot : Boot
boot = record {
  texts_open = λ k. true;
  id_gtw_opens = true;
  id_unidade_opens = true;
  save_id = works;
}

abbrev empty : Globals × Store
empty = (
  record {
    wifi_ssid = [];
    wifi_password = [];
    user_name = [];
    user_password = [];
    id_gateway = pos 0;
    device_id = pos 0;
  },
  record { texts = λ k. none; id_gtw = none; id_unidade = none },
)

-- An SSID of 33 characters is cut in memory and gone after a restart.
long_ssid_lost :
    ((load_config boot (set_wifi (λ k. works) (replicate 33 65) [] empty).1).0.wifi_ssid ≡ [])
    × (length (set_wifi (λ k. works) (replicate 33 65) [] empty).0.wifi_ssid ≡ 32)
unfolding load_config load_text load_found load_id load_id_gtw load_id_unidade_gtw
    load_save_siid_wifi load_password_wifi load_save_uset_gtw load_password_gtw save_text
    save_siid_wifi save_password_wifi set_wifi reconcile_ids
long_ssid_lost = (refl, refl)

set_gateway-set_wifi_survives_iff_example :
    ((load_config boot
        (set_gateway saves
          (65 ∷ [])
          (66 ∷ [])
          (pos 3)
          (set_wifi (λ k. works) (67 ∷ 68 ∷ []) (69 ∷ []) empty)).1).0
      ≡ (set_gateway saves
          (65 ∷ [])
          (66 ∷ [])
          (pos 3)
          (set_wifi (λ k. works) (67 ∷ 68 ∷ []) (69 ∷ []) empty)).0)
    ↔ ((2 ≤ 32) × (1 ≤ 64) × (1 ≤ 63) × (1 ≤ 64))
set_gateway-set_wifi_survives_iff_example =
    set_gateway-set_wifi_survives_iff (λ k. works) saves boot (67 ∷ 68 ∷ []) (69 ∷ []) (65 ∷ [])
      (66 ∷ []) (pos 3) empty (λ k. refl) (λ k. refl) refl (λ k. refl) refl refl
