-- ===== src/Config.antt =====
-- The configuration: the globals of main/config.c, their copies in NVS with the functions of
-- main/salvar_nvs.c and the `save_` functions of main/main.c, and what `app_main` loads.
pub mod Survive
mod Floats
mod Tests
use gtw_jalles_websoket_blue.Prelude.{
  ℕ, suc, ◌+◌, ◌-◌, ℤ, pos, negsuc, Bool, true, false, not, ◌&&◌, Option, none, some, List, [], ◌∷◌,
  length, take, ltb, leb, ◌==◌, if◌then◌else◌,
}

-- The keys of the texts in the namespace "storage".
pub data TextKey : Type 0 where
  ssid_key password_wifi_key user_gtw_key password_gtw_key : TextKey

abbrev pub key_number : TextKey → ℕ
key_number ssid_key = 0
key_number password_wifi_key = 1
key_number user_gtw_key = 2
key_number password_gtw_key = 3

-- What NVS holds. The two identifiers have namespaces of their own.
pub record Store : Type 0 where
  pub texts : TextKey → Option (List ℕ)
  pub id_gtw : Option ℤ
  pub id_unidade : Option ℤ

-- The answers of NVS to a save: whether the namespace opens, and whether the value is stored.
pub record Nvs : Type 0 where
  pub opens : Bool
  pub stores : Bool

unfoldable pub save_text : TextKey → Nvs → List ℕ → Store → Store
save_text key n text s =
    if n.opens && n.stores
    then record s { texts = λ k. if key_number k == key_number key then some text else s.texts k }
    else s

unfoldable pub save_siid_wifi : Nvs → List ℕ → Store → Store
save_siid_wifi = save_text ssid_key

unfoldable pub save_password_wifi : Nvs → List ℕ → Store → Store
save_password_wifi = save_text password_wifi_key

unfoldable pub save_uset_gtw : Nvs → List ℕ → Store → Store
save_uset_gtw = save_text user_gtw_key

unfoldable pub save_password_gtw : Nvs → List ℕ → Store → Store
save_password_gtw = save_text password_gtw_key

unfoldable pub save_id_gtw : Nvs → ℤ → Store → Store
save_id_gtw n state s = if n.opens && n.stores then record s { id_gtw = some state } else s

unfoldable pub save_id_unidade_gtw : Nvs → ℤ → Store → Store
save_id_unidade_gtw n state s =
    if n.opens && n.stores then record s { id_unidade = some state } else s

-- The text and its final zero must fit into `max_len` bytes; otherwise the variable stays as it is.
unfoldable pub load_found : Option (List ℕ) → ℕ → List ℕ → List ℕ
load_found none max_len current = current
load_found (some text) max_len current = if leb (length text + 1) max_len then text else current

unfoldable pub load_text : TextKey → Bool → ℕ → List ℕ → Store → List ℕ
load_text key opens max_len current s =
    if opens then load_found (s.texts key) max_len current else current

unfoldable pub load_save_siid_wifi : Bool → ℕ → List ℕ → Store → List ℕ
load_save_siid_wifi = load_text ssid_key

unfoldable pub load_password_wifi : Bool → ℕ → List ℕ → Store → List ℕ
load_password_wifi = load_text password_wifi_key

unfoldable pub load_save_uset_gtw : Bool → ℕ → List ℕ → Store → List ℕ
load_save_uset_gtw = load_text user_gtw_key

unfoldable pub load_password_gtw : Bool → ℕ → List ℕ → Store → List ℕ
load_password_gtw = load_text password_gtw_key

unfoldable pub load_id : Bool → Option ℤ → ℤ
load_id false found = pos 0
load_id true none = pos 0
load_id true (some state) = state

unfoldable pub load_id_gtw : Bool → Store → ℤ
load_id_gtw opens s = load_id opens s.id_gtw

unfoldable pub load_id_unidade_gtw : Bool → Store → ℤ
load_id_unidade_gtw opens s = load_id opens s.id_unidade

-- `wifi_ssid[33]`, `wifi_password[65]`, `userNameHTTPs[64]`, `passwordHTTPs[65]`, `ID_GATEWAY`,
-- `DEVICE_ID`.
pub record Globals : Type 0 where
  pub wifi_ssid : List ℕ
  pub wifi_password : List ℕ
  pub user_name : List ℕ
  pub user_password : List ℕ
  pub id_gateway : ℤ
  pub device_id : ℤ

abbrev pub ssid_size : ℕ
ssid_size = 33

abbrev pub wifi_password_size : ℕ
wifi_password_size = 65

abbrev pub user_size : ℕ
user_size = 64

abbrev pub user_password_size : ℕ
user_password_size = 65

abbrev pub is_positive : ℤ → Bool
is_positive (pos n) = ltb 0 n
is_positive (negsuc n) = false

abbrev pub same_int : ℤ → ℤ → Bool
same_int (pos m) (pos n) = m == n
same_int (negsuc m) (negsuc n) = m == n
same_int _ _ = false

-- Which namespaces open while `app_main` loads, and the answers to the save of an identifier.
pub record Boot : Type 0 where
  pub texts_open : TextKey → Bool
  pub id_gtw_opens : Bool
  pub id_unidade_opens : Bool
  pub save_id : Nvs

-- The two identifiers are made to agree.
unfoldable pub reconcile_ids : Nvs → Globals × Store → Globals × Store
reconcile_ids n (g, s) =
    if is_positive g.device_id && not (same_int g.id_gateway g.device_id)
    then (record g { id_gateway = g.device_id }, save_id_gtw n g.device_id s)
    else if same_int g.device_id (pos 0) && is_positive g.id_gateway
    then (record g { device_id = g.id_gateway }, save_id_unidade_gtw n g.id_gateway s)
    else (g, s)

-- The part of `app_main` that loads the configuration, the globals being empty.
unfoldable pub load_config : Boot → Store → Globals × Store
load_config b s = reconcile_ids b.save_id (
  record {
    wifi_ssid = load_save_siid_wifi (b.texts_open ssid_key) ssid_size [] s;
    wifi_password = load_password_wifi (b.texts_open password_wifi_key) wifi_password_size [] s;
    user_name = load_save_uset_gtw (b.texts_open user_gtw_key) user_size [] s;
    user_password = load_password_gtw (b.texts_open password_gtw_key) user_password_size [] s;
    id_gateway = load_id_gtw b.id_gtw_opens s;
    device_id = load_id_unidade_gtw b.id_unidade_opens s;
  },
  s,
)

-- What `strlcpy` keeps of a text in a variable of `size` bytes.
abbrev pub strlcpy : ℕ → List ℕ → List ℕ
strlcpy size text = take (size - 1) text

-- What the command GtwWifi does with its two texts.
unfoldable pub set_wifi : (TextKey → Nvs) → List ℕ → List ℕ → Globals × Store → Globals × Store
set_wifi n ssid password (g, s) = (
  record g {
    wifi_ssid = strlcpy ssid_size ssid;
    wifi_password = strlcpy wifi_password_size password;
  },
  save_password_wifi (n password_wifi_key) password (save_siid_wifi (n ssid_key) ssid s),
)

-- The answers of NVS to the command GtwConfig.
pub record Saves : Type 0 where
  pub texts : TextKey → Nvs
  pub id_gtw : Nvs
  pub id_unidade : Nvs

-- What the command GtwConfig does with its texts and its identifier.
unfoldable pub set_gateway : Saves → List ℕ → List ℕ → ℤ → Globals × Store → Globals × Store
set_gateway n user password id (g, s) = (
  record g {
    user_name = strlcpy user_size user;
    user_password = strlcpy user_password_size password;
    id_gateway = id;
    device_id = id;
  },
  save_id_unidade_gtw n.id_unidade id (
      save_id_gtw n.id_gtw id (
        save_password_gtw (n.texts password_gtw_key) password
          (save_uset_gtw (n.texts user_gtw_key) user s))),
)
