-- ===== src/Config/Floats.antt =====
-- `nvs_salvar_float` and `nvs_resgatar_float` of main/salvar_nvs.c, which nothing calls: a number is
-- kept as a text of at most 24 characters in the namespace "armazenamento". The numbers, `%f` and
-- `strtof` are arguments.
use gtw_jalles_websoket_blue.Prelude.{
  ℕ, ◌+◌, ◌≡◌, refl, Bool, true, false, not, ◌&&◌, Option, none, some, List, length, take,
  length-take, leb, ◌==◌, if◌then◌else◌, arith,
}
use gtw_jalles_websoket_blue.Text.{same_text, same_text_self}

-- The texts of the namespace, by key.
abbrev pub Armazenamento : Type 0
Armazenamento = List ℕ → Option (List ℕ)

-- The answers of NVS: whether the namespace opens, the text is taken, and the commit succeeds.
pub record FloatNvs : Type 0 where
  pub opens : Bool
  pub stores : Bool
  pub commits : Bool

-- What `snprintf` leaves in the 25 bytes of `Valor_str`.
abbrev pub valor_str : List ℕ → List ℕ
valor_str printed = take 24 printed

-- False where ESP_ERROR_CHECK ends the program.
unfoldable pub nvs_salvar_float :
    {A : Type 0} → (A → List ℕ) → FloatNvs → List ℕ → A → Armazenamento → Armazenamento × Bool
nvs_salvar_float print n float_key valor s =
    if not n.opens then (s, false) else if not n.stores then (s, false) else (
      λ key. if same_text key float_key then some (valor_str (print valor)) else s key,
      n.commits,
    )

-- `strtof` gives a number and how many characters it has read.
unfoldable pub parsed : {A : Type 0} → (List ℕ → A × ℕ) → A → List ℕ → A
parsed strtof valor_f text =
    if not ((strtof text).1 == 0) && (strtof text).1 == length text
    then (strtof text).0
    else valor_f

-- A text that does not fit into 25 bytes with its final zero is not read.
unfoldable pub found : {A : Type 0} → (List ℕ → A × ℕ) → A → Option (List ℕ) → A
found strtof valor_f none = valor_f
found strtof valor_f (some text) =
    if leb (length text + 1) 25 then parsed strtof valor_f text else valor_f

-- `minus_one` is the answer where there is no number.
unfoldable pub nvs_resgatar_float :
    {A : Type 0} → (List ℕ → A × ℕ) → A → Bool → List ℕ → Armazenamento → A
nvs_resgatar_float strtof minus_one opens key s =
    if opens then found strtof minus_one (s key) else minus_one

-- A number that NVS takes is read back as what `strtof` makes of its text, cut to 24 characters; the
-- other keys keep what they held.
nvs_resgatar_float-nvs_salvar_float :
    {A : Type 0} (print : A → List ℕ) (strtof : List ℕ → A × ℕ) (minus_one valor : A) (n : FloatNvs)
    (key : List ℕ) (s : Armazenamento)
    → n.opens ≡ true
    → n.stores ≡ true
    → (nvs_resgatar_float strtof minus_one true key (nvs_salvar_float print n key valor s).0
        ≡ parsed strtof minus_one (valor_str (print valor)))
      × ((other : List ℕ)
          → same_text other key ≡ false
          → (nvs_salvar_float print n key valor s).0 other ≡ s other)
unfolding nvs_resgatar_float nvs_salvar_float found
nvs_resgatar_float-nvs_salvar_float print strtof minus_one valor n key s opens stores =
    let fits : leb (length (valor_str (print valor)) + 1) 25 ≡ true =
      ground (arith, length-take 24 (print valor)) in
    (
      simp (opens, stores, same_text_self key, fits) refl,
      λ other differs. simp (opens, stores, differs) refl,
    )
