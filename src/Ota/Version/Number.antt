-- ===== src/Ota/Version/Number.antt =====
-- The numbers of a version text: they do not overflow, and a printed version is read back.
use gtw_jalles_websoket_blue.Prelude.{
  ℕ, zero, suc, ◌+◌, ◌-◌, ◌*◌, ◌/◌, ◌%◌, ◌^◌, ◌≤◌, ◌<◌, ◌≡◌, ◌↔◌, refl, sym, ap, ◌∙◌, true, false,
  Option, none, some, List, [], ◌∷◌, ◌++◌, ltb, ◌==◌, get_or, inl, inr, subst, All, All-append,
  Bool-cases, arith,
}
use native.Mathlib.Nat.{pow-suc}
use gtw_jalles_websoket_blue.Text.{print_number}
use gtw_jalles_websoket_blue.Ota.Version.{
  is_digit, read_number, after_number, parse_parts, Version, version_of, parse_version,
  max_before_digit,
}

-- The text of a version.
unfoldable pub print_version : Version → List ℕ
print_version v =
    print_number 8 v.major (46 ∷ print_number 8 v.minor (46 ∷ print_number 8 v.patch []))

-- One digit more.
read_digit :
    (value d : ℕ) (text : List ℕ)
    → d < 10
    → value ≤ max_before_digit
    → read_number value ((48 + d) ∷ text) ≡ read_number (value * 10 + d) text
unfolding read_number
read_digit value d text small low =
    let digit : is_digit (48 + d) ≡ true = ground arith in
    let fits : ltb 1000000 value ≡ false = ground arith in
    let part : value * 10 + (48 + d - 48) ≡ value * 10 + d = omega arith in
    rw (digit, fits, part) refl

-- What is read of a printed number: the number.
read-print_number :
    (fuel n : ℕ) (text : List ℕ)
    → n < 10 ^ fuel
    → n ≤ 10000009
    → read_number 0 (print_number fuel n text) ≡ read_number n text
unfolding print_number
read-print_number zero n text h small = ap (λ v. read_number v text) (omega arith)
read-print_number (suc fuel) n text h small = elim (Bool-cases (ltb n 10)) [
  | inl one_digit ↦ rw one_digit (
      read_digit 0 n text (ground arith) (omega arith) ∙ ap (λ v. read_number v text) (omega arith))
  | inr more_digits ↦ rw more_digits (
      read-print_number fuel (n / 10) ((48 + n % 10) ∷ text) (omega (arith, pow-suc 10 fuel))
        (omega arith)
      ∙ read_digit (n / 10) (n % 10) text (omega arith) (omega arith)
      ∙ ap (λ v. read_number v text) (omega arith))
]

-- A printed number begins with a digit.
starts-print_number :
    (fuel n : ℕ) (text : List ℕ)
    → n < 10 ^ suc fuel
    → (d : ℕ) × (rest : List ℕ) × (print_number (suc fuel) n text ≡ (48 + d) ∷ rest) × (d < 10)
unfolding print_number
starts-print_number zero n text h =
    let one_digit : ltb n 10 ≡ true = ground arith in rw one_digit (n, text, refl, omega arith)
starts-print_number (suc fuel) n text h = elim (Bool-cases (ltb n 10)) [
  | inl one_digit ↦ rw one_digit (n, text, refl, ground arith)
  | inr more_digits ↦ rw more_digits (
      starts-print_number fuel (n / 10) ((48 + n % 10) ∷ text)
        (omega (arith, pow-suc 10 fuel, pow-suc 10 (suc fuel))))
]

number_round :
    (left n : ℕ) (parts text : List ℕ)
    → n ≤ 10000009
    → parse_parts (suc left) parts (print_number 8 n text)
      ≡ after_number (λ p t. parse_parts left p t) parts (read_number n text)
unfolding parse_parts
number_round left n parts text small =
    let (d, rest, starts, digit) = starts-print_number 7 n text (omega arith) in
    let first : is_digit (48 + d) ≡ true = ground arith in
    ap (parse_parts (suc left) parts) starts
    ∙ rw first
        (ap (λ t. after_number (λ p u. parse_parts left p u) parts (read_number 0 t)) (sym starts))
    ∙ ap (λ r. after_number (λ p u. parse_parts left p u) parts r)
        (read-print_number 8 n text (omega arith) small)

-- Every version of parts up to 10000009 is read back from its text.
pub parse_version-print_version :
    (v : Version)
    → v.major ≤ 10000009
    → v.minor ≤ 10000009
    → v.patch ≤ 10000009
    → parse_version (print_version v) ≡ some v
unfolding parse_version print_version after_number version_of read_number parse_parts
parse_version-print_version v p q r =
    rw
      (
        number_round 2 v.major [] (46 ∷ print_number 8 v.minor (46 ∷ print_number 8 v.patch [])) p,
        number_round 1 v.minor (v.major ∷ []) (46 ∷ print_number 8 v.patch []) q,
        number_round 0 v.patch (v.major ∷ v.minor ∷ []) [] r,
      )
      refl

abbrev pub IsPart : ℕ → Type 0
IsPart n = n ≤ 10000009

abbrev reading : ℕ → List ℕ → Option (ℕ × List ℕ)
reading n rest = some (n, rest)

value_of : {v n : ℕ} {text rest : List ℕ} → reading v text ≡ reading n rest → v ≡ n
value_of h = cc

-- The value stays small through the loop: the test comes before each digit.
read_number-IsPart :
    (text : List ℕ) (value n : ℕ) (rest : List ℕ)
    → IsPart value
    → read_number value text ≡ some (n, rest)
    → IsPart n
unfolding read_number
read_number-IsPart [] value n rest low h = subst IsPart (value_of h) low
read_number-IsPart (c ∷ text) value n rest low h = elim (Bool-cases (is_digit c)) [
  | inl digit ↦ elim (Bool-cases (ltb 1000000 value)) [
    | inl big ↦ cc (rw (digit, big) at h)
    | inr small ↦
        read_number-IsPart text (value * 10 + (c - 48)) n rest (ground arith)
          (rw (digit, small) at h)
  ]
  | inr other ↦ subst IsPart (value_of (rw other at h)) low
]

-- The parts of a text that is read are the parts before it and more small ones.
abbrev Reads : (List ℕ → List ℕ → Option (List ℕ)) → Type 0
Reads next =
    (parts text out : List ℕ) → All IsPart parts → next parts text ≡ some out → All IsPart out

out_of : {parts out : List ℕ} → some parts ≡ some out → parts ≡ out
out_of h = cc

after_number-Reads :
    (next : List ℕ → List ℕ → Option (List ℕ)) (parts out : List ℕ) (found : Option (ℕ × List ℕ))
    → Reads next
    → All IsPart parts
    → ((n : ℕ) (rest : List ℕ) → found ≡ some (n, rest) → IsPart n)
    → after_number next parts found ≡ some out
    → All IsPart out
unfolding after_number
after_number-Reads next parts out none reads small found h = cc
after_number-Reads next parts out (some (n, [])) reads small found h =
    subst (All IsPart) (out_of h) (All-append IsPart parts (n ∷ []) small (found n [] refl, tt))
after_number-Reads next parts out (some (n, c ∷ rest)) reads small found h =
    elim (Bool-cases (c == 46)) [
      | inl point ↦
          reads (parts ++ n ∷ []) rest out
            (All-append IsPart parts (n ∷ []) small (found n (c ∷ rest) refl, tt)) (rw point at h)
      | inr other ↦ cc (rw other at h)
    ]

parse_parts-Reads : (left : ℕ) → Reads (λ p t. parse_parts left p t)
unfolding parse_parts
parse_parts-Reads zero parts [] out small h = subst (All IsPart) (out_of h) small
parse_parts-Reads zero parts (c ∷ text) out small h = cc
parse_parts-Reads (suc left) parts [] out small h = cc
parse_parts-Reads (suc left) parts (c ∷ text) out small h = elim (Bool-cases (is_digit c)) [
  | inl digit ↦
      after_number-Reads (λ p t. parse_parts left p t) parts out (read_number 0 (c ∷ text))
        (parse_parts-Reads left) small
        (λ n rest e. read_number-IsPart (c ∷ text) 0 n rest (omega arith) e) (rw digit at h)
  | inr other ↦ cc (rw other at h)
]

get_or-IsPart : (parts : List ℕ) (i : ℕ) → All IsPart parts → IsPart (get_or parts i 0)
get_or-IsPart [] i h = omega arith
get_or-IsPart (n ∷ parts) zero h = h.0
get_or-IsPart (n ∷ parts) (suc i) h = get_or-IsPart parts i h.1

abbrev pub IsReadable : Version → Type 0
IsReadable v = IsPart v.major × IsPart v.minor × IsPart v.patch

version_of-IsReadable :
    (found : Option (List ℕ)) (v : Version)
    → ((parts : List ℕ) → found ≡ some parts → All IsPart parts)
    → version_of found ≡ some v
    → IsReadable v
unfolding version_of
version_of-IsReadable none v small h = cc
version_of-IsReadable (some parts) v small h = subst IsReadable same (
  get_or-IsPart parts 0 (small parts refl),
  get_or-IsPart parts 1 (small parts refl),
  get_or-IsPart parts 2 (small parts refl),
)
  where
    same :
        record { major = get_or parts 0 0; minor = get_or parts 1 0; patch = get_or parts 2 0 } ≡ v
    same = cc

-- The versions that `parse_version` reads from some text are exactly those whose parts are at most
-- 10000009; so the 32 bits of a part never overflow.
pub parse_version_iff :
    (v : Version) → ((text : List ℕ) × (parse_version text ≡ some v)) ↔ IsReadable v
unfolding parse_version
parse_version_iff v = (
  λ (text, e).
      version_of-IsReadable (parse_parts 3 [] text) v
        (λ parts f. parse_parts-Reads 3 [] text parts tt f) e,
  λ (p, q, r). (print_version v, parse_version-print_version v p q r),
)
