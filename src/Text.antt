-- ===== src/Text.antt =====
-- The C library's comparisons of texts, as the sources call them: `strncmp` against a prefix,
-- `strcmp` for equality, `strstr` for a part; and the decimal numbers that `%d` prints. A text is
-- the list of its characters without the final zero.
use gtw_jalles_websoket_blue.Prelude.{
  ℕ, zero, suc, ◌+◌, ◌/◌, ◌%◌, ◌≤◌, ◌≡◌, refl, Bool, true, false, ◌&&◌, ◌||◌, List, [], ◌∷◌, ltb,
  ◌==◌, if◌then◌else◌, length, inl, inr, Bool-cases, arith,
}

unfoldable pub starts_with : List ℕ → List ℕ → Bool
starts_with [] text = true
starts_with (c ∷ pre) [] = false
starts_with (c ∷ pre) (d ∷ text) = c == d && starts_with pre text

unfoldable pub same_text : List ℕ → List ℕ → Bool
same_text [] [] = true
same_text [] (d ∷ right) = false
same_text (c ∷ left) [] = false
same_text (c ∷ left) (d ∷ right) = c == d && same_text left right

pub same_text_self : (text : List ℕ) → same_text text text ≡ true
unfolding same_text
same_text_self [] = refl
same_text_self (c ∷ text) =
    let here : (c == c) ≡ true = ground arith in rw (here, same_text_self text) refl

unfoldable pub contains : List ℕ → List ℕ → Bool
contains part [] = starts_with part []
contains part (c ∷ text) = starts_with part (c ∷ text) || contains part text

-- What the C library reads of an array: the characters before the first zero.
unfoldable pub c_string : List ℕ → List ℕ
c_string [] = []
c_string (c ∷ text) = if c == 0 then [] else c ∷ c_string text

-- The text of a number in base ten, in front of another text; `fuel` digits at most.
unfoldable pub print_number : ℕ → ℕ → List ℕ → List ℕ
print_number zero n text = text
print_number (suc fuel) n text =
    let rest = print_number fuel (n / 10) ((48 + n % 10) ∷ text) in
    if ltb n 10 then (48 + n) ∷ text else rest

pub print_number_short :
    (fuel n : ℕ) (text : List ℕ) → length (print_number fuel n text) ≤ fuel + length text
unfolding print_number
print_number_short zero n text = omega arith
print_number_short (suc fuel) n text = elim (Bool-cases (ltb n 10)) [
  | inl last ↦ simp last (omega arith)
  | inr more ↦ simp more (omega (arith, print_number_short fuel (n / 10) ((48 + n % 10) ∷ text)))
]

pub c_string_short : (text : List ℕ) → length (c_string text) ≤ length text
unfolding c_string
c_string_short [] = omega arith
c_string_short (c ∷ text) = elim (Bool-cases (c == 0)) [
  | inl zero_byte ↦ simp zero_byte (omega arith)
  | inr char ↦ simp char (omega (arith, c_string_short text))
]
