-- ===== src/Ota/Version.antt =====
-- Version texts: `parse_version`, `compare_versions` and `versions_equal` of main/firmware_ota.c. A
-- text is the list of its characters without the final zero; no pointer is null here.
pub mod Number
pub mod Order
use gtw_jalles_websoket_blue.Prelude.{
  ℕ, zero, suc, ◌+◌, ◌-◌, ◌*◌, Bool, true, false, ◌&&◌, Option, none, some, List, [], ◌∷◌, ◌++◌, ℤ,
  pos, negsuc, ltb, leb, ◌==◌, if◌then◌else◌, get_or,
}
use gtw_jalles_websoket_blue.Text.{same_text}

abbrev pub max_before_digit : ℕ
max_before_digit = 1000000

abbrev pub is_digit : ℕ → Bool
is_digit c = leb 48 c && leb c 57

-- The inner loop from the value read so far: the value, and the text from the cursor on.
unfoldable pub read_number : ℕ → List ℕ → Option (ℕ × List ℕ)
read_number value [] = some (value, [])
read_number value (c ∷ text) =
    let rest = read_number (value * 10 + (c - 48)) text in
    if is_digit c then if ltb max_before_digit value then none else rest else some (value, c ∷ text)

-- From `parts[index] = value` to the end of the round: the end of the text, a point and `next`, or
-- anything else.
unfoldable pub after_number :
    (List ℕ → List ℕ → Option (List ℕ)) → List ℕ → Option (ℕ × List ℕ) → Option (List ℕ)
after_number next parts none = none
after_number next parts (some (value, [])) = some (parts ++ value ∷ [])
after_number next parts (some (value, c ∷ text)) =
    if c == 46 then next (parts ++ value ∷ []) text else none

-- The loop with `left` rounds to go and the parts read before.
unfoldable pub parse_parts : ℕ → List ℕ → List ℕ → Option (List ℕ)
parse_parts zero parts [] = some parts
parse_parts zero parts (c ∷ text) = none
parse_parts (suc left) parts [] = none
parse_parts (suc left) parts (c ∷ text) =
    if is_digit c
    then after_number (λ p t. parse_parts left p t) parts (read_number 0 (c ∷ text))
    else none

-- The array that the function fills; the parts that the text does not have are 0.
pub record Version : Type 0 where
  pub major : ℕ
  pub minor : ℕ
  pub patch : ℕ

unfoldable pub version_of : Option (List ℕ) → Option Version
version_of none = none
version_of (some parts) =
    some (record { major = get_or parts 0 0; minor = get_or parts 1 0; patch = get_or parts 2 0 })

unfoldable pub parse_version : List ℕ → Option Version
parse_version text = version_of (parse_parts 3 [] text)

-- One round of the comparison, with the result of the rest.
abbrev pub compare_part : ℕ → ℕ → ℤ → ℤ
compare_part l r rest = if ltb r l then pos 1 else if ltb l r then negsuc 0 else rest

unfoldable pub compare_parsed : Option Version → Option Version → ℤ
compare_parsed (some l) (some r) =
    compare_part l.major r.major
      (compare_part l.minor r.minor (compare_part l.patch r.patch (pos 0)))
compare_parsed (some l) none = pos 0
compare_parsed none r = pos 0

unfoldable pub compare_versions : List ℕ → List ℕ → ℤ
compare_versions left right = compare_parsed (parse_version left) (parse_version right)

unfoldable pub equal_parsed : Bool → Option Version → Option Version → Bool
equal_parsed texts (some l) (some r) =
    l.major == r.major && l.minor == r.minor && l.patch == r.patch
equal_parsed texts (some l) none = texts
equal_parsed texts none r = texts

unfoldable pub versions_equal : List ℕ → List ℕ → Bool
versions_equal left right =
    equal_parsed (same_text left right) (parse_version left) (parse_version right)
