-- ===== src/Ota/Version/Order.antt =====
-- What `compare_versions` decides: a strict order, beside which `versions_equal` is the equality.
use gtw_jalles_websoket_blue.Prelude.{
  ℕ, ◌<◌, ◌≡◌, ◌↔◌, ◌⊎◌, Bool, true, Option, none, some, List, pos, negsuc, arith, refl, sym, subst,
}
use gtw_jalles_websoket_blue.Ota.Version.{
  Version, parse_version, compare_parsed, compare_versions, equal_parsed, versions_equal,
}

-- The order of versions: by the first part that differs.
abbrev pub Newer : Version → Version → Type 0
Newer l r =
    (r.major < l.major)
    ⊎ ((l.major ≡ r.major) × ((r.minor < l.minor) ⊎ ((l.minor ≡ r.minor) × (r.patch < l.patch))))

compare_parsed-Newer : (l r : Version) → (compare_parsed (some l) (some r) ≡ pos 1) ↔ Newer l r
unfolding compare_parsed
compare_parsed-Newer l r = (λ h. ground arith, λ h. ground arith)

-- What it is for a text to name a newer version than another one.
abbrev pub Names : List ℕ → Version → Type 0
Names text v = parse_version text ≡ some v

abbrev pub NewerText : List ℕ → List ℕ → Type 0
NewerText left right = (l : Version) × (r : Version) × Names left l × Names right r × Newer l r

some_injective : {v w : Version} → some v ≡ some w → v ≡ w
some_injective e = cc

compare_parsed_iff :
    (left right : Option Version)
    → (compare_parsed left right ≡ pos 1)
      ↔ ((l : Version) × (r : Version) × (left ≡ some l) × (right ≡ some r) × Newer l r)
unfolding compare_parsed
compare_parsed_iff none right = (λ h. cc, λ (l, r, e, f, n). cc)
compare_parsed_iff (some l) none = (λ h. cc, λ (l', r, e, f, n). cc)
compare_parsed_iff (some l) (some r) = (
  λ h. (l, r, refl, refl, (compare_parsed-Newer l r).0 h),
  λ (l', r', e, f, n). (compare_parsed-Newer l r).1 (
      subst (λ v. Newer v r) (sym (some_injective e))
        (subst (Newer l') (sym (some_injective f)) n)),
)

-- `compare_versions` is 1 exactly when both texts name versions and the first one's is newer.
pub compare_versions_iff :
    (left right : List ℕ) → (compare_versions left right ≡ pos 1) ↔ NewerText left right
unfolding compare_versions
compare_versions_iff left right = compare_parsed_iff (parse_version left) (parse_version right)

compare_parsed_trans :
    (a b c : Option Version)
    → compare_parsed a b ≡ pos 1
    → compare_parsed b c ≡ pos 1
    → (compare_parsed a c ≡ pos 1) × (compare_parsed c a ≡ negsuc 0)
unfolding compare_parsed
compare_parsed_trans none b c p q = cc
compare_parsed_trans (some a) none c p q = cc
compare_parsed_trans (some a) (some b) none p q = cc
compare_parsed_trans (some a) (some b) (some c) p q = ground arith

-- A version newer than one newer than a third is newer than the third, and the third is older than
-- it; so a chain of updates never comes back to a version.
pub compare_versions_trans :
    (a b c : List ℕ)
    → compare_versions a b ≡ pos 1
    → compare_versions b c ≡ pos 1
    → (compare_versions a c ≡ pos 1) × (compare_versions c a ≡ negsuc 0)
unfolding compare_versions
compare_versions_trans a b c p q =
    compare_parsed_trans (parse_version a) (parse_version b) (parse_version c) p q

equal_parsed_iff :
    (same : Bool) (l r : Version)
    → (equal_parsed same (some l) (some r) ≡ true)
      ↔ ((compare_parsed (some l) (some r) ≡ pos 0) × (compare_parsed (some r) (some l) ≡ pos 0))
unfolding equal_parsed compare_parsed
equal_parsed_iff same l r = (λ h. ground arith, λ h. ground arith)

-- On texts that name versions, `versions_equal` holds exactly when `compare_versions` is 0 both ways,
-- whatever the spelling.
pub versions_equal_iff :
    (left right : List ℕ) (l r : Version)
    → Names left l
    → Names right r
    → (versions_equal left right ≡ true)
      ↔ ((compare_versions left right ≡ pos 0) × (compare_versions right left ≡ pos 0))
unfolding versions_equal compare_versions
versions_equal_iff left right l r e f = rw (e, f) (equal_parsed_iff _ l r)
