-- ===== src/Gateway/Patch/Backoff.antt =====
-- The wait of `patch_task` between two attempts.
use gtw_jalles_websoket_blue.Prelude.{
  ℕ, zero, suc, ◌+◌, ◌-◌, ◌*◌, ◌%◌, ◌^◌, ◌≤◌, ◌≡◌, ap, sym, ◌∙◌, ltb, min, arith, inl, inr,
  Bool-cases,
}
use native.Mathlib.Nat.{pow-suc}
use gtw_jalles_websoket_blue.Gateway.Patch.{backoff_loop, patch_backoff_delay_ms}

pow-positive : (n : ℕ) → 1 ≤ 2 ^ n
pow-positive zero = omega arith
pow-positive (suc n) = omega (arith, pow-suc 2 n, pow-positive n)

-- A factor of at least one does not make a number smaller.
le-mul : (d p : ℕ) → 1 ≤ p → d ≤ d * p
le-mul d zero some_power = absurd (omega arith)
le-mul d (suc p) some_power = omega arith

doubled : (d left : ℕ) → d * 2 ^ suc left ≡ d * 2 * 2 ^ left
doubled d left = rw pow-suc (omega arith)

backoff_loop_lem : (left d : ℕ) → d ≤ 30000 → backoff_loop left d ≡ min (d * 2 ^ left) 30000
unfolding backoff_loop
backoff_loop_lem zero d small = omega arith
backoff_loop_lem (suc left) d small = elim (Bool-cases (ltb d 30000)) [
  | inr limit ↦
      let most : d ≡ 30000 = ground arith in
      rw limit (omega (arith, le-mul d (2 ^ suc left) (pow-positive (suc left))))
  | inl below ↦ simp below (
      backoff_loop_lem left (min (d * 2) 30000) (omega arith)
      ∙ elim (Bool-cases (ltb (d * 2) 30000)) [
        | inl low ↦
            let same : min (d * 2) 30000 ≡ d * 2 = ground arith in
            rw same (ap (λ t. min t 30000) (sym (doubled d left)))
        | inr high ↦
            let same : min (d * 2) 30000 ≡ 30000 = ground arith in
            rw same (
              ground (
                arith,
                doubled d left,
                le-mul 30000 (2 ^ left) (pow-positive left),
                le-mul (d * 2) (2 ^ left) (pow-positive left),
              ))
      ])
]

-- The wait is 2 seconds, doubled with each failure after the first up to 30 seconds, and less than a
-- second more.
pub patch_backoff_delay_ms_lem :
    (random failures : ℕ)
    → patch_backoff_delay_ms random failures ≡ min (2000 * 2 ^ (failures - 1)) 30000 + random % 1000
unfolding patch_backoff_delay_ms
patch_backoff_delay_ms_lem random failures =
    ap (λ t. t + random % 1000) (backoff_loop_lem (failures - 1) 2000 (omega arith))
