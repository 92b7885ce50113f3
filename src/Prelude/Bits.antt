-- ===== src/Prelude/Bits.antt =====
-- Laws of `bit_xor` and of a one-bit mask at variables, from the digit recursion.
use Prim.Native.Nat.{ℕ, zero, suc, ◌+◌, ◌*◌, ◌/◌, ◌%◌, ◌^◌, ◌≤◌, ◌<◌, min, bit_and, bit_xor}
use Prim.Native.Nat.{digits, bitwise, differ, bit_and-bitwise, bit_xor-bitwise}
use mathlib.Core.Path.{◌≡◌, refl, sym, ap, ap₂, ◌∙◌}
use native.Mathlib.Omega.{arith}
use native.Mathlib.Nat.{pow-suc, mul_comm, div-div-eq-div-mul}

-- More fuel than the first number changes nothing in the recursion on digits.
module _ (z : ℕ → ℕ) (f : ℕ → ℕ → ℕ) where
  digits-zero : (fuel b : ℕ) → digits z f fuel 0 b ≡ z b
  digits-zero zero b = refl
  digits-zero (suc fuel) b = refl

  digits_more :
      (a b less more : ℕ) → a ≤ less → less ≤ more → digits z f more a b ≡ digits z f less a b
  digits_more zero b less more p q = digits-zero more b ∙ sym (digits-zero less b)
  digits_more (suc a) b zero more p q = absurd (omega arith)
  digits_more (suc a) b (suc less) zero p q = absurd (omega arith)
  digits_more (suc a) b (suc less) (suc more) p q =
      ap (λ t. t * 2 + f (suc a % 2) (b % 2))
        (digits_more (suc a / 2) (b / 2) less more (omega arith) (omega arith))

  -- The lowest digit, and the rest.
  bitwise_split :
      (a b : ℕ)
      → bitwise z f (suc a) b ≡ bitwise z f (suc a / 2) (b / 2) * 2 + f (suc a % 2) (b % 2)
  bitwise_split a b =
      ap (λ t. t * 2 + f (suc a % 2) (b % 2))
        (digits_more (suc a / 2) (b / 2) (suc a / 2) a (omega arith) (omega arith))

bit_and-halves :
    (a b : ℕ) → bit_and (suc a) b ≡ bit_and (suc a / 2) (b / 2) * 2 + min (suc a % 2) (b % 2)
bit_and-halves a b =
    bit_and-bitwise (suc a) b
    ∙ bitwise_split (λ t. 0) min a b
    ∙ ap (λ t. t * 2 + min (suc a % 2) (b % 2)) (sym (bit_and-bitwise (suc a / 2) (b / 2)))

differ-mod : (a b : ℕ) → differ (a % 2) (b % 2) ≡ (a + b) % 2
differ-mod a b = go (a % 2) (b % 2) (omega arith) (omega arith) (omega arith)
  where
    go : (x y : ℕ) → x < 2 → y < 2 → (a + b) % 2 ≡ (x + y) % 2 → differ x y ≡ (a + b) % 2
    go zero y p q e = omega arith
    go (suc zero) zero p q e = omega arith
    go (suc zero) (suc zero) p q e = omega arith
    go (suc zero) (suc (suc y)) p q e = absurd (omega arith)
    go (suc (suc x)) y p q e = absurd (omega arith)

-- `^` one binary digit at a time.
pub bit_xor_step : (a b : ℕ) → bit_xor a b ≡ bit_xor (a / 2) (b / 2) * 2 + (a + b) % 2
bit_xor_step zero b =
    let whole = bit_xor-bitwise 0 b in let half = bit_xor-bitwise 0 (b / 2) in omega arith
bit_xor_step (suc a) b =
    bit_xor-bitwise (suc a) b
    ∙ bitwise_split (λ t. t) differ a b
    ∙ ap₂ (λ t d. t * 2 + d) (sym (bit_xor-bitwise (suc a / 2) (b / 2))) (differ-mod (suc a) b)

-- The lowest digit of an exclusive or.
pub bit_xor-parity : (a b : ℕ) → bit_xor a b % 2 ≡ (a + b) % 2
bit_xor-parity a b = omega (arith, bit_xor_step a b)

xor_zero_fuel : (n a : ℕ) → a ≤ n → bit_xor a 0 ≡ a
xor_zero_fuel n zero h = refl
xor_zero_fuel zero (suc a) h = absurd (omega arith)
xor_zero_fuel (suc n) (suc a) h =
    omega (arith, bit_xor_step (suc a) 0, xor_zero_fuel n (suc a / 2) (omega arith))

pub bit_xor-zero : (a : ℕ) → bit_xor a 0 ≡ a
bit_xor-zero a = xor_zero_fuel a a (omega arith)

xor_cancel_fuel : (n a b : ℕ) → a ≤ n → b ≤ n → bit_xor (bit_xor a b) b ≡ a
xor_cancel_fuel zero zero zero p q = refl
xor_cancel_fuel zero zero (suc b) p q = absurd (omega arith)
xor_cancel_fuel zero (suc a) b p q = absurd (omega arith)
xor_cancel_fuel (suc n) a b p q =
    let half : bit_xor a b / 2 ≡ bit_xor (a / 2) (b / 2) = omega (arith, bit_xor_step a b) in
    omega (
      arith,
      bit_xor_step a b,
      bit_xor_step (bit_xor a b) b,
      ap (λ (t : ℕ). bit_xor t (b / 2)) half,
      xor_cancel_fuel n (a / 2) (b / 2) (omega arith) (omega arith),
    )

-- The same operand twice is undone.
pub bit_xor_cancel : (a b : ℕ) → bit_xor (bit_xor a b) b ≡ a
bit_xor_cancel a b = xor_cancel_fuel (a + b) a b (omega arith) (omega arith)

xor_comm_fuel : (n a b : ℕ) → a ≤ n → b ≤ n → bit_xor a b ≡ bit_xor b a
xor_comm_fuel zero zero zero p q = refl
xor_comm_fuel zero zero (suc b) p q = absurd (omega arith)
xor_comm_fuel zero (suc a) b p q = absurd (omega arith)
xor_comm_fuel (suc n) a b p q = omega (
  arith,
  bit_xor_step a b,
  bit_xor_step b a,
  xor_comm_fuel n (a / 2) (b / 2) (omega arith) (omega arith),
)

pub bit_xor_comm : (a b : ℕ) → bit_xor a b ≡ bit_xor b a
bit_xor_comm a b = xor_comm_fuel (a + b) a b (omega arith) (omega arith)

-- With one operand fixed, the other can be had back.
pub bit_xor_injective : (c a b : ℕ) → bit_xor c a ≡ bit_xor c b → a ≡ b
bit_xor_injective c a b e =
    cc (bit_xor_comm c a, bit_xor_comm c b, bit_xor_cancel a c, bit_xor_cancel b c)

-- A power of two once more, times a factor.
pow_doubled : (k factor : ℕ) → factor * 2 ^ suc k ≡ factor * 2 ^ k * 2
pow_doubled k factor = rw pow-suc (omega arith)

-- Digits above the second operand are left alone.
pub bit_xor_high :
    (k q a b : ℕ) → a < 2 ^ k → b < 2 ^ k → bit_xor (q * 2 ^ k + a) b ≡ q * 2 ^ k + bit_xor a b
bit_xor_high zero q a b p r =
    let none_a : a ≡ 0 = omega arith in
    let none_b : b ≡ 0 = omega arith in
    rw (none_a, none_b) (omega (arith, bit_xor-zero (q * 2 ^ 0 + 0)))
bit_xor_high (suc k) q a b p r = ground (
  arith,
  bit_xor_step (q * 2 ^ suc k + a) b,
  bit_xor_step a b,
  pow_doubled k q,
  pow-suc 2 k,
  bit_xor_high k q (a / 2) (b / 2) (omega (arith, pow-suc 2 k)) (omega (arith, pow-suc 2 k)),
)

pub bit_xor-lt : (k a b : ℕ) → a < 2 ^ k → b < 2 ^ k → bit_xor a b < 2 ^ k
bit_xor-lt zero a b p r =
    let none_a : a ≡ 0 = omega arith in
    let none_b : b ≡ 0 = omega arith in rw (none_a, none_b) (omega arith)
bit_xor-lt (suc k) a b p r = omega (
  arith,
  bit_xor_step a b,
  pow-suc 2 k,
  bit_xor-lt k (a / 2) (b / 2) (omega (arith, pow-suc 2 k)) (omega (arith, pow-suc 2 k)),
)

no_common_digit : (fuel a : ℕ) → digits (λ t. 0) min fuel a 0 ≡ 0
no_common_digit zero zero = refl
no_common_digit zero (suc a) = refl
no_common_digit (suc fuel) zero = refl
no_common_digit (suc fuel) (suc a) = omega (arith, no_common_digit fuel (suc a / 2))

-- The lowest digit of a conjunction, and the rest.
bit_and_step : (a b : ℕ) → bit_and a b ≡ bit_and (a / 2) (b / 2) * 2 + min (a % 2) (b % 2)
bit_and_step zero b =
    let whole = bit_and-bitwise 0 b in let half = bit_and-bitwise 0 (b / 2) in omega arith
bit_and_step (suc a) b = bit_and-halves a b

and-zero : (a : ℕ) → bit_and a 0 ≡ 0
and-zero a = bit_and-bitwise a 0 ∙ no_common_digit a a

-- A one-bit mask reads that bit.
pub bit_and_bit : (k a : ℕ) → bit_and a (2 ^ k) ≡ a / 2 ^ k % 2 * 2 ^ k
bit_and_bit zero a = omega (arith, bit_and_step a 1, and-zero (a / 2))
bit_and_bit (suc k) a =
    let p : ℕ = 2 ^ k in
    let half : 2 ^ suc k / 2 ≡ p = omega (arith, pow-suc 2 k) in
    let same : a / 2 ^ suc k ≡ a / 2 / p =
      rw pow-suc (rw (mul_comm p 2) (sym (div-div-eq-div-mul a 2 p))) in
    omega (
      arith,
      bit_and_step a (2 ^ suc k),
      ap (λ (t : ℕ). bit_and (a / 2) t) half,
      bit_and_bit k (a / 2),
      ap (λ (t : ℕ). t % 2 * 2 ^ suc k) same,
      pow-suc 2 k,
      ap (λ (t : ℕ). a / 2 / p % 2 * t) (pow-suc 2 k),
    )
