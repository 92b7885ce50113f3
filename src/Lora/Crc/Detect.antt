-- ===== src/Lora/Crc/Detect.antt =====
-- What the checksum detects: each round is reversible, so two messages that differ in one byte have
-- different checksums.
use Prim.Native.Nat.{bit_xor}
use gtw_jalles_websoket_blue.Prelude.{
  ℕ, zero, suc, ◌+◌, ◌-◌, ◌*◌, ◌/◌, ◌%◌, ◌^◌, ◌<◌, ◌≡◌, ◌≢◌, refl, sym, ap, ◌∙◌, List, [], ◌∷◌, ltb,
  ◌++◌, All, arith, ◌==◌, if◌then◌else◌, inl, inr, Bool-cases,
}
use gtw_jalles_websoket_blue.Prelude.Bits.{
  bit_xor-parity, bit_xor_cancel, bit_xor_injective, bit_xor_high, bit_xor-lt, bit_and_bit,
}
use gtw_jalles_websoket_blue.Lora.Crc.{
  crc_bit, crc_bits, crc_byte, crc_from, stream_crc16, lora_crc16,
}

abbrev pub IsByte : ℕ → Type 0
IsByte b = b < 256

crc_bit_low : (c : ℕ) → c < 2 ^ 15 → crc_bit c ≡ c * 2
unfolding crc_bit
crc_bit_low c h = ground (arith, bit_and_bit 15 c)

crc_bit_high : (d : ℕ) → d < 2 ^ 15 → crc_bit (2 ^ 15 + d) ≡ bit_xor (d * 2) 0x1021
unfolding crc_bit
crc_bit_high d h = ground (
  arith,
  bit_and_bit 15 (2 ^ 15 + d),
  bit_xor_high 16 1 (d * 2) 0x1021 (omega arith) (omega arith),
  bit_xor-lt 16 (d * 2) 0x1021 (omega arith) (omega arith),
)

-- The round backwards: the polynomial is odd, so the lowest digit tells which branch was taken.
uncrc_bit : ℕ → ℕ
uncrc_bit d = if d % 2 == 0 then d / 2 else 2 ^ 15 + bit_xor d 0x1021 / 2

uncrc_bit-crc_bit : (c : ℕ) → c < 2 ^ 16 → uncrc_bit (crc_bit c) ≡ c
unfolding uncrc_bit
uncrc_bit-crc_bit c h = elim (Bool-cases (ltb c (2 ^ 15))) [
  | inl low ↦ ground (arith, crc_bit_low c)
  | inr high ↦
      let d : ℕ = c - 2 ^ 15 in
      let split : c ≡ 2 ^ 15 + d = ground arith in
      rw split (
        ground
          (arith, crc_bit_high d, bit_xor-parity (d * 2) 0x1021, bit_xor_cancel (d * 2) 0x1021))
]

crc_bit-lt : (c : ℕ) → crc_bit c < 2 ^ 16
unfolding crc_bit
crc_bit-lt c = ground arith

crc_bits-lt : (n c : ℕ) → c < 2 ^ 16 → crc_bits n c < 2 ^ 16
unfolding crc_bits
crc_bits-lt zero c h = h
crc_bits-lt (suc n) c h = crc_bits-lt n (crc_bit c) (crc_bit-lt c)

crc_bits_injective : (n c d : ℕ) → c < 2 ^ 16 → d < 2 ^ 16 → crc_bits n c ≡ crc_bits n d → c ≡ d
unfolding crc_bits
crc_bits_injective zero c d hc hd e = e
crc_bits_injective (suc n) c d hc hd e =
    sym (uncrc_bit-crc_bit c hc)
    ∙ ap uncrc_bit (crc_bits_injective n (crc_bit c) (crc_bit d) (crc_bit-lt c) (crc_bit-lt d) e)
    ∙ uncrc_bit-crc_bit d hd

xor_byte-lt : (c b : ℕ) → c < 2 ^ 16 → IsByte b → bit_xor c (b * 2 ^ 8) < 2 ^ 16
xor_byte-lt c b hc hb = bit_xor-lt 16 c (b * 2 ^ 8) hc (omega arith)

pub crc_byte-lt : (c b : ℕ) → c < 2 ^ 16 → IsByte b → crc_byte c b < 2 ^ 16
unfolding crc_byte
crc_byte-lt c b hc hb = crc_bits-lt 8 (bit_xor c (b * 2 ^ 8)) (xor_byte-lt c b hc hb)

-- For one byte, the checksum before it can be had back from the one after.
crc_byte_injective :
    (b c d : ℕ) → IsByte b → c < 2 ^ 16 → d < 2 ^ 16 → crc_byte c b ≡ crc_byte d b → c ≡ d
crc_byte_injective b c d hb hc hd e =
    let mixed =
      crc_bits_injective 8 (bit_xor c (b * 2 ^ 8)) (bit_xor d (b * 2 ^ 8)) (xor_byte-lt c b hc hb)
        (xor_byte-lt d b hd hb) (unfold crc_byte in e) in
    sym (bit_xor_cancel c (b * 2 ^ 8))
    ∙ ap (λ t. bit_xor t (b * 2 ^ 8)) mixed
    ∙ bit_xor_cancel d (b * 2 ^ 8)

-- From one checksum, different bytes lead to different checksums.
crc_byte_separates :
    (c a b : ℕ) → c < 2 ^ 16 → IsByte a → IsByte b → crc_byte c a ≡ crc_byte c b → a ≡ b
crc_byte_separates c a b hc ha hb e =
    let mixed =
      crc_bits_injective 8 (bit_xor c (a * 2 ^ 8)) (bit_xor c (b * 2 ^ 8)) (xor_byte-lt c a hc ha)
        (xor_byte-lt c b hc hb) (unfold crc_byte in e) in
    let same : a * 2 ^ 8 ≡ b * 2 ^ 8 = bit_xor_injective c (a * 2 ^ 8) (b * 2 ^ 8) mixed in
    omega arith

pub crc_from-lt :
    (c : ℕ) (bytes : List ℕ) → c < 2 ^ 16 → All IsByte bytes → crc_from c bytes < 2 ^ 16
unfolding crc_from
crc_from-lt c [] hc h = hc
crc_from-lt c (b ∷ bytes) hc h = crc_from-lt (crc_byte c b) bytes (crc_byte-lt c b hc h.0) h.1

crc_from_injective :
    (bytes : List ℕ) (c d : ℕ)
    → All IsByte bytes
    → c < 2 ^ 16
    → d < 2 ^ 16
    → crc_from c bytes ≡ crc_from d bytes
    → c ≡ d
unfolding crc_from
crc_from_injective [] c d h hc hd e = e
crc_from_injective (b ∷ bytes) c d h hc hd e = crc_byte_injective b c d h.0 hc hd (
    crc_from_injective bytes (crc_byte c b) (crc_byte d b) h.1 (crc_byte-lt c b hc h.0)
      (crc_byte-lt d b hd h.0) e)

crc_from_separates :
    (before : List ℕ) (a b : ℕ) (after : List ℕ) (c : ℕ)
    → All IsByte before
    → IsByte a
    → IsByte b
    → All IsByte after
    → c < 2 ^ 16
    → crc_from c (before ++ a ∷ after) ≡ crc_from c (before ++ b ∷ after)
    → a ≡ b
unfolding crc_from
crc_from_separates [] a b after c hp ha hb hs hc e = crc_byte_separates c a b hc ha hb (
    crc_from_injective after (crc_byte c a) (crc_byte c b) hs (crc_byte-lt c a hc ha)
      (crc_byte-lt c b hc hb) e)
crc_from_separates (x ∷ before) a b after c hp ha hb hs hc e =
    crc_from_separates before a b after (crc_byte c x) hp.1 ha hb hs (crc_byte-lt c x hc hp.0) e

-- Two messages of bytes that differ in exactly one byte have different checksums.
pub stream_crc16_detects :
    (before : List ℕ) (a b : ℕ) (after : List ℕ)
    → All IsByte before
    → IsByte a
    → IsByte b
    → All IsByte after
    → a ≢ b
    → stream_crc16 (before ++ a ∷ after) ≢ stream_crc16 (before ++ b ∷ after)
unfolding stream_crc16
stream_crc16_detects before a b after hp ha hb hs differ e =
    differ (crc_from_separates before a b after 0xFFFF hp ha hb hs (omega arith) e)

-- The checksum of bytes fits the two bytes of the frame that carry it.
pub stream_crc16-lt : (bytes : List ℕ) → All IsByte bytes → stream_crc16 bytes < 2 ^ 16
unfolding stream_crc16
stream_crc16-lt bytes h = crc_from-lt 0xFFFF bytes (omega arith) h

-- The sender and the receiver compute the same checksum.
pub lora_crc16-eq-stream_crc16 : (bytes : List ℕ) → lora_crc16 bytes ≡ stream_crc16 bytes
unfolding lora_crc16 stream_crc16
lora_crc16-eq-stream_crc16 bytes = refl
