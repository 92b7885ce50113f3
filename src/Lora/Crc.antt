-- ===== src/Lora/Crc.antt =====
-- The checksum of the radio frames: `stream_crc16` of main/lora.c and `lora_crc16` of main/main.c.
-- A `uint16_t` is a number below 2 ^ 16, and each shift is cut to it.
pub mod Detect
use Prim.Native.Nat.{bit_and, bit_xor}
use gtw_jalles_websoket_blue.Prelude.{
  ℕ, zero, suc, ◌*◌, ◌%◌, ◌^◌, List, [], ◌∷◌, ◌==◌, if◌then◌else◌,
}

-- One round of the inner loop: the polynomial is 0x1021.
unfoldable pub crc_bit : ℕ → ℕ
crc_bit crc =
    if bit_and crc 0x8000 == 0 then crc * 2 % 2 ^ 16 else bit_xor (crc * 2) 0x1021 % 2 ^ 16

unfoldable pub crc_bits : ℕ → ℕ → ℕ
unfolding crc_bit
crc_bits zero crc = crc
crc_bits (suc n) crc = crc_bits n (crc_bit crc)

-- One byte: `crc ^= data[i] << 8`, then the eight rounds.
unfoldable pub crc_byte : ℕ → ℕ → ℕ
unfolding crc_bits
crc_byte crc byte = crc_bits 8 (bit_xor crc (byte * 2 ^ 8))

unfoldable pub crc_from : ℕ → List ℕ → ℕ
unfolding crc_byte
crc_from crc [] = crc
crc_from crc (byte ∷ bytes) = crc_from (crc_byte crc byte) bytes

-- The receiver's checksum.
unfoldable pub stream_crc16 : List ℕ → ℕ
unfolding crc_from
stream_crc16 bytes = crc_from 0xFFFF bytes

-- The sender's checksum, written out a second time in the source.
unfoldable pub lora_crc16 : List ℕ → ℕ
unfolding crc_from
lora_crc16 bytes = crc_from 0xFFFF bytes
