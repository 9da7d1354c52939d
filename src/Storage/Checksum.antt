-- ===== src/Storage/Checksum.antt =====
-- `CalculateChecksum` and `ValidateChecksum` of chronicler/v2/types.go: the CRC-32 of IEEE 802.3,
-- as hash/crc32 defines it, bit by bit.
use Prim.Native.Nat.{bit_xor}
use mathlib.Core.List.{foldl}
use hydraide.Base.{
  ℕ, zero, suc, ◌/◌, ◌%◌, ◌^◌, ◌<◌, ◌≡◌, refl, [], ◌∷◌, Bool, true, ◌==◌, if◌then◌else◌, arith,
  ==_refl,
}
use hydraide.Base.Bytes.{Bytes, bound}

crc_bit : ℕ → ℕ
crc_bit c = if c % 2 == 1 then bit_xor (c / 2) 0xEDB88320 else c / 2

crc_bits : ℕ → ℕ → ℕ
crc_bits zero c = c
crc_bits (suc n) c = crc_bits n (crc_bit c)

crc_byte : ℕ → ℕ → ℕ
crc_byte c b = crc_bits 8 (bit_xor c b)

-- The result is a uint32.
unfoldable pub calculate_checksum : Bytes → ℕ
unfolding crc_bit crc_bits crc_byte
calculate_checksum bytes = bit_xor (foldl crc_byte 0xFFFFFFFF bytes) 0xFFFFFFFF % 2 ^ 32

unfoldable pub validate_checksum : Bytes → ℕ → Bool
validate_checksum bytes expected = calculate_checksum bytes == expected

pub calculate_checksum-lt : (bytes : Bytes) → calculate_checksum bytes < bound 4
unfolding calculate_checksum
calculate_checksum-lt bytes = omega arith

pub validate_checksum_self :
    (bytes : Bytes) → validate_checksum bytes (calculate_checksum bytes) ≡ true
unfolding validate_checksum
validate_checksum_self bytes = ==_refl (calculate_checksum bytes)

-- The check value of CRC-32: the text "123456789".
calculate_checksum_check :
    calculate_checksum (0x31 ∷ 0x32 ∷ 0x33 ∷ 0x34 ∷ 0x35 ∷ 0x36 ∷ 0x37 ∷ 0x38 ∷ 0x39 ∷ [])
    ≡ 0xCBF43926
unfolding calculate_checksum
calculate_checksum_check = refl
