-- ===== src/Tpm2/ResponseCode/Masks.antt =====
-- The masks of a response code as arithmetic.
use go_tpm.Base.{ℕ, ◌+◌, ◌*◌, ◌/◌, ◌%◌, ◌^◌, ◌≡◌, bit_and, arith}
use go_tpm.Base.Bits.{bit_and_split}
use go_tpm.Base.Masks.{bit_and-zero, bit_and-low, bit_and-pow}

pub bit_and-index : (r : ℕ) → bit_and r 0xF00 ≡ r / 256 % 16 * 256
bit_and-index r =
    omega (arith, bit_and_split 8 r 0xF00, bit_and-low 4 (r / 256), bit_and-zero (r % 256))

pub bit_and-index7 : (r : ℕ) → bit_and r 0x700 ≡ r / 256 % 8 * 256
bit_and-index7 r =
    omega (arith, bit_and_split 8 r 0x700, bit_and-low 3 (r / 256), bit_and-zero (r % 256))

pub bit_and-keep : (r : ℕ) → bit_and r 0xFFFFF0FF ≡ r / 4096 % 2 ^ 20 * 4096 + r % 256
bit_and-keep r =
    omega
      (arith, bit_and_split 12 r 0xFFFFF0FF, bit_and-low 20 (r / 4096), bit_and-low 8 (r % 4096))

-- Two bits that are not next to each other.
pub bit_and-warn : (r : ℕ) → bit_and r 0x900 ≡ r / 2048 % 2 * 2048 + r / 256 % 2 * 256
bit_and-warn r =
    omega (arith, bit_and_split 11 r 0x900, bit_and-low 1 (r / 2048), bit_and-pow 8 (r % 2048))

pub bit_and-fmt : (r : ℕ) → bit_and r 0x180 ≡ r / 128 % 4 * 128
bit_and-fmt r =
    omega (arith, bit_and_split 7 r 0x180, bit_and-low 2 (r / 128), bit_and-zero (r % 128))
