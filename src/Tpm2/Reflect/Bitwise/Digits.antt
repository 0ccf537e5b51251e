-- ===== src/Tpm2/Reflect/Bitwise/Digits.antt =====
-- The bits of a number, and of the bytes that it is written as.
use go_tpm.Base.{
  ℕ, zero, suc, ◌+◌, ◌-◌, ◌*◌, ◌/◌, ◌%◌, ◌^◌, ◌<◌, ◌≡◌, ◌⊎◌, inl, inr, ap, ◌∙◌, sym, arith, false,
  ◌==◌, get_or, if◌then◌else◌, ==_iff, ltb-true,
}
use go_tpm.Base.Bits.{
  bit, bit-lt, div_pow-suc, mod_pow-suc_div, mod_pow-suc_mod, bit-zero, shift_bytes, bit_ext,
}
use go_tpm.Base.Bytes.{put_be, length-put_be}
use go_tpm.Base.Outcome.{ok}
use go_tpm.Tpm2.Reflect.Bitwise.{byte_bit}
use go_tpm.Tpm2.Bitfield.{put_reserved_bit}
use go_tpm.Tpm2.Bitfield.Laws.{bit-put_reserved_bit, put_reserved_bit-lt}
use native.Mathlib.Nat.{pow-suc, mod-one, mod-le}

-- Bits above the width of a number are clear.
pub bit-above : (k a : ℕ) → a < 2 ^ k → bit k a ≡ 0
bit-above zero a h = omega (arith, h)
bit-above (suc k) a h = bit-above k (a / 2) (omega (arith, h, pow-suc 2 k))

-- Cutting a number to a width keeps the bits below.
pub bit-mod : (k w a : ℕ) → k < w → bit k (a % 2 ^ w) ≡ bit k a
bit-mod k zero a h = absurd (omega (arith, h))
bit-mod zero (suc w) a h = mod_pow-suc_mod a w
bit-mod (suc k) (suc w) a h =
    ap (bit k) (mod_pow-suc_div a w) ∙ bit-mod k w (a / 2) (omega (arith, h))

pub bit-shift : (m r a : ℕ) → bit r (a / 2 ^ m) ≡ bit (m + r) a
bit-shift zero r a =
    let e : a / 1 ≡ a = omega arith in
    let f : r ≡ 0 + r = omega arith in ap (bit r) e ∙ ap (λ t. bit t a) f
bit-shift (suc m) r a =
    let e : suc (m + r) ≡ suc m + r = omega arith in
    ap (bit r) (div_pow-suc a m) ∙ bit-shift m r (a / 2) ∙ ap (λ t. bit t a) e

pub bytes_as_bits : (k : ℕ) → 256 ^ k ≡ 2 ^ (8 * k)
bytes_as_bits k =
    let e : 0 + 8 * k ≡ 8 * k = omega arith in
    let f : 256 ^ k ≡ 2 ^ 0 * 256 ^ k = omega arith in f ∙ shift_bytes 0 k ∙ ap (λ t. 2 ^ t) e

-- The byte of a number that holds a bit.
get_or-put_be : (w x j : ℕ) → j < w → get_or (put_be w x) (w - j - 1) 0 ≡ x / 256 ^ j % 256
unfolding put_be
get_or-put_be zero x j h = absurd (omega (arith, h))
get_or-put_be (suc w) x j h =
    let t : (j ≡ w) ⊎ (j < w) = omega (arith, h) in
    elim t [
      | inl e ↦
          let first : suc w - j - 1 ≡ 0 = omega (arith, e) in
          ap (λ i. get_or (put_be (suc w) x) i 0) first ∙ ap (λ i. x / 256 ^ i % 256) (sym e)
      | inr k ↦
          let later : suc w - j - 1 ≡ suc (w - j - 1) = omega (arith, k) in
          ap (λ i. get_or (put_be (suc w) x) i 0) later ∙ get_or-put_be w x j k
    ]

bit-byte : (x i : ℕ) → bit (i % 8) (x / 256 ^ (i / 8) % 256) ≡ bit i x
bit-byte x i =
    let small : i % 8 < 8 = omega arith in
    let whole : 8 * (i / 8) + i % 8 ≡ i = omega arith in
    bit-mod (i % 8) 8 (x / 256 ^ (i / 8)) small
    ∙ ap (λ t. bit (i % 8) (x / t)) (bytes_as_bits (i / 8))
    ∙ bit-shift (8 * (i / 8)) (i % 8) x
    ∙ ap (λ t. bit t x) whole

pub byte_bit-put_be : (w x i : ℕ) → i < 8 * w → byte_bit (put_be w x) i ≡ ok (bit i x == 1)
byte_bit-put_be w x i h =
    let within : i / 8 < w = omega (arith, h) in
    rw
      (length-put_be w x, ltb-true (i / 8) w within, get_or-put_be w x (i / 8) within, bit-byte x i)

-- Cutting a number to a width clears the bits above.
bit-mod_high : (k w a : ℕ) → w < suc k → bit k (a % 2 ^ w) ≡ 0
bit-mod_high k zero a h = rw (mod-one a) (bit-zero k)
bit-mod_high zero (suc w) a h = absurd (omega (arith, h))
bit-mod_high (suc k) (suc w) a h =
    ap (bit k) (mod_pow-suc_div a w) ∙ bit-mod_high k w (a / 2) (omega (arith, h))

bit_same : (a b : ℕ) → a < 2 → b < 2 → (a == 1) ≡ (b == 1) → a ≡ b
bit_same a b h k e = ground (arith, h, k, e)

-- One digit more of a number.
bit_next :
    (x j k : ℕ)
    → (if j == k then (bit j x == 1) else (bit k (x % 2 ^ j) == 1)) ≡ (bit k (x % 2 ^ suc j) == 1)
bit_next x j k =
    let t : (j ≡ k) ⊎ ((k < j) ⊎ (j < k)) = omega arith in
    elim t [
      | inl e ↦
          let m = bit-mod j (suc j) x (omega arith) in
          let f : bit k (x % 2 ^ suc j) ≡ bit j x = ap (λ i. bit i (x % 2 ^ suc j)) (sym e) ∙ m in
          rw (f, (==_iff j k).1 e)
      | inr (inl l) ↦
          let other : (j == k) ≡ false = ground (arith, l) in
          rw (other, bit-mod k j x l, bit-mod k (suc j) x (omega (arith, l)))
      | inr (inr l) ↦
          let other : (j == k) ≡ false = ground (arith, l) in
          rw (
            other,
            bit-mod_high k j x (omega (arith, l)),
            bit-mod_high k (suc j) x (omega (arith, l)),
          )
    ]

-- The digits below a position, with the digit there put in front.
pub add_bit :
    (w x j : ℕ)
    → j < w
    → x < 2 ^ w
    → put_reserved_bit w (x % 2 ^ j) j (bit j x == 1) ≡ x % 2 ^ suc j
add_bit w x j h fits =
    let cut : (n : ℕ) → x % 2 ^ n < 2 ^ w = λ n. omega (arith, mod-le x (2 ^ n), fits) in
    let y = put_reserved_bit w (x % 2 ^ j) j (bit j x == 1) in
    bit_ext w y (x % 2 ^ suc j) (put_reserved_bit-lt w _ j _ (cut j) h) (cut (suc j)) (λ k l.
      bit_same (bit k y) (bit k (x % 2 ^ suc j)) (bit-lt k y) (bit-lt k (x % 2 ^ suc j))
        (bit-put_reserved_bit w (x % 2 ^ j) j k (bit j x == 1) h l ∙ bit_next x j k))

-- A digit that is clear adds nothing.
pub skip_bit : (x j : ℕ) → (bit j x == 1) ≡ false → x % 2 ^ suc j ≡ x % 2 ^ j
skip_bit x zero c = let z : bit 0 x ≡ 0 = ground (arith, c) in rw (mod-one x) (omega (arith, z))
skip_bit x (suc j) c =
    let i = skip_bit (x / 2) j c in
    let a = mod_pow-suc_div x (suc j) ∙ i ∙ sym (mod_pow-suc_div x j) in
    let b = mod_pow-suc_mod x (suc j) ∙ sym (mod_pow-suc_mod x j) in
    halves (x % 2 ^ suc (suc j)) (x % 2 ^ suc j) a b
  where
    halves : (m n : ℕ) → m / 2 ≡ n / 2 → m % 2 ≡ n % 2 → m ≡ n
    halves m n a b = omega (arith, a, b)
