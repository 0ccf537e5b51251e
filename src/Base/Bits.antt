-- ===== src/Base/Bits.antt =====
-- Bitwise operations at variables: the law of the lowest digit, masks and single bits.
use Prim.Native.Nat.{
  ℕ, zero, suc, ◌+◌, ◌-◌, ◌*◌, ◌/◌, ◌%◌, ◌^◌, ◌≤◌, ◌<◌, min, max, digits, bitwise, differ, bit_and,
  bit_or, bit_xor, bit_and-bitwise, bit_or-bitwise, bit_xor-bitwise,
}
use mathlib.Core.Path.{◌≡◌, refl, sym, ap, ◌∙◌}
use mathlib.Core.Logic.{◌≢◌}
use native.Mathlib.Nat.{
  le_refl, pow-suc, one-le-pow, mul_comm, mul_assoc, div-div-eq-div-mul, div-one, mod-one,
}
use native.Mathlib.Omega.{arith}

-- A bitwise operation is a recursion on the digits of its first argument; `z` is what is left of
-- the second one once they are used up.
module _ (z : ℕ → ℕ) (f : ℕ → ℕ → ℕ) (rest : (y : ℕ) → z y ≡ z (y / 2) * 2 + f 0 (y % 2)) where
  -- Steps that are left over change nothing.
  digits-spare : (n k x y : ℕ) → x ≤ n → digits z f (x + k) x y ≡ digits z f x x y
  digits-spare n zero x y h = ap (λ t. digits z f t x y) (omega arith)
  digits-spare n (suc k) zero y h =
      let count : 0 + suc k ≡ suc k = omega arith in ap (λ t. digits z f t 0 y) count
  digits-spare zero (suc k) (suc x) y h = absurd (omega arith)
  digits-spare (suc n) (suc k) (suc x) y h =
      let half = suc x / 2 in
      let enough : (m : ℕ) → half ≤ m → digits z f m half (y / 2) ≡ digits z f half half (y / 2) =
        λ m g.
          ap (λ t. digits z f t half (y / 2)) (omega arith)
          ∙ digits-spare n (m - half) half (y / 2) (omega arith) in
      let count : suc x + suc k ≡ suc (x + suc k) = omega arith in
      ap (λ t. digits z f t (suc x) y) count
      ∙ ap (λ t. t * 2 + f (suc x % 2) (y % 2))
          (enough (x + suc k) (omega arith) ∙ sym (enough x (omega arith)))

  lowest_digit : (x y : ℕ) → bitwise z f x y ≡ bitwise z f (x / 2) (y / 2) * 2 + f (x % 2) (y % 2)
  lowest_digit zero y = rest y
  lowest_digit (suc x) y =
      let half = suc x / 2 in
      let left : x ≡ half + (x - half) = omega arith in
      ap (λ t. digits z f t half (y / 2) * 2 + f (suc x % 2) (y % 2)) left
      ∙ rw (digits-spare half (x - half) half (y / 2) (le_refl half))

pub bit_xor_step : (x y : ℕ) → bit_xor x y ≡ bit_xor (x / 2) (y / 2) * 2 + differ (x % 2) (y % 2)
bit_xor_step x y = simp bit_xor-bitwise (lowest_digit (λ t. t) differ (λ t. omega arith) x y)

pub bit_and_step : (x y : ℕ) → bit_and x y ≡ bit_and (x / 2) (y / 2) * 2 + min (x % 2) (y % 2)
bit_and_step x y = simp bit_and-bitwise (lowest_digit (λ t. 0) min (λ t. omega arith) x y)

pub bit_or_step : (x y : ℕ) → bit_or x y ≡ bit_or (x / 2) (y / 2) * 2 + max (x % 2) (y % 2)
bit_or_step x y = simp bit_or-bitwise (lowest_digit (λ t. t) max (λ t. omega arith) x y)

mod_div : (a p : ℕ) → 0 < p → a % (2 * p) / 2 ≡ a / 2 % p
mod_div a p h = grind arith

mod_mod_two : (a p : ℕ) → 0 < p → a % (2 * p) % 2 ≡ a % 2
mod_mod_two a p h = grind arith

pow_pos : (k : ℕ) → 0 < 2 ^ k
pow_pos k = one-le-pow k 2 (omega arith)

pub div_pow-suc : (a k : ℕ) → a / 2 ^ suc k ≡ a / 2 / 2 ^ k
div_pow-suc a k = rw (div-div-eq-div-mul, pow-suc, mul_comm (2 ^ k) 2)

pub mod_pow-suc_div : (a k : ℕ) → a % 2 ^ suc k / 2 ≡ a / 2 % 2 ^ k
mod_pow-suc_div a k = rw (pow-suc, mul_comm (2 ^ k) 2) (mod_div a (2 ^ k) (pow_pos k))

pub mod_pow-suc_mod : (a k : ℕ) → a % 2 ^ suc k % 2 ≡ a % 2
mod_pow-suc_mod a k = rw (pow-suc, mul_comm (2 ^ k) 2) (mod_mod_two a (2 ^ k) (pow_pos k))

-- An operation that works digit by digit splits at every position.
module _ (op f : ℕ → ℕ → ℕ) (step : (a b : ℕ) → op a b ≡ op (a / 2) (b / 2) * 2 + f (a % 2) (b % 2))
    (origin : op 0 0 ≡ 0) where
  split_high :
      (k a b : ℕ)
      → op (a % 2 ^ suc k) (b % 2 ^ suc k)
        ≡ op (a / 2 % 2 ^ k) (b / 2 % 2 ^ k) * 2 + f (a % 2) (b % 2)
  split_high k a b =
      step (a % 2 ^ suc k) (b % 2 ^ suc k)
      ∙ rw (mod_pow-suc_div a k, mod_pow-suc_div b k, mod_pow-suc_mod a k, mod_pow-suc_mod b k)

  split : (k a b : ℕ) → op a b ≡ op (a / 2 ^ k) (b / 2 ^ k) * 2 ^ k + op (a % 2 ^ k) (b % 2 ^ k)
  split zero a b = rw (div-one a, div-one b, mod-one a, mod-one b, origin) (omega arith)
  split (suc k) a b =
      rw (div_pow-suc a k, div_pow-suc b k, split_high k a b)
        (omega (
          arith,
          step a b,
          split k (a / 2) (b / 2),
          ap (λ (t : ℕ). op (a / 2 / 2 ^ k) (b / 2 / 2 ^ k) * t) (pow-suc 2 k),
        ))

pub bit_and_split :
    (k a b : ℕ)
    → bit_and a b ≡ bit_and (a / 2 ^ k) (b / 2 ^ k) * 2 ^ k + bit_and (a % 2 ^ k) (b % 2 ^ k)
bit_and_split = split bit_and min bit_and_step refl

pub bit_or_split :
    (k a b : ℕ)
    → bit_or a b ≡ bit_or (a / 2 ^ k) (b / 2 ^ k) * 2 ^ k + bit_or (a % 2 ^ k) (b % 2 ^ k)
bit_or_split = split bit_or max bit_or_step refl

pub bit_xor_split :
    (k a b : ℕ)
    → bit_xor a b ≡ bit_xor (a / 2 ^ k) (b / 2 ^ k) * 2 ^ k + bit_xor (a % 2 ^ k) (b % 2 ^ k)
bit_xor_split = split bit_xor differ bit_xor_step refl

-- The digit at a position.
abbrev pub bit : ℕ → ℕ → ℕ
bit zero a = a % 2
bit (suc k) a = bit k (a / 2)

pub bit-lt : (k a : ℕ) → bit k a < 2
bit-lt zero a = omega arith
bit-lt (suc k) a = bit-lt k (a / 2)

module _ (op f : ℕ → ℕ → ℕ) (step : (a b : ℕ) → op a b ≡ op (a / 2) (b / 2) * 2 + f (a % 2) (b % 2))
    (small : (a b : ℕ) → f (a % 2) (b % 2) < 2) where
  half_op : (a b : ℕ) → op a b / 2 ≡ op (a / 2) (b / 2)
  half_op a b = omega (arith, step a b, small a b)

  digit_op : (k a b : ℕ) → bit k (op a b) ≡ f (bit k a) (bit k b)
  digit_op zero a b = omega (arith, step a b, small a b)
  digit_op (suc k) a b = rw (half_op a b) (digit_op k (a / 2) (b / 2))

pub bit-bit_and : (k a b : ℕ) → bit k (bit_and a b) ≡ min (bit k a) (bit k b)
bit-bit_and = digit_op bit_and min bit_and_step (λ a b. omega arith)

pub bit-bit_or : (k a b : ℕ) → bit k (bit_or a b) ≡ max (bit k a) (bit k b)
bit-bit_or = digit_op bit_or max bit_or_step (λ a b. omega arith)

pub bit-zero : (k : ℕ) → bit k 0 ≡ 0
bit-zero zero = refl
bit-zero (suc k) = bit-zero k

pub pow-suc_half : (p : ℕ) → 2 ^ suc p / 2 ≡ 2 ^ p
pow-suc_half p = omega (arith, pow-suc 2 p)

pub bit-pow_self : (k : ℕ) → bit k (2 ^ k) ≡ 1
bit-pow_self zero = refl
bit-pow_self (suc k) = rw (pow-suc_half k) (bit-pow_self k)

pub bit-pow_ne : (k p : ℕ) → k ≢ p → bit k (2 ^ p) ≡ 0
bit-pow_ne zero zero h = absurd (h refl)
bit-pow_ne zero (suc p) h = omega (arith, pow-suc 2 p)
bit-pow_ne (suc k) zero h = bit-zero k
bit-pow_ne (suc k) (suc p) h = rw (pow-suc_half p) (bit-pow_ne k p (λ e. h (ap suc e)))

-- The complement of a number in `w` bits.
pub bit-complement : (k w x : ℕ) → k < w → x < 2 ^ w → bit k (2 ^ w - 1 - x) ≡ 1 - bit k x
bit-complement k zero x h fits = absurd (omega arith)
bit-complement zero (suc w) x h fits = omega (arith, pow-suc 2 w)
bit-complement (suc k) (suc w) x h fits =
    let half : (2 ^ suc w - 1 - x) / 2 ≡ 2 ^ w - 1 - x / 2 =
      omega (arith, pow-suc 2 w, pow_pos w) in
    rw half (bit-complement k w (x / 2) (omega arith) (omega (arith, pow-suc 2 w)))

-- Numbers of `w` bits with the same digits are equal.
pub bit_ext : (w a b : ℕ) → a < 2 ^ w → b < 2 ^ w → ((k : ℕ) → k < w → bit k a ≡ bit k b) → a ≡ b
bit_ext zero a b ha hb h = omega arith
bit_ext (suc w) a b ha hb h =
    let low : a % 2 ≡ b % 2 = h 0 (omega arith) in
    omega (
      arith,
      low,
      pow-suc 2 w,
      bit_ext w (a / 2) (b / 2) (omega (arith, pow-suc 2 w)) (omega (arith, pow-suc 2 w))
          (λ k hk. h (suc k) (omega arith)),
    )

-- Two numbers of `w` bits joined by `|` or `&` stay within `w` bits.
pub bit_or-lt : (w a b : ℕ) → a < 2 ^ w → b < 2 ^ w → bit_or a b < 2 ^ w
bit_or-lt zero a b ha hb =
    let ea : a ≡ 0 = omega arith in let eb : b ≡ 0 = omega arith in rw (ea, eb) (omega arith)
bit_or-lt (suc w) a b ha hb = omega (
  arith,
  bit_or_step a b,
  pow-suc 2 w,
  bit_or-lt w (a / 2) (b / 2) (omega (arith, pow-suc 2 w)) (omega (arith, pow-suc 2 w)),
)

pub bit_and-le_fuel : (n a b : ℕ) → a ≤ n → bit_and a b ≤ a
bit_and-le_fuel zero zero b h = rw (bit_and-bitwise 0 b) (omega arith)
bit_and-le_fuel zero (suc a) b h = absurd (omega arith)
bit_and-le_fuel (suc n) zero b h = rw (bit_and-bitwise 0 b) (omega arith)
bit_and-le_fuel (suc n) (suc a) b h =
    omega (arith, bit_and_step (suc a) b, bit_and-le_fuel n (suc a / 2) (b / 2) (omega arith))

pub bit_and-le : (a b : ℕ) → bit_and a b ≤ a
bit_and-le a b = bit_and-le_fuel a a b (le_refl a)

pow_add : (a b : ℕ) → 2 ^ (a + b) ≡ 2 ^ a * 2 ^ b
pow_add a zero = ap (λ t. 2 ^ t) (zero_right a) ∙ sym (one_right (2 ^ a))
  where
    zero_right : (n : ℕ) → n + 0 ≡ n
    zero_right n = omega arith

    one_right : (n : ℕ) → n * 1 ≡ n
    one_right n = omega arith
pow_add a (suc b) =
    let e : a + suc b ≡ suc (a + b) = omega arith in
    ap (λ t. 2 ^ t) e
    ∙ pow-suc 2 (a + b)
    ∙ ap (λ t. t * 2) (pow_add a b)
    ∙ mul_assoc (2 ^ a) (2 ^ b) 2
    ∙ ap (λ t. 2 ^ a * t) (sym (pow-suc 2 b))

pub shift_bytes : (m k : ℕ) → 2 ^ m * 256 ^ k ≡ 2 ^ (m + 8 * k)
shift_bytes m zero = sym (pow_add m 0)
shift_bytes m (suc k) =
    let e : m + 8 * k + 8 ≡ m + 8 * suc k = omega arith in
    ap (λ t. 2 ^ m * t) (pow-suc 256 k)
    ∙ sym (mul_assoc (2 ^ m) (256 ^ k) 256)
    ∙ ap (λ t. t * 256) (shift_bytes m k)
    ∙ sym (pow_add (m + 8 * k) 8)
    ∙ ap (λ t. 2 ^ t) e
