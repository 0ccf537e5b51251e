-- ===== src/Base/Masks.antt =====
-- Masks as arithmetic: low bits, one bit, and a run of bits.
use Prim.Native.Nat.{ℕ, zero, suc, ◌+◌, ◌-◌, ◌*◌, ◌/◌, ◌%◌, ◌^◌, ◌≤◌, differ, bit_and, bit_xor}
use mathlib.Core.Path.{◌≡◌, refl, sym, ap, ◌∙◌}
use native.Mathlib.Nat.{pow-suc, one-le-pow, div-one, mod-one}
use native.Mathlib.Omega.{arith}
use go_tpm.Base.Bits.{
  bit_and_step, bit_xor_step, div_pow-suc, mod_pow-suc_div, mod_pow-suc_mod, pow-suc_half,
}

differ_zero : (x : ℕ) → differ x 0 ≡ x
differ_zero zero = refl
differ_zero (suc x) = refl

zero_masks : (n a : ℕ) → a ≤ n → (bit_and a 0 ≡ 0) × (bit_xor a 0 ≡ a)
zero_masks zero zero h = (refl, refl)
zero_masks zero (suc a) h = absurd (omega arith)
zero_masks (suc n) zero h = (refl, refl)
zero_masks (suc n) (suc a) h =
    let ih = zero_masks n (suc a / 2) (omega arith) in
    (omega (arith, bit_and_step (suc a) 0, ih.0), xor_case ih.1)
  where
    xor_case : bit_xor (suc a / 2) 0 ≡ suc a / 2 → bit_xor (suc a) 0 ≡ suc a
    xor_case e = omega (arith, bit_xor_step (suc a) 0, differ_zero (suc a % 2))

pub bit_and-zero : (a : ℕ) → bit_and a 0 ≡ 0
bit_and-zero a = (zero_masks a a (omega arith)).0

pub bit_xor-zero : (a : ℕ) → bit_xor a 0 ≡ a
bit_xor-zero a = (zero_masks a a (omega arith)).1

half_low : (k : ℕ) → (2 ^ suc k - 1) / 2 ≡ 2 ^ k - 1
half_low k = omega (arith, pow-suc 2 k)

-- `a & (1<<k - 1)`
pub bit_and-low : (k a : ℕ) → bit_and a (2 ^ k - 1) ≡ a % 2 ^ k
bit_and-low zero a = rw (bit_and-zero a, mod-one a)
bit_and-low (suc k) a = omega (
  arith,
  bit_and_step a (2 ^ suc k - 1),
  ap (λ (t : ℕ). bit_and (a / 2) t) (half_low k),
  bit_and-low k (a / 2),
  mod_pow-suc_div a k,
  mod_pow-suc_mod a k,
  one-le-pow k 2 (omega arith),
  pow-suc 2 k,
)

-- `a & (1<<k)`
pub bit_and-pow : (k a : ℕ) → bit_and a (2 ^ k) ≡ a / 2 ^ k % 2 * 2 ^ k
bit_and-pow zero a = omega (arith, bit_and_step a 1, bit_and-zero (a / 2), div-one a)
bit_and-pow (suc k) a = omega (
  arith,
  bit_and_step a (2 ^ suc k),
  ap (λ (t : ℕ). bit_and (a / 2) t) (pow-suc_half k),
  bit_and-pow k (a / 2),
  ap (λ (t : ℕ). t % 2 * 2 ^ suc k) (div_pow-suc a k),
  ap (λ (t : ℕ). a / 2 / 2 ^ k % 2 * t) (pow-suc 2 k),
  pow-suc 2 k,
)

-- `a ^ (1<<k)`, the bit being set
pub bit_xor-pow : (k a : ℕ) → a / 2 ^ k % 2 ≡ 1 → bit_xor a (2 ^ k) + 2 ^ k ≡ a
bit_xor-pow zero a h =
    let odd : a % 2 ≡ 1 = omega (arith, div-one a) in
    omega (arith, bit_xor_step a 1, bit_xor-zero (a / 2), ap (λ (t : ℕ). differ t 1) odd)
bit_xor-pow (suc k) a h =
    let even : 2 ^ suc k % 2 ≡ 0 = omega (arith, pow-suc 2 k) in
    omega (
      arith,
      bit_xor_step a (2 ^ suc k),
      ap (λ (t : ℕ). bit_xor (a / 2) t) (pow-suc_half k),
      bit_xor-pow k (a / 2) (sym (ap (λ (t : ℕ). t % 2) (div_pow-suc a k)) ∙ h),
      ap (λ (t : ℕ). differ (a % 2) t) even,
      differ_zero (a % 2),
      pow-suc 2 k,
    )
