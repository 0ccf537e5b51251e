-- ===== src/Tpm2/Bitfield/Laws.antt =====
-- tpm2/bitfield.go: a bit that is set is read back, and the others stay.
use go_tpm.Base.{
  not_both, ℕ, zero, suc, ◌-◌, ◌*◌, ◌/◌, ◌%◌, ◌^◌, ◌<◌, ◌≡◌, ◌⊎◌, refl, ap, ◌∙◌, sym, Bool, true,
  false, bit_and, ◌==◌, ltb, if◌then◌else◌, arith, Bool-cases, inl, inr, ==_iff,
}
use native.Mathlib.Nat.{div-one, one-le-pow, pow-suc}
use go_tpm.Base.Bits.{
  bit, bit-lt, bit-bit_and, bit-bit_or, bit-pow_self, bit-pow_ne, bit-complement, bit_or-lt,
  bit_and-le, div_pow-suc,
}
use go_tpm.Base.Masks.{bit_and-pow}
use go_tpm.Base.Outcome.{ok}
use go_tpm.Tpm2.Fault.{Res}
use go_tpm.Tpm2.Bitfield.{reserved_bit, put_reserved_bit, get_reserved_bit, set_reserved_bit}

bit-div : (k a : ℕ) → bit k a ≡ a / 2 ^ k % 2
bit-div zero a = rw (div-one a)
bit-div (suc k) a = rw (bit-div k (a / 2), div_pow-suc a k)

pow_pos : (k : ℕ) → 0 < 2 ^ k
pow_pos k = one-le-pow k 2 (omega arith)

-- The test on the mask reads the digit.
pub reserved_bit-bit : (r pos : ℕ) → reserved_bit r pos ≡ (bit pos r == 1)
unfolding reserved_bit
reserved_bit-bit r pos =
    let d = bit-div pos r in
    let m = bit_and-pow pos r in
    let t : (r / 2 ^ pos % 2 ≡ 0) ⊎ (r / 2 ^ pos % 2 ≡ 1) = omega arith in
    elim t [
      | inl z ↦
          let clear : bit_and r (2 ^ pos) ≡ 0 * 2 ^ pos = m ∙ ap (λ (t : ℕ). t * 2 ^ pos) z in
          ground (arith, d, z, clear)
      | inr o ↦
          let set : bit_and r (2 ^ pos) ≡ 1 * 2 ^ pos = m ∙ ap (λ (t : ℕ). t * 2 ^ pos) o in
          ground (arith, d, o, set, pow_pos pos)
    ]

pow-lt : (w pos : ℕ) → pos < w → 2 ^ pos < 2 ^ w
pow-lt zero pos h = absurd (omega arith)
pow-lt (suc w) zero h = omega (arith, pow-suc 2 w, pow_pos w)
pow-lt (suc w) (suc pos) h = omega (arith, pow-suc 2 w, pow-suc 2 pos, pow-lt w pos (omega arith))

bit-mask : (pos q : ℕ) → bit q (2 ^ pos) ≡ (if pos == q then 1 else 0)
bit-mask pos q = elim (Bool-cases (pos == q)) [
  | inl t ↦
      let same : pos ≡ q = ground (arith, t) in ap (λ k. bit q (2 ^ k)) same ∙ bit-pow_self q ∙ rw t
  | inr f ↦ bit-pow_ne q pos (λ e. not_both ((==_iff pos q).1 (sym e)) f) ∙ rw f
]

pub bit-put_reserved_bit :
    (w r pos q : ℕ) (val : Bool)
    → pos < w
    → q < w
    → (bit q (put_reserved_bit w r pos val) == 1) ≡ (if pos == q then val else (bit q r == 1))
unfolding put_reserved_bit
bit-put_reserved_bit w r pos q true h k =
    ground (arith, bit-bit_or q r (2 ^ pos), bit-mask pos q, bit-lt q r)
bit-put_reserved_bit w r pos q false h k = ground (
  arith,
  bit-bit_and q r (2 ^ w - 1 - 2 ^ pos),
  bit-complement q w (2 ^ pos) k (pow-lt w pos h),
  bit-mask pos q,
  bit-lt q r,
)

pub put_reserved_bit-lt :
    (w r pos : ℕ) (val : Bool) → r < 2 ^ w → pos < w → put_reserved_bit w r pos val < 2 ^ w
unfolding put_reserved_bit
put_reserved_bit-lt w r pos true fits h = bit_or-lt w r (2 ^ pos) fits (pow-lt w pos h)
put_reserved_bit-lt w r pos false fits h = omega (arith, bit_and-le r (2 ^ w - 1 - 2 ^ pos))

reserved_bit-put_reserved_bit :
    (w r pos q : ℕ) (val : Bool)
    → pos < w
    → q < w
    → reserved_bit (put_reserved_bit w r pos val) q ≡ (if pos == q then val else reserved_bit r q)
reserved_bit-put_reserved_bit w r pos q val h k =
    reserved_bit-bit (put_reserved_bit w r pos val) q
    ∙ bit-put_reserved_bit w r pos q val h k
    ∙ ap (λ (t : Bool). if pos == q then val else t) (sym (reserved_bit-bit r q))

ok_if : (b x y : Bool) → ◌≡◌ {A = Res Bool} (ok (if b then x else y)) (if b then ok x else ok y)
ok_if true x y = refl
ok_if false x y = refl

-- Within the field's width, setting a reserved bit succeeds and stays in the width; reading it
-- then gives the value that was set, and reading any other bit gives what was there before.
pub get-set_reserved_bit :
    (w r pos q : ℕ) (val : Bool)
    → r < 2 ^ w
    → pos < w
    → q < w
    → (r' : ℕ) × (set_reserved_bit w r pos val ≡ ok r')
      × (r' < 2 ^ w)
      × (get_reserved_bit w r' q ≡ (if pos == q then ok val else get_reserved_bit w r q))
unfolding set_reserved_bit get_reserved_bit
get-set_reserved_bit w r pos q val fits h k =
    let inside : ltb pos w ≡ true = ground arith in
    let asked : ltb q w ≡ true = ground arith in
    (
      put_reserved_bit w r pos val,
      rw inside,
      put_reserved_bit-lt w r pos val fits h,
      rw (asked, reserved_bit-put_reserved_bit w r pos q val h k)
          (ok_if (pos == q) val (reserved_bit r q)),
    )
