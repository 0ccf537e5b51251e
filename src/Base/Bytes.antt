-- ===== src/Base/Bytes.antt =====
-- Big-endian numbers, as encoding/binary writes and reads them. A byte slice is a list of numbers.
use Prim.Native.Nat.{ℕ, zero, suc, ◌+◌, ◌*◌, ◌/◌, ◌%◌, ◌^◌, ◌<◌}
use mathlib.Core.Path.{◌≡◌, refl, ap, ◌∙◌}
use mathlib.Core.List.{List, [], ◌∷◌}
use native.Mathlib.Nat.{pow-suc, div-add-mod, div-div-eq-div-mul}
use native.Mathlib.Omega.{arith}
use go_tpm.Base.Lists.{length, All}

abbrev pub IsByte : ℕ → Type 0
IsByte b = b < 256

-- `PutUint` of `w` bytes: the number is cut to its last `w` bytes.
unfoldable pub put_be : ℕ → ℕ → List ℕ
put_be zero n = []
put_be (suc w) n = (n / 256 ^ w % 256) ∷ put_be w n

-- The number that bytes stand for, most significant first.
unfoldable pub be_from : ℕ → List ℕ → ℕ
be_from acc [] = acc
be_from acc (b ∷ bs) = be_from (acc * 256 + b) bs

unfoldable pub get_be : List ℕ → ℕ
unfolding be_from
get_be bs = be_from 0 bs

pub length-put_be : (w n : ℕ) → length (put_be w n) ≡ w
unfolding put_be
length-put_be zero n = refl
length-put_be (suc w) n = ap suc (length-put_be w n)

pub put_be-IsByte : (w n : ℕ) → All IsByte (put_be w n)
unfolding put_be
put_be-IsByte zero n = tt
put_be-IsByte (suc w) n = (omega arith, put_be-IsByte w n)

mod_top : (n p : ℕ) → n % (p * 256) ≡ n / p % 256 * p + n % p
mod_top n p = omega (
  arith,
  div-add-mod n (p * 256),
  div-add-mod n p,
  ap (λ (t : ℕ). p * t) (div-add-mod (n / p) 256),
  ap (λ (t : ℕ). p * (256 * t)) (div-div-eq-div-mul n p 256),
)

be_from-put_be : (acc w n : ℕ) → be_from acc (put_be w n) ≡ acc * 256 ^ w + n % 256 ^ w
unfolding put_be be_from
be_from-put_be acc zero n = omega arith
be_from-put_be acc (suc w) n =
    be_from-put_be (acc * 256 + n / 256 ^ w % 256) w n
    ∙ omega (
      arith,
      mod_top n (256 ^ w),
      ap (λ (t : ℕ). n % t) (pow-suc 256 w),
      ap (λ (t : ℕ). acc * t) (pow-suc 256 w),
    )

-- Reading back what `put_be` wrote gives the number cut to its width.
pub get_be-put_be : (w n : ℕ) → get_be (put_be w n) ≡ n % 256 ^ w
unfolding get_be
get_be-put_be w n = be_from-put_be 0 w n ∙ omega arith
