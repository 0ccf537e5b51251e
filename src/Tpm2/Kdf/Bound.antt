-- ===== src/Tpm2/Kdf/Bound.antt =====
-- kdf of legacy/tpm2/kdf.go: how long its output is, and how large a number.
use go_tpm.Base.{
  ℕ, zero, suc, ◌+◌, ◌-◌, ◌*◌, ◌%◌, ◌^◌, ◌<◌, ◌≡◌, refl, ap, ◌∙◌, sym, arith, List, [], ◌∷◌, ◌++◌,
  some, bit_and, length, take, All, length-take,
}
use go_tpm.Base.Bytes.{IsByte, get_be, be_from, put_be}
use go_tpm.Base.Bits.{shift_bytes}
use go_tpm.Base.Masks.{bit_and-low}
use go_tpm.Tpm2.Kdf.{block, mask_first, bytes_for, kdf}
use go_tpm.Tpm2.Kdf.Blocks.{blocks, kdf-blocks, length-blocks}
use native.Mathlib.Nat.{pow-suc, mul_assoc, mul_comm, mod-lt, one-le-pow}

length-mask_first : (m : ℕ) (out : List ℕ) → length (mask_first m out) ≡ length out
unfolding mask_first
length-mask_first m [] = refl
length-mask_first zero (x ∷ out) = refl
length-mask_first (suc m) (x ∷ out) = refl

All-append : (P : ℕ → Type 0) (xs ys : List ℕ) → All P xs → All P ys → All P (xs ++ ys)
All-append P [] ys h k = k
All-append P (x ∷ xs) ys (p, h) k = (p, All-append P xs ys h k)

All-take : (P : ℕ → Type 0) (n : ℕ) (xs : List ℕ) → All P xs → All P (take n xs)
All-take P zero xs h = tt
All-take P (suc n) [] h = tt
All-take P (suc n) (x ∷ xs) (p, h) = (p, All-take P n xs h)

-- Bytes stand for a number below 256 to the power of how many they are.
be_from-lt :
    (acc bound : ℕ) (bs : List ℕ)
    → acc < bound
    → All IsByte bs
    → be_from acc bs < bound * 256 ^ length bs
unfolding be_from
be_from-lt acc bound [] h k = omega arith
be_from-lt acc bound (b ∷ bs) h (p, k) =
    let e : bound * 256 * 256 ^ length bs ≡ bound * 256 ^ suc (length bs) =
      mul_assoc bound 256 (256 ^ length bs)
      ∙ ap (λ t. bound * t) (mul_comm 256 (256 ^ length bs) ∙ sym (pow-suc 256 (length bs))) in
    let i = be_from-lt (acc * 256 + b) (bound * 256) bs (omega arith) k in omega (arith, i, e)

-- So many bytes whose first is cut to its low bits stand for a number of so many bits.
mask_first-lt :
    (m bits : ℕ) (out : List ℕ)
    → m ≡ bits % 8
    → length out ≡ bytes_for bits
    → All IsByte out
    → get_be (mask_first m out) < 2 ^ bits
unfolding get_be be_from mask_first
mask_first-lt m bits [] low whole h =
    let none_at_all : bits ≡ 0 = omega (arith, whole) in rw none_at_all (omega arith)
mask_first-lt zero bits (x ∷ out) low whole h =
    let e : 0 + 8 * length (x ∷ out) ≡ bits = omega (arith, whole, low) in
    omega (
      arith,
      be_from-lt 0 1 (x ∷ out) (omega arith) h,
      shift_bytes 0 (length (x ∷ out)) ∙ ap (λ t. 2 ^ t) e,
    )
mask_first-lt (suc m) bits (x ∷ out) low whole (p, h) =
    let y = bit_and x (2 ^ suc m - 1) in
    let small : y < 2 ^ suc m = omega (
      arith,
      bit_and-low (suc m) x,
      mod-lt x {m = 2 ^ suc m} (one-le-pow (suc m) 2 (omega arith)),
    ) in
    let e : suc m + 8 * length out ≡ bits = omega (arith, whole, low) in
    let i = be_from-lt (0 * 256 + y) (2 ^ suc m) out (omega (arith, small)) h in
    omega (arith, i, shift_bytes (suc m) (length out) ∙ ap (λ t. 2 ^ t) e)

module _ (digest : List ℕ → List ℕ) (update : List ℕ) (size : ℕ)
    (length-digest : (b : List ℕ) → length (digest b) ≡ size)
    (digest-IsByte : (b : List ℕ) → All IsByte (digest b)) where
  blocks-IsByte : (counter k : ℕ) → All IsByte (blocks digest update counter k)
  blocks-IsByte counter zero = tt
  blocks-IsByte counter (suc k) =
      All-append IsByte (block digest update counter) (blocks digest update (suc counter) k)
        (digest-IsByte (put_be 4 counter ++ update)) (blocks-IsByte (suc counter) k)

  -- Where every digest has the same number of bytes, and at least one, the derived key has
  -- (bits + 7) / 8 bytes and is, as a big-endian number, below 2 ^ bits.
  pub kdf-lt :
      (bits : ℕ)
      → 0 < size
      → (key : List ℕ) × (kdf digest update bits ≡ some key)
        × (length key ≡ bytes_for bits)
        × (get_be key < 2 ^ bits)
  kdf-lt bits some_bytes =
      let n = bytes_for bits in
      let out = take n (blocks digest update 1 n) in
      let whole : length out ≡ n = omega (
        arith,
        length-take n (blocks digest update 1 n),
        length-blocks digest update size length-digest 1 n some_bytes,
      ) in
      (
        mask_first (bits % 8) out,
        kdf-blocks digest update size length-digest bits some_bytes,
        length-mask_first (bits % 8) out ∙ whole,
        mask_first-lt (bits % 8) bits out refl whole (All-take IsByte n _ (blocks-IsByte 1 n)),
      )
