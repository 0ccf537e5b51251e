-- ===== src/Tpm2/Reflect/Bitwise/Copy.antt =====
-- The loops over the bits of the fields: which bits of the array they write.
use go_tpm.Base.{
  ℕ, zero, suc, ◌+◌, ◌*◌, ◌<◌, ◌≤◌, ◌≡◌, ◌⊎◌, inl, inr, refl, ap, ◌∙◌, sym, arith, Bool, false,
  List, ◌==◌, ltb-true, length, get_or, set, length-set, get_or-set_self, get_or-set_ne,
}
use go_tpm.Base.Bits.{bit}
use go_tpm.Base.Bytes.{put_be}
use go_tpm.Base.Outcome.{ok}
use go_tpm.Tpm2.Reflect.Bitwise.{copy_bits}
use go_tpm.Tpm2.Reflect.Bitwise.Digits.{byte_bit-put_be}

-- The array with `left` of its bits from `low + i` on written over.
abbrev pub copied : (ℕ → Bool) → ℕ → ℕ → ℕ → List Bool → List Bool
copied y low zero i array = array
copied y low (suc left) i array = copied y low left (i + 1) (set array (low + i) (y i))

pub length-copied :
    (y : ℕ → Bool) (low left i : ℕ) (array : List Bool)
    → length (copied y low left i array) ≡ length array
length-copied y low zero i array = refl
length-copied y low (suc left) i array =
    length-copied y low left (i + 1) (set array (low + i) (y i)) ∙ length-set array (low + i) (y i)

pub copied-outside :
    (y : ℕ → Bool) (low left i p : ℕ) (array : List Bool)
    → (p < low + i) ⊎ (low + i + left ≤ p)
    → get_or (copied y low left i array) p false ≡ get_or array p false
copied-outside y low zero i p array h = refl
copied-outside y low (suc left) i p array h =
    let next : (p < low + (i + 1)) ⊎ (low + (i + 1) + left ≤ p) = omega (arith, h) in
    copied-outside y low left (i + 1) p (set array (low + i) (y i)) next
    ∙ get_or-set_ne array (low + i) p (y i) false (λ e. omega (arith, h, e))

pub copied-inside :
    (y : ℕ → Bool) (low left i j : ℕ) (array : List Bool)
    → i ≤ j
    → j < i + left
    → low + i + left ≤ length array
    → get_or (copied y low left i array) (low + j) false ≡ y j
copied-inside y low zero i j array h k fits = absurd (omega (arith, h, k))
copied-inside y low (suc left) i j array h k fits =
    let array' = set array (low + i) (y i) in
    let size = length-set array (low + i) (y i) in
    let t : (j ≡ i) ⊎ (i < j) = omega (arith, h) in
    elim t [
      | inl e ↦
          copied-outside y low left (i + 1) (low + j) array' (inl (omega (arith, e)))
          ∙ ap (λ n. get_or array' (low + n) false) e
          ∙ get_or-set_self array (low + i) (y i) false (omega (arith, fits))
          ∙ ap y (sym e)
      | inr l ↦
          copied-inside y low left (i + 1) j array' (omega (arith, l)) (omega (arith, k))
            (omega (arith, fits, size))
    ]

-- The inner loop of `marshalBitwise` writes the digits of the value that the bytes hold.
pub copy_bits-copied :
    (w x low left i : ℕ) (array : List Bool)
    → i + left ≤ 8 * w
    → low + i + left ≤ length array
    → copy_bits (put_be w x) low left i array ≡ ok (copied (λ j. bit j x == 1) low left i array)
unfolding copy_bits
copy_bits-copied w x low zero i array h fits = refl
copy_bits-copied w x low (suc left) i array h fits =
    let b = bit i x == 1 in
    let size = length-set array (low + i) b in
    rw
      (
        byte_bit-put_be w x i (omega (arith, h)),
        ltb-true (low + i) (length array) (omega (arith, fits)),
      )
      (copy_bits-copied w x low left (i + 1) (set array (low + i) b) (omega (arith, h))
        (omega (arith, fits, size)))
