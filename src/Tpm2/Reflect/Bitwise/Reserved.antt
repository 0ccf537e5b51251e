-- ===== src/Tpm2/Reflect/Bitwise/Reserved.antt =====
-- The reserved bits: `marshalBitwise` adds them to the array and `unmarshalBitwise` takes the rest.
use go_tpm.Base.{
  ℕ, zero, suc, ◌+◌, ◌%◌, ◌^◌, ◌<◌, ◌≡◌, refl, ap, ◌∙◌, sym, arith, Bool, false, ◌||◌, List, [],
  ◌∷◌, ◌==◌, length, get_or,
}
use go_tpm.Base.Bits.{bit}
use go_tpm.Tpm2.Bitfield.{put_reserved_bit}
use go_tpm.Tpm2.Bitfield.Laws.{reserved_bit-bit}
use go_tpm.Tpm2.Reflect.Bitwise.{add_reserved, set_reserved}
use go_tpm.Tpm2.Reflect.Bitwise.Digits.{add_bit}
use native.Mathlib.Nat.{mod-eq_of_lt, mod-one}

pub length-add_reserved : (r i : ℕ) (xs : List Bool) → length (add_reserved r i xs) ≡ length xs
unfolding add_reserved
length-add_reserved r i [] = refl
length-add_reserved r i (x ∷ xs) = ap suc (length-add_reserved r (i + 1) xs)

pub get_or-add_reserved :
    (r i p : ℕ) (xs : List Bool)
    → p < length xs
    → get_or (add_reserved r i xs) p false ≡ (get_or xs p false || (bit (i + p) r == 1))
unfolding add_reserved
get_or-add_reserved r i p [] h = absurd (omega (arith, h))
get_or-add_reserved r i zero (x ∷ xs) h =
    let e : i ≡ i + 0 = omega arith in
    ap (λ b. x || b) (reserved_bit-bit r i ∙ ap (λ n. bit n r == 1) e)
get_or-add_reserved r i (suc p) (x ∷ xs) h =
    let e : i + 1 + p ≡ i + suc p = omega arith in
    get_or-add_reserved r (i + 1) p xs (omega (arith, h))
    ∙ ap (λ n. get_or xs p false || (bit n r == 1)) e

-- The bits of the array are put in one by one.
set_reserved-digits :
    (w r i : ℕ) (xs : List Bool)
    → r < 2 ^ w
    → i + length xs ≡ w
    → ((p : ℕ) → p < length xs → get_or xs p false ≡ (bit (i + p) r == 1))
    → set_reserved w i xs (r % 2 ^ i) ≡ r
unfolding set_reserved
set_reserved-digits w r i [] fits size h =
    let e : i ≡ w = omega (arith, size) in ap (λ n. r % 2 ^ n) e ∙ mod-eq_of_lt fits
set_reserved-digits w r i (x ∷ xs) fits size h =
    let e : i + 0 ≡ i = omega arith in
    let s : suc i ≡ i + 1 = omega arith in
    let b : x ≡ (bit i r == 1) = h 0 (omega arith) ∙ ap (λ n. bit n r == 1) e in
    let one : put_reserved_bit w (r % 2 ^ i) i x ≡ r % 2 ^ (i + 1) =
      ap (put_reserved_bit w (r % 2 ^ i) i) b
      ∙ add_bit w r i (omega (arith, size)) fits
      ∙ ap (λ n. r % 2 ^ n) s in
    ap (set_reserved w (i + 1) xs) one
    ∙ set_reserved-digits w r (i + 1) xs fits (omega (arith, size)) (λ p l.
      let f : i + suc p ≡ i + 1 + p = omega arith in
      h (suc p) (omega (arith, l)) ∙ ap (λ n. bit n r == 1) f)

pub set_reserved-all :
    (w r : ℕ) (xs : List Bool)
    → r < 2 ^ w
    → length xs ≡ w
    → ((p : ℕ) → p < w → get_or xs p false ≡ (bit p r == 1))
    → set_reserved w 0 xs 0 ≡ r
set_reserved-all w r xs fits size h =
    let z : r % 2 ^ 0 ≡ 0 = mod-one r in
    ap (set_reserved w 0 xs) (sym z)
    ∙ set_reserved-digits w r 0 xs fits (omega (arith, size)) (λ p l.
      let e : p ≡ 0 + p = omega arith in h p (omega (arith, l, size)) ∙ ap (λ n. bit n r == 1) e)
