-- ===== src/Tpm2/Reflect/Bitwise/Read.antt =====
-- The array that `unmarshalBitwise` reads, and the reserved bits on both sides.
use go_tpm.Base.{
  ℕ, zero, suc, ◌+◌, ◌-◌, ◌*◌, ◌/◌, ◌%◌, ◌<◌, ◌≤◌, ◌≡◌, ◌⊎◌, inl, inr, refl, ap, ◌∙◌, sym, arith,
  Bool, false, List, [], ◌∷◌, ◌++◌, ◌==◌, length, get_or, replicate, length-replicate, get_or_ext,
  length-append,
}
use go_tpm.Base.Bits.{bit, bit-zero}
use go_tpm.Base.Outcome.{ok}
use go_tpm.Tpm2.Reflect.Bitwise.{byte_bits, read_bits, collect}
use go_tpm.Tpm2.Reflect.Bitwise.Wire.{wire_bit, wire_bit-collect, length-collect}

get_or-append_left :
    (a b : List Bool) (q : ℕ) → q < length a → get_or (a ++ b) q false ≡ get_or a q false
get_or-append_left [] b q h = absurd (omega (arith, h))
get_or-append_left (x ∷ a) b zero h = refl
get_or-append_left (x ∷ a) b (suc q) h = get_or-append_left a b q (omega (arith, h))

get_or-append_right :
    (a b : List Bool) (q : ℕ) → get_or (a ++ b) (length a + q) false ≡ get_or b q false
get_or-append_right [] b q = let e : 0 + q ≡ q = omega arith in ap (λ n. get_or b n false) e
get_or-append_right (x ∷ a) b q =
    let e : suc (length a) + q ≡ suc (length a + q) = omega arith in
    ap (λ n. get_or (x ∷ (a ++ b)) n false) e ∙ get_or-append_right a b q

get_or-past : (a : List Bool) (q : ℕ) → length a ≤ q → get_or a q false ≡ false
get_or-past [] q h = refl
get_or-past (x ∷ a) zero h = absurd (omega (arith, h))
get_or-past (x ∷ a) (suc q) h = get_or-past a q (omega (arith, h))

length-byte_bits : (left j x : ℕ) → length (byte_bits left j x) ≡ left
unfolding byte_bits
length-byte_bits zero j x = refl
length-byte_bits (suc left) j x = ap suc (length-byte_bits left (j + 1) x)

get_or-byte_bits :
    (left j k x : ℕ) → k < left → get_or (byte_bits left j x) k false ≡ (bit (j + k) x == 1)
unfolding byte_bits
get_or-byte_bits zero j k x h = absurd (omega (arith, h))
get_or-byte_bits (suc left) j zero x h = let e : j ≡ j + 0 = omega arith in ap (λ n. bit n x == 1) e
get_or-byte_bits (suc left) j (suc k) x h =
    let e : j + 1 + k ≡ j + suc k = omega arith in
    get_or-byte_bits left (j + 1) k x (omega (arith, h)) ∙ ap (λ n. bit n x == 1) e

-- The array that stands for bytes.
abbrev unpacked : List ℕ → List Bool
unpacked [] = []
unpacked (x ∷ b) = unpacked b ++ byte_bits 8 0 x

length-unpacked : (b : List ℕ) → length (unpacked b) ≡ 8 * length b
length-unpacked [] = refl
length-unpacked (x ∷ b) =
    omega (
      arith,
      length-append (unpacked b) (byte_bits 8 0 x),
      length-unpacked b,
      length-byte_bits 8 0 x,
    )

read_bits-unpacked : (b rest : List ℕ) → read_bits (length b) (b ++ rest) ≡ ok (unpacked b, rest)
unfolding read_bits
read_bits-unpacked [] rest = refl
read_bits-unpacked (x ∷ b) rest = rw (read_bits-unpacked b rest)

get_or-unpacked :
    (b : List ℕ) (q : ℕ) → q < 8 * length b → get_or (unpacked b) q false ≡ wire_bit q b
get_or-unpacked [] q h = absurd (omega (arith, h))
get_or-unpacked (x ∷ b) q h =
    let size = length-unpacked b in
    let t : (q < 8 * length b) ⊎ (8 * length b ≤ q) = omega arith in
    elim t [
      | inl l ↦
          let e : suc (length b) - q / 8 - 1 ≡ suc (length b - q / 8 - 1) = omega (arith, l) in
          get_or-append_left (unpacked b) (byte_bits 8 0 x) q (omega (arith, l, size))
          ∙ get_or-unpacked b q l
          ∙ ap (λ n. bit (q % 8) (get_or (x ∷ b) n 0) == 1) (sym e)
      | inr g ↦
          let e : suc (length b) - q / 8 - 1 ≡ 0 = omega (arith, g) in
          let f : length (unpacked b) + q % 8 ≡ q = omega (arith, g, h, size) in
          let d : 0 + q % 8 ≡ q % 8 = omega arith in
          ap (λ n. get_or (unpacked (x ∷ b)) n false) (sym f)
          ∙ get_or-append_right (unpacked b) (byte_bits 8 0 x) (q % 8)
          ∙ get_or-byte_bits 8 0 (q % 8) x (omega arith)
          ∙ ap (λ n. bit n x == 1) d
          ∙ ap (λ n. bit (q % 8) (get_or (x ∷ b) n 0) == 1) (sym e)
    ]

get_or-zeros : (n i : ℕ) → get_or (replicate {A = ℕ} n 0) i 0 ≡ 0
get_or-zeros zero i = refl
get_or-zeros (suc n) zero = refl
get_or-zeros (suc n) (suc i) = get_or-zeros n i

wire_bit-zeros : (n q : ℕ) → wire_bit q (replicate n 0) ≡ false
wire_bit-zeros n q =
    rw (get_or-zeros n (length {A = ℕ} (replicate n 0) - q / 8 - 1), bit-zero (q % 8))

-- The array comes back from the bytes it was written as.
pub read_bits-collect :
    (n : ℕ) (xs : List Bool) (rest : List ℕ)
    → length xs ≡ 8 * n
    → read_bits n (collect 0 xs (replicate n 0) ++ rest) ≡ ok (xs, rest)
read_bits-collect n xs rest h =
    let zeros = replicate {A = ℕ} n 0 in
    let size : length zeros ≡ n = length-replicate n 0 in
    let b = collect 0 xs zeros in
    let wide : length b ≡ n = length-collect 0 xs zeros ∙ size in
    let whole = length-unpacked b in
    let same : (q : ℕ) → get_or (unpacked b) q false ≡ get_or xs q false = λ q.
      let e : q ≡ 0 + q = omega arith in
      let t : (q < 8 * n) ⊎ (8 * n ≤ q) = omega arith in
      elim t [
        | inl l ↦
            get_or-unpacked b q (omega (arith, l, wide))
            ∙ ap (λ i. wire_bit i b) e
            ∙ wire_bit-collect 0 q xs zeros (omega (arith, h, size)) (λ p u v. wire_bit-zeros n p)
                (omega (arith, l, h))
        | inr g ↦
            get_or-past (unpacked b) q (omega (arith, g, whole, wide))
            ∙ sym (get_or-past xs q (omega (arith, g, h)))
      ] in
    ap (λ i. read_bits i (b ++ rest)) (sym wide)
    ∙ read_bits-unpacked b rest
    ∙ ap (λ a. ok (a, rest)) (get_or_ext false (unpacked b) xs (omega (arith, whole, wide, h)) same)
