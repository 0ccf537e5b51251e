-- ===== src/Tpm2/Reflect/Bitwise/Wire.antt =====
-- The array as bytes, last byte first: what `marshalBitwise` writes, `unmarshalBitwise` reads.
use go_tpm.Base.{
  ℕ, zero, suc, ◌+◌, ◌-◌, ◌*◌, ◌/◌, ◌%◌, ◌^◌, ◌<◌, ◌≤◌, ◌≡◌, ◌≢◌, ◌⊎◌, inl, inr, refl, ap, ◌∙◌, sym,
  arith, Bool, true, false, List, [], ◌∷◌, bit_or, ◌==◌, length, get_or, set, length-set,
  get_or-set_self, get_or-set_ne,
}
use go_tpm.Base.Bits.{bit, bit-bit_or, bit-pow_self, bit-pow_ne, bit-lt}
use go_tpm.Tpm2.Reflect.Bitwise.{collect}

-- A bit of bytes, counted from the last one.
abbrev pub wire_bit : ℕ → List ℕ → Bool
wire_bit q b = bit (q % 8) (get_or b (length b - q / 8 - 1) 0) == 1

abbrev set_wire : ℕ → List ℕ → List ℕ
set_wire i b = let at = length b - i / 8 - 1 in set b at (bit_or (get_or b at 0) (2 ^ (i % 8)))

length-set_wire : (i : ℕ) (b : List ℕ) → length (set_wire i b) ≡ length b
length-set_wire i b = length-set b _ _

wire_bit-set : (i : ℕ) (b : List ℕ) → i < 8 * length b → wire_bit i (set_wire i b) ≡ true
wire_bit-set i b h =
    let at = length b - i / 8 - 1 in
    let x = get_or b at 0 in
    rw (length-set_wire i b, get_or-set_self b at (bit_or x (2 ^ (i % 8))) 0 (omega (arith, h)))
      (ground (arith, bit-bit_or (i % 8) x (2 ^ (i % 8)), bit-pow_self (i % 8), bit-lt (i % 8) x))

wire_bit-set_ne :
    (i q : ℕ) (b : List ℕ)
    → i < 8 * length b
    → q < 8 * length b
    → i ≢ q
    → wire_bit q (set_wire i b) ≡ wire_bit q b
wire_bit-set_ne i q b h k ne =
    let at = length b - i / 8 - 1 in
    let at' = length b - q / 8 - 1 in
    let x = get_or b at 0 in
    let t : (at ≡ at') ⊎ ((at < at') ⊎ (at' < at)) = omega arith in
    let other : at ≢ at' → wire_bit q (set_wire i b) ≡ wire_bit q b =
      λ e. rw (length-set_wire i b, get_or-set_ne b at at' (bit_or x (2 ^ (i % 8))) 0 e) in
    elim t [
      | inl e ↦
          let apart : q % 8 ≢ i % 8 = λ s. ne (omega (arith, e, s, h, k)) in
          ap (λ n. bit (q % 8) (get_or (set_wire i b) (n - q / 8 - 1) 0) == 1) (length-set_wire i b)
          ∙ ap (λ n. bit (q % 8) (get_or (set_wire i b) n 0) == 1) (sym e)
          ∙ ap (λ n. bit (q % 8) n == 1)
              (get_or-set_self b at (bit_or x (2 ^ (i % 8))) 0 (omega (arith, h)))
          ∙ ground (
            arith,
            bit-bit_or (q % 8) x (2 ^ (i % 8)),
            bit-pow_ne (q % 8) (i % 8) apart,
            bit-lt (q % 8) x,
          )
          ∙ ap (λ n. bit (q % 8) (get_or b n 0) == 1) e
      | inr (inl l) ↦ other (λ e. omega (arith, l, e))
      | inr (inr l) ↦ other (λ e. omega (arith, l, e))
    ]

pub length-collect : (i : ℕ) (xs : List Bool) (b : List ℕ) → length (collect i xs b) ≡ length b
unfolding collect
length-collect i [] b = refl
length-collect i (true ∷ xs) b = length-collect (i + 1) xs (set_wire i b) ∙ length-set_wire i b
length-collect i (false ∷ xs) b = length-collect (i + 1) xs b

collect-kept :
    (i q : ℕ) (xs : List Bool) (b : List ℕ)
    → i + length xs ≡ 8 * length b
    → q < i
    → wire_bit q (collect i xs b) ≡ wire_bit q b
unfolding collect
collect-kept i q [] b h k = refl
collect-kept i q (true ∷ xs) b h k =
    let size = length-set_wire i b in
    collect-kept (i + 1) q xs (set_wire i b) (omega (arith, h, size)) (omega (arith, k))
    ∙ wire_bit-set_ne i q b (omega (arith, h)) (omega (arith, h, k)) (λ e. omega (arith, e, k))
collect-kept i q (false ∷ xs) b h k =
    collect-kept (i + 1) q xs b (omega (arith, h)) (omega (arith, k))

-- Over bytes with no bit set from bit `i` on, the bits that are set are those of the array.
pub wire_bit-collect :
    (i j : ℕ) (xs : List Bool) (b : List ℕ)
    → i + length xs ≡ 8 * length b
    → ((q : ℕ) → i ≤ q → q < 8 * length b → wire_bit q b ≡ false)
    → j < length xs
    → wire_bit (i + j) (collect i xs b) ≡ get_or xs j false
unfolding collect
wire_bit-collect i j [] b h z k = absurd (omega (arith, k))
wire_bit-collect i zero (true ∷ xs) b h z k =
    let size = length-set_wire i b in
    let e : i + 0 ≡ i = omega arith in
    ap (λ n. wire_bit n (collect (i + 1) xs (set_wire i b))) e
    ∙ collect-kept (i + 1) i xs (set_wire i b) (omega (arith, h, size)) (omega arith)
    ∙ wire_bit-set i b (omega (arith, h))
wire_bit-collect i zero (false ∷ xs) b h z k =
    let e : i + 0 ≡ i = omega arith in
    ap (λ n. wire_bit n (collect (i + 1) xs b)) e
    ∙ collect-kept (i + 1) i xs b (omega (arith, h)) (omega arith)
    ∙ z i (omega arith) (omega (arith, h))
wire_bit-collect i (suc j) (true ∷ xs) b h z k =
    let size = length-set_wire i b in
    let e : i + suc j ≡ i + 1 + j = omega arith in
    ap (λ n. wire_bit n (collect (i + 1) xs (set_wire i b))) e
    ∙ wire_bit-collect (i + 1) j xs (set_wire i b) (omega (arith, h, size))
        (λ q l m.
          wire_bit-set_ne i q b (omega (arith, h)) (omega (arith, m, size))
            (λ o. omega (arith, o, l))
          ∙ z q (omega (arith, l)) (omega (arith, m, size)))
        (omega (arith, k))
wire_bit-collect i (suc j) (false ∷ xs) b h z k =
    let e : i + suc j ≡ i + 1 + j = omega arith in
    ap (λ n. wire_bit n (collect (i + 1) xs b)) e
    ∙ wire_bit-collect (i + 1) j xs b (omega (arith, h)) (λ q l m. z q (omega (arith, l)) m)
        (omega (arith, k))
