-- ===== src/Legacy/Selection/Marked.antt =====
-- Which bits of the mask of a selection are set, and which PCRs are read from it.
use go_tpm.Base.{
  ℕ, zero, suc, ◌+◌, ◌*◌, ◌-◌, ◌/◌, ◌%◌, ◌^◌, ◌≤◌, ◌<◌, ◌≡◌, refl, ap, ◌∙◌, sym, Bool, true, false,
  ◌||◌, ◌&&◌, List, [], ◌∷◌, ◌++◌, bit_and, bit_or, ◌==◌, leb, ltb, length, get_or, set, All, arith,
  Bool-cases, length-set, inl, inr,
}
use go_tpm.Base.Bits.{bit, bit-zero, bit-lt, div_pow-suc}
use native.Mathlib.Nat.{pow-suc, div-one}
use go_tpm.Base.Masks.{bit_and-pow}
use go_tpm.Base.Outcome.{ok}
use go_tpm.Tpm2.Pcrs.Selected.{is_selected, contains, is_selected-set, or_swap}
use go_tpm.Legacy.Selection.{mark_pcrs, set_bits, set_pcrs}

pub mark_pcrs-selected :
    (pcrs mask : List ℕ)
    → All (λ n. n < 24) pcrs
    → length mask ≡ 3
    → (s : List ℕ) × (mark_pcrs pcrs mask ≡ ok s)
      × (length s ≡ 3)
      × ((n : ℕ) → is_selected s n ≡ (contains pcrs n || is_selected mask n))
unfolding mark_pcrs
mark_pcrs-selected [] mask all size = (mask, refl, size, λ n. refl)
mark_pcrs-selected (pcr ∷ pcrs) mask all size =
    let byte = bit_or (get_or mask (pcr / 8) 0) (2 ^ (pcr % 8)) in
    let inside : leb 24 pcr ≡ false = ground (arith, all.0) in
    let (s, e, l, f) =
      mark_pcrs-selected pcrs (set mask (pcr / 8) byte) all.1
        (length-set mask (pcr / 8) byte ∙ size) in
    (
      s,
      rw inside e,
      l,
      λ n.
          f n
          ∙ ap (λ t. contains pcrs n || t) (is_selected-set mask pcr n (omega (arith, all.0, size)))
          ∙ or_swap (contains pcrs n) (pcr == n) (is_selected mask n),
    )

-- Bit `n % 8` of byte `n / 8`, where it is among the bits that are left.
abbrev among : (left k j byte n : ℕ) → Bool
among left k j byte n =
    (n / 8 == j) && (leb k (n % 8) && (ltb (n % 8) (k + left) && (bit (n % 8) byte == 1)))

bit-div : (k a : ℕ) → bit k a ≡ a / 2 ^ k % 2
bit-div zero a = ap (λ x. x % 2) (sym (div-one a))
bit-div (suc k) a = bit-div k (a / 2) ∙ ap (λ x. x % 2) (sym (div_pow-suc a k))

pow-positive : (k : ℕ) → 0 < 2 ^ k
pow-positive zero = omega arith
pow-positive (suc k) = omega (arith, pow-suc 2 k, pow-positive k)

zero_times : (b p : ℕ) → b < 2 → 0 < p → (b * p == 0) ≡ (b == 0)
zero_times zero p h pos = ground arith
zero_times (suc zero) p h pos = ground (arith, pos)
zero_times (suc (suc b)) p h pos = absurd (omega (arith, h))

bit_and-zero_bit : (k a : ℕ) → (bit_and a (2 ^ k) == 0) ≡ (bit k a == 0)
bit_and-zero_bit k a =
    ap (λ x. x == 0) (bit_and-pow k a ∙ ap (λ b. b * 2 ^ k) (sym (bit-div k a)))
    ∙ zero_times (bit k a) (2 ^ k) (bit-lt k a) (pow-positive k)

-- A bit that is not set, and one that is.
by_bit :
    (left k j byte n : ℕ)
    → (bit k byte == 0) ≡ true
    → among left (suc k) j byte n ≡ among (suc left) k j byte n
by_bit left k j byte n e = elim (Bool-cases (n % 8 == k)) [
  | inl t ↦
      let here : n % 8 ≡ k = ground (arith, t) in
      let same : bit (n % 8) byte ≡ bit k byte = ap (λ i. bit i byte) here in
      ground (arith, e, t, same)
  | inr t ↦ ground (arith, t)
]

by_set :
    (left k j byte n : ℕ)
    → k < 8
    → (bit k byte == 0) ≡ false
    → ((8 * j + k == n) || among left (suc k) j byte n) ≡ among (suc left) k j byte n
by_set left k j byte n h e = elim (Bool-cases (n % 8 == k)) [
  | inl t ↦
      let here : n % 8 ≡ k = ground (arith, t) in
      let same : bit (n % 8) byte ≡ bit k byte = ap (λ i. bit i byte) here in
      ground (arith, e, t, same, bit-lt k byte)
  | inr t ↦ ground (arith, t, h)
]

contains-set_bits :
    (left k j byte n : ℕ)
    → k + left ≤ 8
    → contains (set_bits left k j byte) n ≡ among left k j byte n
unfolding set_bits
contains-set_bits zero k j byte n h = ground arith
contains-set_bits (suc left) k j byte n h =
    let ih = contains-set_bits left (suc k) j byte n (omega (arith, h)) in
    rw (bit_and-zero_bit k byte) (elim (Bool-cases (bit k byte == 0)) [
      | inl e ↦ rw (e, ih) (by_bit left k j byte n e)
      | inr e ↦ rw (e, ih) (by_set left k j byte n (omega (arith, h)) e)
    ])

contains-append :
    (xs ys : List ℕ) (n : ℕ) → contains (xs ++ ys) n ≡ (contains xs n || contains ys n)
contains-append [] ys n = refl
contains-append (x ∷ xs) ys n =
    ap (λ t. (x == n) || t) (contains-append xs ys n)
    ∙ or_assoc (x == n) (contains xs n) (contains ys n)
  where
    or_assoc : (a b c : Bool) → (a || (b || c)) ≡ ((a || b) || c)
    or_assoc true b c = refl
    or_assoc false b c = refl

-- Bit `n % 8` of byte `n / 8`, of a mask that begins with byte `j`.
abbrev behind : ℕ → List ℕ → ℕ → Bool
behind j mask n = leb j (n / 8) && (bit (n % 8) (get_or mask (n / 8 - j) 0) == 1)

first_byte :
    (j byte : ℕ) (mask : List ℕ) (n : ℕ)
    → n / 8 ≡ j
    → bit (n % 8) (get_or (byte ∷ mask) (n / 8 - j) 0) ≡ bit (n % 8) byte
first_byte j byte mask n h =
    ap (λ i. bit (n % 8) (get_or (byte ∷ mask) i 0)) (let i : n / 8 - j ≡ 0 = omega (arith, h) in i)

later_byte :
    (j byte : ℕ) (mask : List ℕ) (n : ℕ)
    → j < n / 8
    → bit (n % 8) (get_or (byte ∷ mask) (n / 8 - j) 0) ≡ bit (n % 8) (get_or mask (n / 8 - suc j) 0)
later_byte j byte mask n h =
    ap (λ i. bit (n % 8) (get_or (byte ∷ mask) i 0))
      (let i : n / 8 - j ≡ suc (n / 8 - suc j) = omega (arith, h) in i)

behind-cons :
    (j byte : ℕ) (mask : List ℕ) (n : ℕ)
    → (among 8 0 j byte n || behind (suc j) mask n) ≡ behind j (byte ∷ mask) n
behind-cons j byte mask n = elim (Bool-cases (n / 8 == j)) [
  | inl e ↦ (let q : n / 8 ≡ j = ground (arith, e) in ground (arith, e, first_byte j byte mask n q))
  | inr e ↦ elim (Bool-cases (ltb j (n / 8))) [
    | inl l ↦
        (let q : j < n / 8 = ground (arith, l) in ground (arith, e, l, later_byte j byte mask n q))
    | inr l ↦ ground (arith, e, l)
  ]
]

contains-set_pcrs : (j : ℕ) (mask : List ℕ) (n : ℕ) → contains (set_pcrs j mask) n ≡ behind j mask n
unfolding set_pcrs
contains-set_pcrs j [] n = ground (arith, bit-zero (n % 8))
contains-set_pcrs j (byte ∷ mask) n =
    contains-append (set_bits 8 0 j byte) (set_pcrs (suc j) mask) n
    ∙ rw (contains-set_bits 8 0 j byte n (omega arith), contains-set_pcrs (suc j) mask n)
        (behind-cons j byte mask n)

-- The PCRs that are read from a mask are those that it selects.
pub set_pcrs-selected : (mask : List ℕ) (n : ℕ) → contains (set_pcrs 0 mask) n ≡ is_selected mask n
set_pcrs-selected mask n =
    contains-set_pcrs 0 mask n
    ∙ ap (λ i. leb 0 (n / 8) && (bit (n % 8) (get_or mask i 0) == 1))
        (let i : n / 8 - 0 ≡ n / 8 = omega arith in i)
    ∙ ground arith
