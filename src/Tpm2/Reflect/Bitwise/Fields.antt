-- ===== src/Tpm2/Reflect/Bitwise/Fields.antt =====
-- The loops over the fields of a bitwise struct, as writes to the array.
use go_tpm.Base.{
  ℕ, ◌+◌, ◌-◌, ◌<◌, ◌≤◌, ◌≡◌, inl, inr, refl, ap, ◌∙◌, sym, arith, Bool, true, false, ◌&&◌, ◌||◌,
  Bool-cases, List, [], ◌∷◌, ◌==◌, leb, length, get_or,
}
use go_tpm.Base.Bits.{bit}
use go_tpm.Tpm2.Reflect.Types.{BitField}
use go_tpm.Tpm2.Reflect.Bitwise.Copy.{copied, length-copied, copied-outside, copied-inside}
use go_tpm.Tpm2.Reflect.Valid.{FieldsFit, in_fields}

abbrev pub span : BitField → ℕ
span f = f.high - f.low + 1

abbrev pub write_field : BitField → ℕ → List Bool → List Bool
write_field f v array = copied (λ j. bit j v == 1) f.low (span f) 0 array

abbrev pub clear_field : BitField → List Bool → List Bool
clear_field f array = copied (λ j. false) f.low (span f) 0 array

-- The arrays that the loops of `marshalBitwise` and `unmarshalBitwise` leave.
abbrev pub written_fields : List BitField → List ℕ → List Bool → List Bool
written_fields [] vs array = array
written_fields (f ∷ fs) [] array = array
written_fields (f ∷ fs) (v ∷ vs) array = written_fields fs vs (write_field f v array)

abbrev pub cleared_fields : List BitField → List Bool → List Bool
cleared_fields [] array = array
cleared_fields (f ∷ fs) array = cleared_fields fs (clear_field f array)

-- The array holds the digits of the values in the fields' bits.
abbrev pub Holds : List BitField → List ℕ → List Bool → Type 0
Holds (f ∷ fs) (v ∷ vs) array =
    ((j : ℕ) → j < span f → get_or array (f.low + j) false ≡ (bit j v == 1)) × Holds fs vs array
Holds _ _ array = Unit

pub copied-away :
    (f : BitField) (y : ℕ → Bool) (p : ℕ) (array : List Bool)
    → f.low ≤ f.high
    → (leb f.low p && leb p f.high) ≡ false
    → get_or (copied y f.low (span f) 0 array) p false ≡ get_or array p false
copied-away f y p array o h = copied-outside y f.low (span f) 0 p array (ground (arith, o, h))

or_false : (a b : Bool) → (a || b) ≡ false → (a ≡ false) × (b ≡ false)
or_false true b h = absurd (ground (arith, h))
or_false false b h = (refl, h)

pub length-written_fields :
    (fs : List BitField) (vs : List ℕ) (array : List Bool)
    → length (written_fields fs vs array) ≡ length array
length-written_fields [] vs array = refl
length-written_fields (f ∷ fs) [] array = refl
length-written_fields (f ∷ fs) (v ∷ vs) array =
    length-written_fields fs vs _ ∙ length-copied _ f.low (span f) 0 array

pub length-cleared_fields :
    (fs : List BitField) (array : List Bool) → length (cleared_fields fs array) ≡ length array
length-cleared_fields [] array = refl
length-cleared_fields (f ∷ fs) array =
    length-cleared_fields fs _ ∙ length-copied _ f.low (span f) 0 array

-- The other bits are kept.
pub written_fields-outside :
    (n from p : ℕ) (fs : List BitField) (vs : List ℕ) (array : List Bool)
    → FieldsFit n from fs vs
    → in_fields fs p ≡ false
    → get_or (written_fields fs vs array) p false ≡ get_or array p false
written_fields-outside n from p [] vs array h k = refl
written_fields-outside n from p (f ∷ fs) [] array h k = refl
written_fields-outside n from p (f ∷ fs) (v ∷ vs) array h k =
    let away = or_false _ _ k in
    written_fields-outside n (f.high + 1) p fs vs _ h.5 away.1 ∙ copied-away f _ p array h.1 away.0

pub cleared_fields-outside :
    (n from p : ℕ) (fs : List BitField) (vs : List ℕ) (array : List Bool)
    → FieldsFit n from fs vs
    → in_fields fs p ≡ false
    → get_or (cleared_fields fs array) p false ≡ get_or array p false
cleared_fields-outside n from p [] vs array h k = refl
cleared_fields-outside n from p (f ∷ fs) [] array h k = elim h [ ]
cleared_fields-outside n from p (f ∷ fs) (v ∷ vs) array h k =
    let away = or_false _ _ k in
    cleared_fields-outside n (f.high + 1) p fs vs _ h.5 away.1 ∙ copied-away f _ p array h.1 away.0

-- Bits below the first field are in none.
pub below :
    (n from p : ℕ) (fs : List BitField) (vs : List ℕ)
    → FieldsFit n from fs vs
    → p < from
    → in_fields fs p ≡ false
below n from p [] vs h k = refl
below n from p (f ∷ fs) [] h k = elim h [ ]
below n from p (f ∷ fs) (v ∷ vs) h k =
    let i = below n (f.high + 1) p fs vs h.5 (omega (arith, h.0, h.1, k)) in
    let o : (leb f.low p && leb p f.high) ≡ false = ground (arith, h.0, k) in rw (o, i)

-- The fields' bits are cleared.
pub cleared_fields-inside :
    (n from p : ℕ) (fs : List BitField) (vs : List ℕ) (array : List Bool)
    → FieldsFit n from fs vs
    → n ≤ length array
    → in_fields fs p ≡ true
    → get_or (cleared_fields fs array) p false ≡ false
cleared_fields-inside n from p [] vs array h l k = absurd (ground (arith, k))
cleared_fields-inside n from p (f ∷ fs) [] array h l k = elim h [ ]
cleared_fields-inside n from p (f ∷ fs) (v ∷ vs) array h l k =
    let size = length-copied (λ j. false) f.low (span f) 0 array in
    elim (Bool-cases (in_fields fs p)) [
      | inl t ↦ cleared_fields-inside n (f.high + 1) p fs vs _ h.5 (omega (arith, l, size)) t
      | inr e ↦
          let here : (leb f.low p && leb p f.high) ≡ true = ground (arith, k, e) in
          let low : f.low ≤ p = ground (arith, here) in
          let high : p ≤ f.high = ground (arith, here) in
          let at : f.low + (p - f.low) ≡ p = omega (arith, low) in
          cleared_fields-outside n (f.high + 1) p fs vs _ h.5 e
          ∙ ap (λ q. get_or (clear_field f array) q false) (sym at)
          ∙ copied-inside (λ j. false) f.low (span f) 0 (p - f.low) array (omega arith)
              (omega (arith, low, high)) (omega (arith, h.1, h.2, l))
    ]

-- The fields are within the array.
pub in_fields-lt :
    (n from p : ℕ) (fs : List BitField) (vs : List ℕ)
    → FieldsFit n from fs vs
    → in_fields fs p ≡ true
    → p < n
in_fields-lt n from p [] vs h k = absurd (ground (arith, k))
in_fields-lt n from p (f ∷ fs) [] h k = elim h [ ]
in_fields-lt n from p (f ∷ fs) (v ∷ vs) h k = elim (Bool-cases (in_fields fs p)) [
  | inl t ↦ in_fields-lt n (f.high + 1) p fs vs h.5 t
  | inr e ↦ ground (arith, h.2, k, e)
]
