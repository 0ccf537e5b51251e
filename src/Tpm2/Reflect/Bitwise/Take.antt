-- ===== src/Tpm2/Reflect/Bitwise/Take.antt =====
-- What the loops of `marshalBitwise` put in the array, those of `unmarshalBitwise` take from it.
use go_tpm.Base.{
  ℕ, zero, suc, ◌+◌, ◌*◌, ◌%◌, ◌^◌, ◌<◌, ◌≤◌, ◌≡◌, ◌⊎◌, inl, inr, refl, ap, ◌∙◌, sym, arith, Bool,
  true, false, ◌&&◌, ◌||◌, List, [], ◌∷◌, Option, none, some, bit_or, ◌==◌, leb, if◌then◌else◌,
  not_both, ltb-true, length, get_or, set, length-set, get_or-set_ne,
}
use go_tpm.Base.Bits.{bit}
use go_tpm.Base.Bytes.{put_be}
use go_tpm.Base.Outcome.{ok}
use go_tpm.Tpm2.Bitfield.{put_reserved_bit}
use go_tpm.Tpm2.Reflect.Types.{BitField, Width, size_of}
use go_tpm.Tpm2.Reflect.Bitwise.{
  field_bytes, field_value, copy_bits, copy_fields, take_bits, take_fields,
}
use go_tpm.Tpm2.Reflect.Bitwise.Digits.{add_bit, skip_bit, bytes_as_bits}
use go_tpm.Tpm2.Reflect.Bitwise.Copy.{
  copied, length-copied, copied-outside, copied-inside, copy_bits-copied,
}
use go_tpm.Tpm2.Reflect.Bitwise.Fields.{
  span, write_field, clear_field, written_fields, cleared_fields, Holds, below,
  written_fields-outside,
}
use go_tpm.Tpm2.Reflect.Valid.{FieldsFit, in_fields, field_bits}
use native.Mathlib.Nat.{mod-eq_of_lt, pow-le-pow_right, mod-one}

-- A field's value is written whole, and `SetBool` and `SetUint` keep one that fits.
width_bits : Option Width → ℕ
width_bits o = elim o [ none ↦ 1 | some w ↦ 8 * size_of w ]

write_width :
    (o : Option Width) (v low s : ℕ) (array : List Bool)
    → s ≤ width_bits o
    → low + s ≤ length array
    → copy_bits (elim o [ none ↦ put_be 1 v | some w ↦ put_be (size_of w) v ]) low s 0 array
      ≡ ok (copied (λ j. bit j v == 1) low s 0 array)
unfolding width_bits
write_width none v low s array h fits =
    copy_bits-copied 1 v low s 0 array (omega (arith, h)) (omega (arith, fits))
write_width (some w) v low s array h fits =
    copy_bits-copied (size_of w) v low s 0 array (omega (arith, h)) (omega (arith, fits))

keep_width :
    (o : Option Width) (v s : ℕ)
    → s ≤ width_bits o
    → v < 2 ^ s
    → elim o [ none ↦ v % 2 | some w ↦ v % 256 ^ size_of w ] ≡ v
unfolding width_bits
keep_width none v s h fits =
    let two : 0 < 2 = omega arith in
    mod-eq_of_lt (omega (arith, fits, pow-le-pow_right {n = 2} two {i = s} {j = 1} h))
keep_width (some w) v s h fits =
    let two : 0 < 2 = omega arith in
    mod-eq_of_lt (
      omega (
        arith,
        fits,
        bytes_as_bits (size_of w),
        pow-le-pow_right {n = 2} two {i = s} {j = 8 * size_of w} h,
      ))

write_field-ok :
    (f : BitField) (v : ℕ) (array : List Bool)
    → span f ≤ field_bits f
    → f.low + span f ≤ length array
    → copy_bits (field_bytes f v) f.low (span f) 0 array ≡ ok (write_field f v array)
unfolding width_bits
write_field-ok f v array h fits = write_width f.width v f.low (span f) array h fits

pub copy_fields-written :
    (n from : ℕ) (fs : List BitField) (vs : List ℕ) (array : List Bool)
    → FieldsFit n from fs vs
    → n ≤ length array
    → copy_fields fs vs array ≡ ok (written_fields fs vs array)
unfolding copy_fields
copy_fields-written n from [] vs array h l = refl
copy_fields-written n from (f ∷ fs) [] array h l = refl
copy_fields-written n from (f ∷ fs) (v ∷ vs) array h l =
    let size = length-copied (λ j. bit j v == 1) f.low (span f) 0 array in
    rw (write_field-ok f v array h.3 (omega (arith, h.1, h.2, l))) (
      copy_fields-written n (f.high + 1) fs vs (write_field f v array) h.5 (omega (arith, l, size)))

-- Only the fields' bits count.
pub Holds-on :
    (n from : ℕ) (fs : List BitField) (vs : List ℕ) (a b : List Bool)
    → FieldsFit n from fs vs
    → ((p : ℕ) → in_fields fs p ≡ true → get_or a p false ≡ get_or b p false)
    → Holds fs vs a
    → Holds fs vs b
Holds-on n from [] vs a b h e k = tt
Holds-on n from (f ∷ fs) [] a b h e k = tt
Holds-on n from (f ∷ fs) (v ∷ vs) a b h e k = (
  λ j l.
      let here : (leb f.low (f.low + j) && leb (f.low + j) f.high) ≡ true =
        ground (arith, h.1, l) in
      sym (e (f.low + j) (rw here)) ∙ k.0 j l,
  Holds-on n (f.high + 1) fs vs a b h.5 (λ p t. e p (or_true _ _ t)) k.1,
)
  where
    or_true : (x y : Bool) → y ≡ true → (x || y) ≡ true
    or_true true y t = refl
    or_true false y t = t

Holds-same :
    (n from : ℕ) (fs : List BitField) (vs : List ℕ) (a b : List Bool)
    → FieldsFit n from fs vs
    → ((p : ℕ) → from ≤ p → get_or a p false ≡ get_or b p false)
    → Holds fs vs a
    → Holds fs vs b
Holds-same n from fs vs a b h e = Holds-on n from fs vs a b h (λ p t.
    let o : (p < from) ⊎ (from ≤ p) = omega arith in
    elim o [ inl l ↦ absurd (not_both t (below n from p fs vs h l)) | inr g ↦ e p g ])

pub written_fields-Holds :
    (n from : ℕ) (fs : List BitField) (vs : List ℕ) (array : List Bool)
    → FieldsFit n from fs vs
    → n ≤ length array
    → Holds fs vs (written_fields fs vs array)
written_fields-Holds n from [] vs array h l = tt
written_fields-Holds n from (f ∷ fs) [] array h l = tt
written_fields-Holds n from (f ∷ fs) (v ∷ vs) array h l =
    let size = length-copied (λ j. bit j v == 1) f.low (span f) 0 array in
    (
      λ j k.
          written_fields-outside n (f.high + 1) (f.low + j) fs vs (write_field f v array) h.5
            (below n (f.high + 1) (f.low + j) fs vs h.5 (omega (arith, h.1, k)))
          ∙ copied-inside (λ i. bit i v == 1) f.low (span f) 0 j array (omega arith)
              (omega (arith, k)) (omega (arith, h.1, h.2, l)),
      written_fields-Holds n (f.high + 1) fs vs (write_field f v array) h.5
          (omega (arith, l, size)),
    )

add_digit :
    (w x j : ℕ) (b : Bool)
    → j < w
    → x < 2 ^ w
    → b ≡ (bit j x == 1)
    → (if b then bit_or (x % 2 ^ j) (2 ^ j) else x % 2 ^ j) ≡ x % 2 ^ suc j
unfolding put_reserved_bit
add_digit w x j true h fits e = ap (put_reserved_bit w (x % 2 ^ j) j) e ∙ add_bit w x j h fits
add_digit w x j false h fits e = sym (skip_bit x j (sym e))

-- The inner loop of `unmarshalBitwise` collects the value whose digits the array holds.
take_bits-value :
    (x low left j : ℕ) (array : List Bool)
    → x < 2 ^ (j + left)
    → low + j + left ≤ length array
    → ((k : ℕ) → j ≤ k → k < j + left → get_or array (low + k) false ≡ (bit k x == 1))
    → take_bits low left j (x % 2 ^ j) array
      ≡ ok (x % 2 ^ (j + left), copied (λ i. false) low left j array)
unfolding take_bits
take_bits-value x low zero j array fits room h =
    let e : j ≡ j + 0 = omega arith in ap (λ n. ok (x % 2 ^ n, array)) e
take_bits-value x low (suc left) j array fits room h =
    let e : j + 1 + left ≡ j + suc left = omega arith in
    let s : suc j ≡ j + 1 = omega arith in
    let array' = set array (low + j) false in
    let size = length-set array (low + j) false in
    rw
      (
        ltb-true (low + j) (length array) (omega (arith, room)),
        add_digit (j + suc left) x j (get_or array (low + j) false) (omega arith) fits
            (h j (omega arith) (omega arith)),
        s,
      )
      (take_bits-value x low left (j + 1) array' (rw e fits) (omega (arith, room, size)) (λ k l m.
          get_or-set_ne array (low + j) (low + k) false false (λ o. omega (arith, l, o))
          ∙ h k (omega (arith, l)) (omega (arith, m)))
        ∙ ap (λ n. ok (x % 2 ^ n, copied (λ i. false) low left (j + 1) array')) e)

field_value-fits :
    (f : BitField) (v : ℕ) → span f ≤ field_bits f → v < 2 ^ span f → field_value f v ≡ v
unfolding width_bits
field_value-fits f v h fits = keep_width f.width v (span f) h fits

take_field :
    (f : BitField) (v : ℕ) (array : List Bool)
    → f.low ≤ f.high
    → f.low + span f ≤ length array
    → v < 2 ^ span f
    → ((j : ℕ) → j < span f → get_or array (f.low + j) false ≡ (bit j v == 1))
    → take_bits f.low (span f) 0 0 array ≡ ok (v, clear_field f array)
take_field f v array o room fits h =
    let e : 0 + span f ≡ span f = omega arith in
    let z : v % 2 ^ 0 ≡ 0 = mod-one v in
    let whole : v % 2 ^ (0 + span f) ≡ v = ap (λ n. v % 2 ^ n) e ∙ mod-eq_of_lt fits in
    ap (λ t. take_bits f.low (span f) 0 t array) (sym z)
    ∙ take_bits-value v f.low (span f) 0 array (rw e fits) (omega (arith, room))
        (λ k l m. h k (omega (arith, m)))
    ∙ ap (λ t. ok (t, clear_field f array)) whole

pub take_fields-values :
    (n from : ℕ) (fs : List BitField) (vs : List ℕ) (array : List Bool)
    → FieldsFit n from fs vs
    → n ≤ length array
    → Holds fs vs array
    → take_fields fs array ≡ ok (vs, cleared_fields fs array)
unfolding take_fields
take_fields-values n from [] [] array h l k = refl
take_fields-values n from [] (v ∷ vs) array h l k = elim h [ ]
take_fields-values n from (f ∷ fs) [] array h l k = elim h [ ]
take_fields-values n from (f ∷ fs) (v ∷ vs) array h l k =
    let size = length-copied (λ j. false) f.low (span f) 0 array in
    rw (take_field f v array h.1 (omega (arith, h.1, h.2, l)) h.4 k.0) (
      rw (
        take_fields-values n (f.high + 1) fs vs (clear_field f array) h.5 (omega (arith, l, size)) (
            Holds-same n (f.high + 1) fs vs array (clear_field f array) h.5
              (λ p q. sym (
                copied-outside (λ j. false) f.low (span f) 0 p array (inr (omega (arith, h.1, q)))))
              k.1),
        field_value-fits f v h.3 h.4,
      ))
