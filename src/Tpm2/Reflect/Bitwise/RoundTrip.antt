-- ===== src/Tpm2/Reflect/Bitwise/RoundTrip.antt =====
-- `unmarshalBitwise` reads back what `marshalBitwise` wrote.
use go_tpm.Base.{
  ℕ, zero, suc, ◌+◌, ◌*◌, ◌<◌, ◌≤◌, ◌≡◌, inl, inr, refl, ap, ◌∙◌, sym, arith, Bool, true, false,
  ◌||◌, Bool-cases, List, ◌++◌, ◌==◌, length, get_or, replicate, length-replicate,
}
use go_tpm.Base.Bits.{bit}
use go_tpm.Base.Outcome.{ok}
use go_tpm.Tpm2.Reflect.Types.{BitField, BitStruct}
use go_tpm.Tpm2.Reflect.Bitwise.{
  marshal_bitwise, unmarshal_bitwise, add_reserved, set_reserved, collect,
}
use go_tpm.Tpm2.Reflect.Bitwise.Fields.{
  written_fields, cleared_fields, Holds, length-written_fields, length-cleared_fields,
  written_fields-outside, cleared_fields-outside, cleared_fields-inside, in_fields-lt,
}
use go_tpm.Tpm2.Reflect.Bitwise.Take.{
  copy_fields-written, written_fields-Holds, take_fields-values, Holds-on,
}
use go_tpm.Tpm2.Reflect.Bitwise.Wire.{length-collect}
use go_tpm.Tpm2.Reflect.Bitwise.Read.{read_bits-collect}
use go_tpm.Tpm2.Reflect.Bitwise.Reserved.{
  length-add_reserved, get_or-add_reserved, set_reserved-all,
}
use go_tpm.Tpm2.Reflect.RoundTrip.Parts.{Agree}
use go_tpm.Tpm2.Reflect.Valid.{ValidBits, in_fields}

get_or-falses : (n i : ℕ) → get_or (replicate n false) i false ≡ false
get_or-falses zero i = refl
get_or-falses (suc n) zero = refl
get_or-falses (suc n) (suc i) = get_or-falses n i

or_clear : (x : Bool) (d : ℕ) → d ≡ 0 → (x || (d == 1)) ≡ x
or_clear true d e = refl
or_clear false d e = rw e

module _ (n : ℕ) (fs : List BitField) (v : BitStruct) (h : ValidBits n fs v) where
  zeros : List Bool
  zeros = replicate (8 * n) false

  filled : List Bool
  filled = written_fields fs v.fields zeros

  -- The array that `marshalBitwise` packs.
  packed : List Bool
  packed = add_reserved v.reserved 0 filled

  length-filled : length filled ≡ 8 * n
  unfolding zeros filled
  length-filled = length-written_fields fs v.fields zeros ∙ length-replicate (8 * n) false

  length-packed : length packed ≡ 8 * n
  unfolding packed
  length-packed = length-add_reserved v.reserved 0 filled ∙ length-filled

  get_or-packed :
      (p : ℕ)
      → p < 8 * n
      → get_or packed p false ≡ (get_or filled p false || (bit p v.reserved == 1))
  unfolding packed
  get_or-packed p l =
      let e : 0 + p ≡ p = omega arith in
      get_or-add_reserved v.reserved 0 p filled (omega (arith, l, length-filled))
      ∙ ap (λ i. get_or filled p false || (bit i v.reserved == 1)) e

  packed-Holds : Holds fs v.fields packed
  unfolding zeros filled
  packed-Holds =
      let room : 8 * n ≤ length zeros = omega (arith, length-replicate (8 * n) false) in
      Holds-on (8 * n) 0 fs v.fields filled packed h.0
        (λ p t. sym (
          get_or-packed p (in_fields-lt (8 * n) 0 p fs v.fields h.0 t)
          ∙ or_clear (get_or filled p false) (bit p v.reserved) (h.2 p t)))
        (written_fields-Holds (8 * n) 0 fs v.fields zeros h.0 room)

  -- Once the fields are taken, the reserved bits are left.
  get_or-left :
      (p : ℕ) → p < 8 * n → get_or (cleared_fields fs packed) p false ≡ (bit p v.reserved == 1)
  unfolding zeros filled
  get_or-left p l = elim (Bool-cases (in_fields fs p)) [
    | inl t ↦
        cleared_fields-inside (8 * n) 0 p fs v.fields packed h.0 (omega (arith, length-packed)) t
        ∙ rw (h.2 p t)
    | inr o ↦
        cleared_fields-outside (8 * n) 0 p fs v.fields packed h.0 o
        ∙ get_or-packed p l
        ∙ ap (λ b. b || (bit p v.reserved == 1))
            (written_fields-outside (8 * n) 0 p fs v.fields zeros h.0 o ∙ get_or-falses (8 * n) p)
  ]

  reserved_back : set_reserved (8 * n) 0 (cleared_fields fs packed) 0 ≡ v.reserved
  reserved_back =
      set_reserved-all (8 * n) v.reserved (cleared_fields fs packed) h.1
        (length-cleared_fields fs packed ∙ length-packed) get_or-left

  bits-writes : marshal_bitwise n fs v ≡ ok (collect 0 packed (replicate n 0))
  unfolding marshal_bitwise zeros filled packed
  bits-writes =
      let room : 8 * n ≤ length zeros = omega (arith, length-replicate (8 * n) false) in
      rw (copy_fields-written (8 * n) 0 fs v.fields zeros h.0 room)

  bits-reads :
      (rest : List ℕ)
      → unmarshal_bitwise n fs (collect 0 packed (replicate n 0) ++ rest) ≡ ok (v, rest)
  unfolding unmarshal_bitwise
  bits-reads rest =
      let wide : 8 * n ≤ length packed = omega (arith, length-packed) in
      rw (
        read_bits-collect n packed rest length-packed,
        take_fields-values (8 * n) 0 fs v.fields packed h.0 wide packed-Holds,
        reserved_back,
      )

  pub bits-Agree : Agree (marshal_bitwise n fs v) (unmarshal_bitwise n fs) v
  bits-Agree = record {
    bytes = collect 0 packed (replicate n 0);
    writes = bits-writes;
    reads = bits-reads;
  }

-- When the fields ascend, each value fits in its field and no reserved bit is set where a field
-- is, `marshalBitwise` gives as many bytes as the bitfield has, and `unmarshalBitwise` reads the
-- same values and reserved bits back from them, leaving the bytes behind.
pub unmarshal_bitwise-marshal :
    (n : ℕ) (fs : List BitField) (v : BitStruct) (rest : List ℕ)
    → ValidBits n fs v
    → (b : List ℕ) × (marshal_bitwise n fs v ≡ ok b)
      × (length b ≡ n)
      × (unmarshal_bitwise n fs (b ++ rest) ≡ ok (v, rest))
unmarshal_bitwise-marshal n fs v rest h =
    let array = packed n fs v h in
    (
      collect 0 array (replicate n 0),
      bits-writes n fs v h,
      length-collect 0 array (replicate n 0) ∙ length-replicate n 0,
      bits-reads n fs v h rest,
    )
