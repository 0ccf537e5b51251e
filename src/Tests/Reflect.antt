-- ===== src/Tests/Reflect.antt =====
-- tpm2/reflect.go on values of tpm2/structures.go.
use go_tpm.Base.{
  not_both, ap, ℕ, ◌≤◌, ◌≡◌, ◌≢◌, refl, List, [], ◌∷◌, ◌++◌, none, some, inl, inr, length, drop,
  take, arith,
}
use go_tpm.Base.Bits.{bit-pow_ne}
use go_tpm.Base.Bytes.{get_be, put_be, be_from}
use go_tpm.Base.Outcome.{ok, err}
use go_tpm.Tpm2.Fault.{eof}
use go_tpm.Tpm2.Reflect.Types.{El, BitField, BitStruct, slice, num, sized_2b, w8, w16}
use go_tpm.Tpm2.Reflect.Selectors.{alg_null, lookup, selectors}
use go_tpm.Tpm2.Reflect.Marshal.{marshal, marshal_array, nullable_form}
use go_tpm.Tpm2.Reflect.Unmarshal.{
  unmarshal, unmarshal_array, read_num, read_2b, read_size, zero_selectors,
}
use go_tpm.Tpm2.Reflect.Valid.{Valid, settle, in_fields}
use go_tpm.Tpm2.Reflect.Bitwise.{marshal_bitwise, unmarshal_bitwise}
use go_tpm.Tpm2.Reflect.Bitwise.RoundTrip.{unmarshal_bitwise-marshal}
use go_tpm.Tpm2.Structures.Attributes.{tpma_cc}
use go_tpm.Tpm2.Structures.Tags.{bool_bits, num_bits}
use go_tpm.Tpm2.Reflect.RoundTrip.{unmarshal-marshal}
use go_tpm.Tpm2.Structures.Symmetric.{tpmt_sym_def}
use go_tpm.Tpm2.Structures.Lists.{tpml_digest_values}

abbrev aes_128_cfb : El tpmt_sym_def
aes_128_cfb = (6, (some (inl 128), (some (inl 0x43), (some (inl tt), tt))))

marshal-aes : marshal tpmt_sym_def aes_128_cfb ≡ ok (0 ∷ 6 ∷ 0 ∷ 128 ∷ 0 ∷ 0x43 ∷ [])
unfolding marshal nullable_form lookup selectors put_be
marshal-aes = refl

ne_null : 6 ≢ alg_null
ne_null = omega arith

aes_Valid : Valid tpmt_sym_def aes_128_cfb
unfolding lookup selectors
aes_Valid = (
  (tt, tt),
  (
    refl,
    inl (refl, refl, omega arith),
    (
      refl,
      inr (ne_null, (refl, omega arith)),
      (refl, inr (ne_null, (refl, omega arith)), (refl, inr (ne_null, (refl, (tt, tt))), tt)),
    ),
  ),
)

unmarshal-marshal_example :
    (b : List ℕ) × (marshal tpmt_sym_def aes_128_cfb ≡ ok b)
    × (unmarshal tpmt_sym_def (b ++ 1 ∷ 2 ∷ []) ≡ ok (settle tpmt_sym_def aes_128_cfb, 1 ∷ 2 ∷ []))
unmarshal-marshal_example = unmarshal-marshal tpmt_sym_def aes_128_cfb (1 ∷ 2 ∷ []) aes_Valid

-- TPM2_Load with one handle in front and three behind, and one of the reserved bits set.
abbrev load_attributes : BitStruct
load_attributes = record { fields = 0x157 ∷ 0 ∷ 0 ∷ 0 ∷ 3 ∷ 1 ∷ 0 ∷ []; reserved = 0x80000000 }

abbrev cc_fields : List BitField
cc_fields =
    num_bits w16 15 0
    ∷ bool_bits 22 22
    ∷ bool_bits 23 23
    ∷ bool_bits 24 24
    ∷ num_bits w8 27 25
    ∷ bool_bits 28 28
    ∷ bool_bits 29 29
    ∷ []

load_attributes-Valid : Valid tpma_cc load_attributes
load_attributes-Valid = (
  (
    omega arith,
    omega arith,
    omega arith,
    omega arith,
    omega arith,
    (
      omega arith,
      omega arith,
      omega arith,
      omega arith,
      omega arith,
      (
        omega arith,
        omega arith,
        omega arith,
        omega arith,
        omega arith,
        (
          omega arith,
          omega arith,
          omega arith,
          omega arith,
          omega arith,
          (
            omega arith,
            omega arith,
            omega arith,
            omega arith,
            omega arith,
            (
              omega arith,
              omega arith,
              omega arith,
              omega arith,
              omega arith,
              (omega arith, omega arith, omega arith, omega arith, omega arith, tt),
            ),
          ),
        ),
      ),
    ),
  ),
  omega arith,
  λ p h. bit-pow_ne p 31 (λ e. not_both h (ap (in_fields cc_fields) e)),
)

marshal-load_attributes : marshal tpma_cc load_attributes ≡ ok (0x96 ∷ 0 ∷ 1 ∷ 0x57 ∷ [])
unfolding marshal marshal_bitwise put_be
marshal-load_attributes = refl

unmarshal_bitwise-marshal_example :
    (b : List ℕ) × (marshal_bitwise 4 cc_fields load_attributes ≡ ok b)
    × (length b ≡ 4)
    × (unmarshal_bitwise 4 cc_fields (b ++ 7 ∷ []) ≡ ok (load_attributes, 7 ∷ []))
unmarshal_bitwise-marshal_example =
    unmarshal_bitwise-marshal 4 cc_fields load_attributes (7 ∷ []) load_attributes-Valid

abbrev two_words : List ℕ
two_words = 0 ∷ 0 ∷ 0 ∷ 2 ∷ 1 ∷ 4 ∷ 0 ∷ 11 ∷ 9 ∷ []

unmarshal-words : unmarshal (slice (num w16)) two_words ≡ ok (260 ∷ 11 ∷ [], 9 ∷ [])
unfolding unmarshal unmarshal_array read_num get_be
unmarshal-words = refl

abbrev sized_bytes : List ℕ
sized_bytes = 0 ∷ 2 ∷ 7 ∷ 8 ∷ 9 ∷ []

enough_bytes : get_be (take 2 sized_bytes) ≤ length (drop 2 sized_bytes)
unfolding get_be be_from
enough_bytes = omega arith

-- A size that is cut off is read as an empty TPM2B.
unmarshal-cut_size :
    unmarshal (sized_2b (num w8)) (5 ∷ []) ≡ ok (record { contents = none; buffer = some [] }, [])
unfolding unmarshal read_2b read_size
unmarshal-cut_size = refl

-- Two digests are written, and are not read back: the first one takes all bytes.
abbrev two_digests : El tpml_digest_values
two_digests = ((11, (1 ∷ 2 ∷ [], tt)) ∷ (11, (3 ∷ 4 ∷ [], tt)) ∷ [], tt)

marshal-digests :
    marshal tpml_digest_values two_digests
    ≡ ok (0 ∷ 0 ∷ 0 ∷ 2 ∷ 0 ∷ 11 ∷ 1 ∷ 2 ∷ 0 ∷ 11 ∷ 3 ∷ 4 ∷ [])
unfolding marshal marshal_array nullable_form lookup selectors put_be
marshal-digests = refl

unmarshal-digests :
    unmarshal tpml_digest_values (0 ∷ 0 ∷ 0 ∷ 2 ∷ 0 ∷ 11 ∷ 1 ∷ 2 ∷ 0 ∷ 11 ∷ 3 ∷ 4 ∷ []) ≡ err eof
unfolding unmarshal unmarshal_array read_num get_be zero_selectors
unmarshal-digests = refl
