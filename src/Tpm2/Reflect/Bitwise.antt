-- ===== src/Tpm2/Reflect/Bitwise.antt =====
-- `marshalBitwise` and `unmarshalBitwise`: structs whose exported fields are ranges of bits.
pub mod Digits
pub mod Copy
pub mod Fields
pub mod Take
pub mod Wire
pub mod Read
pub mod Reserved
pub mod RoundTrip
use go_tpm.Base.{
  ℕ, zero, suc, ◌+◌, ◌-◌, ◌*◌, ◌/◌, ◌%◌, ◌^◌, Bool, false, ◌||◌, List, [], ◌∷◌, ◌++◌, none, some,
  bit_or, ◌==◌, ltb, if◌then◌else◌, length, replicate, get_or, set,
}
use go_tpm.Base.Bits.{bit}
use go_tpm.Base.Bytes.{put_be}
use go_tpm.Base.Outcome.{ok, err, panic, ◌>>=◌, ◌>>◌}
use go_tpm.Tpm2.Fault.{Res, eof}
use go_tpm.Tpm2.Bitfield.{reserved_bit, put_reserved_bit}
use go_tpm.Tpm2.Reflect.Types.{BitField, BitStruct, size_of}

-- What `marshal` writes for the field itself: a bool is one byte.
abbrev pub field_bytes : BitField → ℕ → List ℕ
field_bytes f v = elim f.width [ none ↦ put_be 1 v | some w ↦ put_be (size_of w) v ]

-- `((b[len(b)-i/8-1] >> (i % 8)) & 1) == 1`; the index is out of range once `b` is used up.
abbrev pub byte_bit : List ℕ → ℕ → Res Bool
byte_bit b i =
    if ltb (i / 8) (length b)
    then ok (bit (i % 8) (get_or b (length b - i / 8 - 1) 0) == 1)
    else panic

-- The inner loop over a field's bits, `left` of them from bit `i` on.
unfoldable pub copy_bits : List ℕ → ℕ → ℕ → ℕ → List Bool → Res (List Bool)
copy_bits b low zero i array = ok array
copy_bits b low (suc left) i array = do
  x ← byte_bit b i
  if ltb (low + i) (length array) then ok tt else panic
  copy_bits b low left (i + 1) (set array (low + i) x)

unfoldable pub copy_fields : List BitField → List ℕ → List Bool → Res (List Bool)
copy_fields [] vs array = ok array
copy_fields (f ∷ fs) [] array = ok array
copy_fields (f ∷ fs) (v ∷ vs) array = do
  array' ← copy_bits (field_bytes f v) f.low (f.high - f.low + 1) 0 array
  copy_fields fs vs array'

-- The loop over the reserved bits, from bit `i` on.
unfoldable pub add_reserved : ℕ → ℕ → List Bool → List Bool
add_reserved reserved i [] = []
add_reserved reserved i (x ∷ xs) = (x || reserved_bit reserved i) ∷ add_reserved reserved (i + 1) xs

-- `result[len(result)-(i/8)-1] |= 1 << (i % 8)` over the set bits, from bit `i` on.
unfoldable pub collect : ℕ → List Bool → List ℕ → List ℕ
collect i [] result = result
collect i (x ∷ xs) result =
    let at = length result - i / 8 - 1 in
    collect (i + 1) xs
      (if x then set result at (bit_or (get_or result at 0) (2 ^ (i % 8))) else result)

unfoldable pub marshal_bitwise : ℕ → List BitField → BitStruct → Res (List ℕ)
unfolding copy_bits copy_fields add_reserved collect reserved_bit
marshal_bitwise n fs v = do
  array ← copy_fields fs v.fields (replicate (8 * n) false)
  ok (collect 0 (add_reserved v.reserved 0 array) (replicate n 0))

-- Eight bits of a byte, from bit `j` on.
unfoldable pub byte_bits : ℕ → ℕ → ℕ → List Bool
byte_bits zero j b = []
byte_bits (suc left) j b = (bit j b == 1) ∷ byte_bits left (j + 1) b

-- The bytes come last first; `n` of them are still to be read.
unfoldable pub read_bits : ℕ → List ℕ → Res (List Bool × List ℕ)
read_bits zero b = ok ([], b)
read_bits (suc n) [] = err eof
read_bits (suc n) (x ∷ b) = do (low, rest) ← read_bits n b; ok (low ++ byte_bits 8 0 x, rest)

-- `val |= 1 << j` over a field's bits, `left` of them from bit `j` on; each bit read is cleared.
unfoldable pub take_bits : ℕ → ℕ → ℕ → ℕ → List Bool → Res (ℕ × List Bool)
take_bits low zero j val array = ok (val, array)
take_bits low (suc left) j val array = do
  if ltb (low + j) (length array) then ok tt else panic
  take_bits low left (j + 1) (if get_or array (low + j) false then bit_or val (2 ^ j) else val)
      (set array (low + j) false)

-- `SetBool((val & 1) == 1)`, or `SetUint`, which cuts to the field's width.
abbrev pub field_value : BitField → ℕ → ℕ
field_value f val = elim f.width [ none ↦ val % 2 | some w ↦ val % 256 ^ size_of w ]

unfoldable pub take_fields : List BitField → List Bool → Res (List ℕ × List Bool)
take_fields [] array = ok ([], array)
take_fields (f ∷ fs) array = do
  (val, array₁) ← take_bits f.low (f.high - f.low + 1) 0 0 array
  (vs, array₂) ← take_fields fs array₁
  ok (field_value f val ∷ vs, array₂)

-- `SetReservedBit` over the array, from bit `i` on.
unfoldable pub set_reserved : ℕ → ℕ → List Bool → ℕ → ℕ
set_reserved w i [] r = r
set_reserved w i (x ∷ xs) r = set_reserved w (i + 1) xs (put_reserved_bit w r i x)

unfoldable pub unmarshal_bitwise : ℕ → List BitField → List ℕ → Res (BitStruct × List ℕ)
unfolding byte_bits read_bits take_bits take_fields set_reserved put_reserved_bit
unmarshal_bitwise n fs b = do
  (array, rest) ← read_bits n b
  (vs, array') ← take_fields fs array
  ok (record { fields = vs; reserved = set_reserved (8 * n) 0 array' 0 }, rest)
