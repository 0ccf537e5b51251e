-- ===== src/Tpmutil/Encoding/RoundTrip.antt =====
-- What Pack writes, Unpack reads back, and what the length in front of U16Bytes leaves of it.
use go_tpm.Base.{
  ◌-◌, ℕ, suc, ◌^◌, ◌%◌, ◌<◌, ◌≤◌, ◌≡◌, refl, ap, ◌∙◌, sym, arith, List, [], ◌∷◌, ◌++◌,
  append_assoc, ltb-false, length, take, drop, length-append, take-append, drop-append, length-take,
  take-append-drop,
}
use go_tpm.Base.Bytes.{put_be, length-put_be, get_be-put_be}
use go_tpm.Base.Outcome.{ok}
use go_tpm.Tpm2.Reflect.Types.{Width, size_of}
use go_tpm.Tpmutil.Encoding.{
  Fault, Value, Values, num, raw_bytes, u16_bytes, u32_bytes, ptr, struct, no_values, value,
  unexpected_eof, unread, max_bytes_buffer_size, pack_value, pack_values, read_full, binary_read,
  read_u32, unpack_value, unpack_fields, unpack_buf, unpack,
}
use native.Mathlib.Nat.{mod-eq_of_lt}

pub read_full-front :
    (f : Fault) (x rest : List ℕ) → read_full f (length x) (x ++ rest) ≡ ok (x, rest)
unfolding read_full
read_full-front f [] rest = refl
read_full-front f (y ∷ x) rest = rw (
  ltb-false (suc (length (x ++ rest))) (suc (length x)) (omega (arith, length-append x rest)),
  take-append x rest,
  drop-append x rest,
)

pub binary_read-put_be :
    (w n : ℕ) (rest : List ℕ) → binary_read w (put_be w n ++ rest) ≡ ok (n % 256 ^ w, rest)
unfolding binary_read
binary_read-put_be w n rest =
    let e = read_full-front unexpected_eof (put_be w n) rest in
    let f : read_full unexpected_eof w (put_be w n ++ rest) ≡ ok (put_be w n, rest) =
      ap (λ k. read_full unexpected_eof k (put_be w n ++ rest)) (sym (length-put_be w n)) ∙ e in
    rw (f, get_be-put_be w n)

read_full-take :
    (f : Fault) (n : ℕ) (x rest : List ℕ)
    → n ≤ length x
    → read_full f n (x ++ rest) ≡ ok (take n x, drop n x ++ rest)
read_full-take f n x rest h =
    let size : length (take n x) ≡ n = omega (arith, length-take n x, h) in
    let split : x ++ rest ≡ take n x ++ (drop n x ++ rest) =
      ap (λ t. t ++ rest) (sym (take-append-drop n x)) ∙ append_assoc (take n x) (drop n x) rest in
    ap (λ b. read_full f n b) split
    ∙ ap (λ k. read_full f k (take n x ++ (drop n x ++ rest))) (sym size)
    ∙ read_full-front f (take n x) (drop n x ++ rest)

-- The length of U16Bytes is cut to 16 bits: of `x` only as many bytes as the cut length says are
-- read back, and the others are left in front of what follows.
pub unpack-pack_u16_bytes :
    (x old rest : List ℕ)
    → (b : List ℕ) × (pack_value (u16_bytes x) ≡ ok b)
      × (unpack_value (u16_bytes old) (b ++ rest)
          ≡ ok (u16_bytes (take (length x % 2 ^ 16) x), drop (length x % 2 ^ 16) x ++ rest))
unfolding pack_value unpack_value
unpack-pack_u16_bytes x old rest = (
  put_be 2 (length x) ++ x,
  refl,
  rw (
    append_assoc (put_be 2 (length x)) x rest,
    binary_read-put_be 2 (length x) (x ++ rest),
    read_full-take unexpected_eof (length x % 2 ^ 16) x rest (omega arith),
  ),
)

-- The destination has the type of the value, and raw bytes as many bytes; the value is one that
-- is read back: numbers fit their width, U16Bytes and U32Bytes have no more bytes than their
-- lengths and the bound on U32Bytes allow, and no pointer is nil or to handles.
mutual
  pub data Fits : Value → Value → Type 0 where
    fits_num : (w : Width) (x n : ℕ) → n < 256 ^ size_of w → Fits (num w x) (num w n)
    fits_raw : (old b : List ℕ) → length old ≡ length b → Fits (raw_bytes old) (raw_bytes b)
    fits_u16 : (old b : List ℕ) → length b < 2 ^ 16 → Fits (u16_bytes old) (u16_bytes b)
    fits_u32 :
        (old b : List ℕ) → length b ≤ max_bytes_buffer_size → Fits (u32_bytes old) (u32_bytes b)
    fits_ptr : (d v : Value) → Fits d v → Fits (ptr d) (ptr v)
    fits_struct : (ds vs : Values) → FitsAll ds vs → Fits (struct ds) (struct vs)

  pub data FitsAll : Values → Values → Type 0 where
    fits_none : FitsAll no_values no_values
    fits_value :
        (d v : Value) (ds vs : Values)
        → Fits d v
        → FitsAll ds vs
        → FitsAll (value d ds) (value v vs)

read_u32-put_be :
    (x rest : List ℕ)
    → length x ≤ max_bytes_buffer_size
    → read_u32 (put_be 4 (length x) ++ (x ++ rest)) ≡ ok (x, rest)
unfolding read_u32
read_u32-put_be x rest h =
    let small : length x < 256 ^ 4 = omega (arith, h) in
    rw (
      binary_read-put_be 4 (length x) (x ++ rest),
      mod-eq_of_lt small,
      ltb-false max_bytes_buffer_size (length x) h,
      read_full-front unread x rest,
    )

mutual
  unfolding pack_value unpack_value

  pub value_back :
      (d v : Value)
      → Fits d v
      → (b : List ℕ) × (pack_value v ≡ ok b)
        × ((rest : List ℕ) → unpack_value d (b ++ rest) ≡ ok (v, rest))
  value_back _ _ (fits_num w x n h) = (
    put_be (size_of w) n,
    refl,
    λ rest. rw (binary_read-put_be (size_of w) n rest, mod-eq_of_lt h),
  )
  value_back _ _ (fits_raw old x e) =
      (x, refl, λ rest. rw (e, read_full-front unexpected_eof x rest))
  value_back _ _ (fits_u16 old x h) = (
    put_be 2 (length x) ++ x,
    refl,
    λ rest. rw (
      append_assoc (put_be 2 (length x)) x rest,
      binary_read-put_be 2 (length x) (x ++ rest),
      mod-eq_of_lt h,
      read_full-front unexpected_eof x rest,
    ),
  )
  value_back _ _ (fits_u32 old x h) = (
    put_be 4 (length x) ++ x,
    refl,
    λ rest. rw (append_assoc (put_be 4 (length x)) x rest, read_u32-put_be x rest h),
  )
  value_back _ _ (fits_ptr d v f) = let a = value_back d v f in (a.0, a.1, λ rest. rw (a.2 rest))
  value_back _ _ (fits_struct ds vs f) =
      let a = fields_back ds vs f in (a.0, a.1, λ rest. rw (a.2 rest))

  fields_back :
      (ds vs : Values)
      → FitsAll ds vs
      → (b : List ℕ) × (pack_values vs ≡ ok b)
        × ((rest : List ℕ) → unpack_fields ds (b ++ rest) ≡ ok (vs, rest))
  fields_back _ _ fits_none = ([], refl, λ rest. refl)
  fields_back _ _ (fits_value d v ds vs f fs) =
      let a = value_back d v f in
      let c = fields_back ds vs fs in
      (
        a.0 ++ c.0,
        rw (a.1, c.1),
        λ rest. rw (append_assoc a.0 c.0 rest, a.2 (c.0 ++ rest), c.2 rest),
      )

-- A pointer to each of the values.
abbrev pub pointers : Values → Values
pointers no_values = no_values
pointers (value v vs) = value (ptr v) (pointers vs)

unpack_buf-pack_values :
    (ds vs : Values)
    → FitsAll ds vs
    → (b : List ℕ) × (pack_values vs ≡ ok b)
      × ((rest : List ℕ) → unpack_buf (pointers ds) (b ++ rest) ≡ ok (pointers vs, rest))
unfolding pack_value unpack_value unpack_buf
unpack_buf-pack_values _ _ fits_none = ([], refl, λ rest. refl)
unpack_buf-pack_values _ _ (fits_value d v ds vs f fs) =
    let a = value_back d v f in
    let c = unpack_buf-pack_values ds vs fs in
    (a.0 ++ c.0, rw (a.1, c.1), λ rest. rw (append_assoc a.0 c.0 rest, a.2 (c.0 ++ rest), c.2 rest))

-- Values that fit their destinations are packed with no error, and unpacking what was written
-- into pointers to the destinations, whatever is there, with any bytes behind, gives the values
-- and the number of bytes that were written.
pub unpack-pack_values :
    (ds vs : Values) (rest : List ℕ)
    → FitsAll ds vs
    → (b : List ℕ) × (pack_values vs ≡ ok b)
      × (unpack (b ++ rest) (pointers ds) ≡ ok (pointers vs, length b))
unfolding unpack
unpack-pack_values ds vs rest f =
    let a = unpack_buf-pack_values ds vs f in
    let e : length (a.0 ++ rest) - length rest ≡ length a.0 =
      omega (arith, length-append a.0 rest) in
    (a.0, a.1, rw (a.2 rest, e))
