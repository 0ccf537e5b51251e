-- ===== src/Tpmutil/Encoding.antt =====
-- tpmutil/encoding.go and the types of tpmutil/structures.go that marshal themselves: Pack and
-- Unpack, over what package reflect shows of a value. A reader is a bytes.Buffer, as in Unpack.
pub mod RoundTrip
use go_tpm.Base.{
  ℕ, zero, suc, ◌-◌, ◌*◌, List, [], ◌∷◌, ◌++◌, ltb, if◌then◌else◌, length, take, drop,
}
use go_tpm.Base.Bytes.{put_be, get_be}
use go_tpm.Base.Outcome.{Result, ok, err, ◌>>=◌, ◌>>◌}
use go_tpm.Tpm2.Reflect.Types.{Width, size_of}

pub data Fault : Type 0 where
  eof unexpected_eof too_large unread handles_area nil_pointer non_pointer : Fault

abbrev pub Res : Type 0 → Type 0
Res A = Result Fault A

mutual
  pub data Value : Type 0 where
    num : Width → ℕ → Value
    -- a slice of bytes with no length of its own
    raw_bytes : List ℕ → Value
    u16_bytes : List ℕ → Value
    u32_bytes : List ℕ → Value
    -- a pointer to a slice of handles
    handle_list : List ℕ → Value
    null : Value
    ptr : Value → Value
    struct : Values → Value

  pub data Values : Type 0 where
    no_values : Values
    value : Value → Values → Values

-- 1 MiB
abbrev pub max_bytes_buffer_size : ℕ
max_bytes_buffer_size = 0x100000

unfoldable mutual
  -- A nil pointer to a self-marshaler fails as any other does.
  pub pack_value : Value → Res (List ℕ)
  pack_value (num w n) = ok (put_be (size_of w) n)
  pack_value (raw_bytes b) = ok b
  pack_value (u16_bytes b) = ok (put_be 2 (length b) ++ b)
  pack_value (u32_bytes b) = ok (put_be 4 (length b) ++ b)
  pack_value (handle_list hs) = err handles_area
  pack_value null = err nil_pointer
  pack_value (ptr v) = pack_value v
  pack_value (struct vs) = pack_values vs

  pub pack_values : Values → Res (List ℕ)
  pack_values no_values = ok []
  pack_values (value v vs) = do b ← pack_value v; bs ← pack_values vs; ok (b ++ bs)

-- `Read` of `n` bytes; `fault` is what fewer bytes than that are.
unfoldable pub read_full : Fault → ℕ → List ℕ → Res (List ℕ × List ℕ)
read_full fault zero b = ok ([], b)
read_full fault (suc n) [] = err eof
read_full fault (suc n) (x ∷ b) =
    if ltb (length (x ∷ b)) (suc n)
    then err fault
    else ok (take (suc n) (x ∷ b), drop (suc n) (x ∷ b))

-- `binary.Read` of a number of `w` bytes.
unfoldable pub binary_read : ℕ → List ℕ → Res (ℕ × List ℕ)
unfolding read_full
binary_read w b = do (x, rest) ← read_full unexpected_eof w b; ok (get_be x, rest)

unfoldable pub read_u32 : List ℕ → Res (List ℕ × List ℕ)
unfolding read_full binary_read
read_u32 b = do
  (n, rest) ← binary_read 4 b
  if ltb max_bytes_buffer_size n then err too_large else read_full unread n rest

-- Four bytes each.
unfoldable pub words : ℕ → List ℕ → List ℕ
words zero b = []
words (suc n) b = get_be (take 4 b) ∷ words n (drop 4 b)

unfoldable mutual
  unfolding read_full binary_read read_u32 words

  -- The value that is read takes the place of the one at the destination.
  pub unpack_value : Value → List ℕ → Res (Value × List ℕ)
  unpack_value (num w x) b = do (n, rest) ← binary_read (size_of w) b; ok (num w n, rest)
  unpack_value (raw_bytes old) b = do
    (x, rest) ← read_full unexpected_eof (length old) b
    ok (raw_bytes x, rest)
  unpack_value (u16_bytes old) b = do
    (n, rest) ← binary_read 2 b
    (x, rest') ← read_full unexpected_eof n rest
    ok (u16_bytes x, rest')
  unpack_value (u32_bytes old) b = do (x, rest) ← read_u32 b; ok (u32_bytes x, rest)
  unpack_value (handle_list old) b = do
    (n, rest) ← binary_read 2 b
    (x, rest') ← read_full unexpected_eof (4 * n) rest
    ok (handle_list (words n x), rest')
  unpack_value null b = err nil_pointer
  unpack_value (ptr v) b = do (v', rest) ← unpack_value v b; ok (ptr v', rest)
  unpack_value (struct vs) b = do (vs', rest) ← unpack_fields vs b; ok (struct vs', rest)

  pub unpack_fields : Values → List ℕ → Res (Values × List ℕ)
  unpack_fields no_values b = ok (no_values, b)
  unpack_fields (value v vs) b = do
    (v', rest) ← unpack_value v b
    (vs', rest') ← unpack_fields vs rest
    ok (value v' vs', rest')

-- Each element has to be a pointer.
abbrev pub unpack_element : Value → List ℕ → Res (Value × List ℕ)
unpack_element null b = err nil_pointer
unpack_element (ptr v) b = unpack_value (ptr v) b
unpack_element (handle_list old) b = unpack_value (handle_list old) b
unpack_element _ b = err non_pointer

unfoldable pub unpack_buf : Values → List ℕ → Res (Values × List ℕ)
unpack_buf no_values b = ok (no_values, b)
unpack_buf (value v vs) b = do
  (v', rest) ← unpack_element v b
  (vs', rest') ← unpack_buf vs rest
  ok (value v' vs', rest')

-- With the number of bytes read, which with an error is left out.
unfoldable pub unpack : List ℕ → Values → Res (Values × ℕ)
unfolding unpack_buf
unpack b vs = do (vs', rest) ← unpack_buf vs b; ok (vs', length b - length rest)
