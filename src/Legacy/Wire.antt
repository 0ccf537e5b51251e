-- ===== src/Legacy/Wire.antt =====
-- The errors of legacy/tpm2/structures.go and of the encodings in legacy/tpm2/tpm2.go, and the calls
-- of tpmutil's Pack and UnpackBuf: a reader returns the value and what it leaves in the buffer.
pub mod Back
use go_tpm.Base.{ℕ, zero, suc, ◌-◌, List, [], ◌∷◌, ◌++◌, length, take, drop, replicate}
use go_tpm.Base.Outcome.{Result, ok, err, panic, ◌>>=◌}
use go_tpm.Tpm2.Reflect.Types.{Width, w8, w16, w32, w64, size_of}
use go_tpm.Tpmutil.Encoding as Encoding
use go_tpm.Tpmutil.Command.{CommandError}
use go_tpm.Legacy.ResponseCode.{ResponseError}

pub data Fault : Type 0 where
  encoding : Encoding.Fault → Fault
  unsupported_type unsupported_keyed_hash unsupported_signature unsupported_hash : Fault
  incorrect_magic unsupported_attestation : Fault
  pcr_out_of_range not_one_selection : Fault
  no_digest wrong_digest_count : Fault
  eof unsupported_capability unknown_buffer_size unexpected_type : Fault
  running : CommandError → Fault
  response : ResponseError → Fault

abbrev pub Res : Type 0 → Type 0
Res A = Result Fault A

abbrev pub encoded : {A : Type 0} → Encoding.Res A → Res A
encoded (ok a) = ok a
encoded (err e) = err (encoding e)
encoded panic = panic

-- `Pack`
unfoldable pub pack : Encoding.Values → Res (List ℕ)
pack vs = encoded (Encoding.pack_values vs)

-- `UnpackBuf` of a pointer to a number, and to U16Bytes; with several pointers, one after the other.
unfoldable pub unpack_num : Width → List ℕ → Res (ℕ × List ℕ)
unpack_num w b = encoded (Encoding.binary_read (size_of w) b)

abbrev pub u16_bytes_of : Encoding.Value × List ℕ → List ℕ × List ℕ
u16_bytes_of (Encoding.u16_bytes x, rest) = (x, rest)
u16_bytes_of (_, rest) = ([], rest)

unfoldable pub unpack_bytes : List ℕ → Res (List ℕ × List ℕ)
unpack_bytes b = do
  r ← encoded (Encoding.unpack_value (Encoding.u16_bytes []) b)
  ok (u16_bytes_of r)

-- `Read` of a buffer into a zeroed slice of `n` bytes: fewer bytes are no error, unless there are
-- none.
unfoldable pub read_into : ℕ → List ℕ → Res (List ℕ × List ℕ)
read_into zero b = ok ([], b)
read_into (suc n) [] = err eof
read_into (suc n) (x ∷ b) =
    ok (take (suc n) (x ∷ b) ++ replicate (suc n - length (x ∷ b)) 0, drop (suc n) (x ∷ b))
