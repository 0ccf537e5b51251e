-- ===== src/Tests/Encoding.antt =====
-- tpmutil: values that are packed and unpacked, and RunCommand with a device that is busy at first.
use go_tpm.Base.{ℕ, zero, suc, ◌<◌, ◌≡◌, ◌≢◌, refl, List, [], ◌∷◌, ◌++◌, length, some, arith}
use go_tpm.Base.Bytes.{get_be, be_from, put_be}
use go_tpm.Base.Outcome.{ok, err}
use go_tpm.Tpm2.Reflect.Types.{w16}
use go_tpm.Tpmutil.Encoding.{
  Value, Values, num, u16_bytes, ptr, struct, no_values, value, eof, unpack, pack_value,
  pack_values, unpack_value,
}
use go_tpm.Tpmutil.Encoding.RoundTrip.{
  Fits, fits_num, fits_u16, fits_ptr, fits_struct, fits_none, fits_value, unpack-pack_values,
  pointers, FitsAll, unpack-pack_u16_bytes,
}
use go_tpm.Tpmutil.Run.{Answer, bytes_read}
use go_tpm.Tpmutil.Run.Retry.{AsksRetry}
use go_tpm.Tpmutil.Command.{run_command, encoding}
use go_tpm.Tpmutil.Command.Framed.{
  header_bytes, command_bytes, run_command-answered, run_command-busy,
}

abbrev blank : Value
blank = ptr (struct (value (num w16 0) (value (u16_bytes (9 ∷ [])) no_values)))

abbrev sized : Value
sized = ptr (struct (value (num w16 0x101) (value (u16_bytes (7 ∷ 8 ∷ [])) no_values)))

sized-Fits : Fits blank sized
sized-Fits = fits_ptr _ _ (
    fits_struct _ _ (
      fits_value _ _ _ _ (fits_num w16 0 0x101 (omega arith))
        (fits_value _ _ _ _ (fits_u16 (9 ∷ []) (7 ∷ 8 ∷ []) (omega arith)) fits_none)))

pack-sized : pack_value sized ≡ ok (1 ∷ 1 ∷ 0 ∷ 2 ∷ 7 ∷ 8 ∷ [])
unfolding pack_value put_be
pack-sized = refl

all-FitsAll : FitsAll (value blank no_values) (value sized no_values)
all-FitsAll = fits_value _ _ _ _ sized-Fits fits_none

unpack-pack_values_example :
    (b : List ℕ) × (pack_values (value sized no_values) ≡ ok b)
    × (unpack (b ++ 4 ∷ []) (pointers (value blank no_values))
        ≡ ok (pointers (value sized no_values), length b))
unpack-pack_values_example =
    unpack-pack_values (value blank no_values) (value sized no_values) (4 ∷ []) all-FitsAll

unpack-pack_u16_bytes_example :
    (b : List ℕ) × (pack_value (u16_bytes (7 ∷ 8 ∷ [])) ≡ ok b)
    × (unpack_value (u16_bytes []) (b ++ 5 ∷ []) ≡ ok (u16_bytes (7 ∷ 8 ∷ []), 5 ∷ []))
unpack-pack_u16_bytes_example = unpack-pack_u16_bytes (7 ∷ 8 ∷ []) [] (5 ∷ [])

-- TPM2_GetRandom for 16 bytes.
abbrev arguments : Values
arguments = value (num w16 16) no_values

abbrev argument_bytes : List ℕ
argument_bytes = 0 ∷ 16 ∷ []

arguments-packed : pack_values arguments ≡ ok argument_bytes
unfolding pack_value put_be
arguments-packed = refl

abbrev device_once : List ℕ → ℕ → Answer
device_once inb zero = bytes_read (header_bytes 0x8001 10 0x922 ++ [])
device_once inb (suc n) = bytes_read (header_bytes 0x8001 13 0 ++ 0 ∷ 1 ∷ 7 ∷ [])

abbrev device_busy : List ℕ → ℕ → Answer
device_busy inb n = bytes_read (header_bytes 0x8001 10 0x922 ++ [])

once_busy : (i : ℕ) → i < 1 → AsksRetry (device_once (command_bytes 0x8001 0x17b argument_bytes) i)
unfolding get_be be_from put_be
once_busy zero h = refl
once_busy (suc i) h = absurd (omega arith)

always_busy :
    (i : ℕ) → i < 12 → AsksRetry (device_busy (command_bytes 0x8001 0x17b argument_bytes) i)
unfolding get_be be_from put_be
always_busy i h = refl

run_command-answered_example :
    run_command device_once 0x8001 0x17b arguments ≡ ok (some (0 ∷ 1 ∷ 7 ∷ []), 0)
run_command-answered_example =
    run_command-answered device_once 0x8001 0x17b arguments argument_bytes 1 0x8001 13 0
      (0 ∷ 1 ∷ 7 ∷ []) arguments-packed once_busy refl (omega arith) (omega arith) (omega arith)
      (omega arith) not_retry
  where
    not_retry : ◌≢◌ {A = ℕ} 0 0x922
    not_retry = omega arith

run_command-busy_example : run_command device_busy 0x8001 0x17b arguments ≡ err (encoding eof)
run_command-busy_example =
    run_command-busy device_busy 0x8001 0x17b arguments argument_bytes arguments-packed always_busy
