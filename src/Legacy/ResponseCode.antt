-- ===== src/Legacy/ResponseCode.antt =====
-- legacy/tpm2/error.go: the error that a response code stands for.
use go_tpm.Base.{ℕ, ◌/◌, ◌^◌, bit_and, Option, none, some, ◌==◌, ltb, if◌then◌else◌}
pub mod Agree
pub mod Messages

pub data ResponseError : Type 0 where
  -- `fmt.Errorf` with the code, for a TPM 1 error
  status : ℕ → ResponseError
  -- the code of a VendorError, a Warning and an Error
  vendor_error warning error : ℕ → ResponseError
  -- the code, and which parameter, handle or session
  parameter_error handle_error session_error : ℕ → ℕ → ResponseError

-- `none` is a nil error. The masks leave at most a byte, so no conversion to uint8 loses bits.
unfoldable pub decode_response : ℕ → Option ResponseError
decode_response code =
    if code == 0
    then none
    else if bit_and code 0x180 == 0
    then some (status code)
    else if bit_and code 0x80 == 0
    then (if ltb 0 (bit_and code 0x400)
        then some (vendor_error code)
        else if ltb 0 (bit_and code 0x800)
        then some (warning (bit_and code 0x7f))
        else some (error (bit_and code 0x7f)))
    else if ltb 0 (bit_and code 0x40)
    then some (parameter_error (bit_and code 0x3f) (bit_and code 0xf00 / 2 ^ 8))
    else if bit_and code 0x800 == 0
    then some (handle_error (bit_and code 0x3f) (bit_and code 0x700 / 2 ^ 8))
    else some (session_error (bit_and code 0x3f) (bit_and code 0x700 / 2 ^ 8))
