-- ===== src/Tests/ResponseCode.antt =====
-- tpm2/errors.go and legacy/tpm2/error.go on response codes.
use go_tpm.Base.{◌-◌, ◌≡◌, refl, some, arith}
use go_tpm.Tpm2.ResponseCode.{Fmt1Error, parameter_related, is_fmt1_error, take_subject}
use go_tpm.Legacy.ResponseCode.{decode_response}
use go_tpm.Legacy.ResponseCode.Agree.{legacy_error, decode_response-is_fmt1_error}

-- TPM_RC_VALUE of parameter 2
parameter_code :
    is_fmt1_error 0x2C4 ≡ some (record { canonical = 0x84; subject = parameter_related; index = 2 })
unfolding is_fmt1_error take_subject
parameter_code = refl

decode_response-is_fmt1_error_example :
    (e : Fmt1Error) × (is_fmt1_error 0x2C4 ≡ some e)
    × (decode_response 0x2C4 ≡ some (legacy_error e.subject (e.canonical - 0x80) e.index))
decode_response-is_fmt1_error_example = decode_response-is_fmt1_error 0x2C4 (omega arith) refl
