-- ===== src/Tpm2/ResponseCode/Tables/Fmt1.antt =====
-- tpm2/errors.go: the names and descriptions of the format-1 errors.
use go_tpm.Base.{ℕ, List, [], ◌∷◌}
use go_tpm.Tpm2.ResponseCode.Descriptions.{ErrorDesc, entry}

abbrev pub fmt1_descs : List (ℕ × ErrorDesc)
fmt1_descs =
    entry 0x081 "TPM_RC_ASYMMETRIC RC_FMT1" "asymmetric algorithm not supported or not correct"
    ∷ entry 0x082 "TPM_RC_ATTRIBUTES" "inconsistent attributes"
    ∷ entry 0x083 "TPM_RC_HASH" "hash algorithm not supported or not appropriate"
    ∷ entry 0x084 "TPM_RC_VALUE" "value is out of range or is not correct for the context"
    ∷ entry 0x085 "TPM_RC_HIERATPMRCHY" "hierarchy is not enabled or is not correct for the use"
    ∷ entry 0x087 "TPM_RC_KEY_SIZE" "key size is not supported"
    ∷ entry 0x088 "TPM_RC_MGF" "mask generation function not supported"
    ∷ entry 0x089 "TPM_RC_MODE" "mode of operation not supported"
    ∷ entry 0x08a "TPM_RC_TYPE" "the type of the value is not appropriate for the use"
    ∷ entry 0x08b "TPM_RC_HANDLE" "the handle is not correct for the use"
    ∷ entry 0x08c "TPM_RC_KDF"
        "unsupported key derivation function or function not appropriate for use"
    ∷ entry 0x08d "TPM_RC_RANGE" "value was out of allowed range."
    ∷ entry 0x08e "TPM_RC_AUTH_FAIL"
        "the authorization HMAC check failed and DA counter incremented"
    ∷ entry 0x08f "TPM_RC_NONCE" "invalid nonce size or nonce value mismatch"
    ∷ entry 0x090 "TPM_RC_PP" "authorization requires assertion of PP"
    ∷ entry 0x092 "TPM_RC_SCHEME" "unsupported or incompatible scheme"
    ∷ entry 0x095 "TPM_RC_SIZE" "structure is the wrong size"
    ∷ entry 0x096 "TPM_RC_SYMMETRIC"
        "unsupported symmetric algorithm or key size, or not appropriate for instance"
    ∷ entry 0x097 "TPM_RC_TAG" "incorrect structure tag"
    ∷ entry 0x098 "TPM_RC_SELECTOR" "union selector is incorrect"
    ∷ entry 0x09a "TPM_RC_INSUFFICIENT"
        "the TPM was unable to unmarshal a value because there were not enough octets in the input buffer"
    ∷ entry 0x09b "TPM_RC_SIGNATURE" "the signature is not valid"
    ∷ entry 0x09c "TPM_RC_KEY" "key fields are not compatible with the selected use"
    ∷ entry 0x09d "TPM_RC_POLICY_FAIL" "a policy check failed"
    ∷ entry 0x09f "TPM_RC_INTEGRITY" "integrity check failed"
    ∷ entry 0x0a0 "TPM_RC_TICKET" "invalid ticket"
    ∷ entry 0x0a1 "TPM_RC_RESERVED_BITS" "reserved bits not set to zero as required"
    ∷ entry 0x0a2 "TPM_RC_BAD_AUTH" "authorization failure without DA implications"
    ∷ entry 0x0a3 "TPM_RC_EXPIRED" "the policy has expired"
    ∷ entry 0x0a4 "TPM_RC_POLICY_CC"
        "the commandCode in the policy is not the commandCode of the command or the command code in a policy command references a command that is not implemented"
    ∷ entry 0x0a5 "TPM_RC_BINDING"
        "public and sensitive portions of an object are not cryptographically bound"
    ∷ entry 0x0a6 "TPM_RC_CURVE" "curve not supported"
    ∷ entry 0x0a7 "TPM_RC_ECC_POINT" "point is not on the required curve."
    ∷ []
