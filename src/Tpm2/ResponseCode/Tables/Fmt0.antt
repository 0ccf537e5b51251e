-- ===== src/Tpm2/ResponseCode/Tables/Fmt0.antt =====
-- tpm2/errors.go: the names and descriptions of the format-0 errors.
use go_tpm.Base.{ℕ, List, [], ◌∷◌}
use go_tpm.Tpm2.ResponseCode.Descriptions.{ErrorDesc, entry}

abbrev pub fmt0_descs : List (ℕ × ErrorDesc)
fmt0_descs =
    entry 0x100 "TPM_RC_INITIALIZE" "TPM not initialized by TPM2_Startup or already initialized"
    ∷ entry 0x101 "TPM_RC_FAILURE" "commands not being accepted because of a TPM failure"
    ∷ entry 0x103 "TPM_RC_SEQUENCE" "improper use of a sequence handle"
    ∷ entry 0x10b "TPM_RC_PRIVATE" "not currently used"
    ∷ entry 0x119 "TPM_RC_HMAC" "not currently used"
    ∷ entry 0x120 "TPM_RC_DISABLED" "the command is disabled"
    ∷ entry 0x121 "TPM_RC_EXCLUSIVE" "command failed because audit sequence required exclusivity"
    ∷ entry 0x124 "TPM_RC_AUTH_TYPE" "authorization handle is not correct for command"
    ∷ entry 0x125 "TPM_RC_AUTH_MISSING"
        "command requires an authorization session for handle and it is not present."
    ∷ entry 0x126 "TPM_RC_POLICY" "policy failure in math operation or an invalid authPolicy value"
    ∷ entry 0x127 "TPM_RC_PCR" "PCR check fail"
    ∷ entry 0x128 "TPM_RC_PCR_CHANGED" "PCR have changed since checked."
    ∷ entry 0x12d "TPM_RC_UPGRADE"
        "for all commands other than TPM2_FieldUpgradeData(), this code indicates that the TPM is in field upgrade mode; for TPM2_FieldUpgradeData(), this code indicates that the TPM is not in field upgrade mode"
    ∷ entry 0x12e "TPM_RC_TOO_MANY_CONTEXTS" "context ID counter is at maximum."
    ∷ entry 0x12f "TPM_RC_AUTH_UNAVAILABLE"
        "authValue or authPolicy is not available for selected entity."
    ∷ entry 0x130 "TPM_RC_REBOOT"
        "a _TPM_Init and Startup(CLEAR) is required before the TPM can resume operation."
    ∷ entry 0x131 "TPM_RC_UNBALANCED"
        "the protection algorithms (hash and symmetric) are not reasonably balanced. The digest size of the hash must be larger than the key size of the symmetric algorithm."
    ∷ entry 0x142 "TPM_RC_COMMAND_SIZE"
        "command commandSize value is inconsistent with contents of the command buffer; either the size is not the same as the octets loaded by the hardware interface layer or the value is not large enough to hold a command header"
    ∷ entry 0x143 "TPM_RC_COMMAND_CODE" "command code not supported"
    ∷ entry 0x144 "TPM_RC_AUTHSIZE"
        "the value of authorizationSize is out of range or the number of octets in the Authorization Area is greater than required"
    ∷ entry 0x145 "TPM_RC_AUTH_CONTEXT"
        "use of an authorization session with a context command or another command that cannot have an authorization session."
    ∷ entry 0x146 "TPM_RC_NV_RANGE" "NV offset+size is out of range."
    ∷ entry 0x147 "TPM_RC_NV_SIZE" "Requested allocation size is larger than allowed."
    ∷ entry 0x148 "TPM_RC_NV_LOCKED" "NV access locked."
    ∷ entry 0x149 "TPM_RC_NV_AUTHORIZATION"
        "NV access authorization fails in command actions (this failure does not affect lockout.action)"
    ∷ entry 0x14a "TPM_RC_NV_UNINITIALIZED"
        "an NV Index is used before being initialized or the state saved by TPM2_Shutdown(STATE) could not be restored"
    ∷ entry 0x14b "TPM_RC_NV_SPACE" "insufficient space for NV allocation"
    ∷ entry 0x14c "TPM_RC_NV_DEFINED" "NV Index or persistent object already defined"
    ∷ entry 0x150 "TPM_RC_BAD_CONTEXT" "context in TPM2_ContextLoad() is not valid"
    ∷ entry 0x151 "TPM_RC_CPHASH" "cpHash value already set or not correct for use"
    ∷ entry 0x152 "TPM_RC_PARENT" "handle for parent is not a valid parent"
    ∷ entry 0x153 "TPM_RC_NEEDS_TEST" "some function needs testing."
    ∷ entry 0x154 "TPM_RC_NO_RESULT"
        "an internal function cannot process a request due to an unspecified problem. This code is usually related to invalid parameters that are not properly filtered by the input unmarshaling code."
    ∷ entry 0x155 "TPM_RC_SENSITIVE"
        "the sensitive area did not unmarshal correctly after decryption – this code is used in lieu of the other unmarshaling errors so that an attacker cannot determine where the unmarshaling error occurred"
    ∷ []
