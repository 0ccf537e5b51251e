-- ===== src/Legacy/ResponseCode/Messages.antt =====
-- legacy/tpm2/error.go: the messages of the codes, and the Error methods. A message is what is put
-- into its text.
use go_tpm.Base.{ℕ, String, List, [], ◌∷◌, Option, none, some}
use go_tpm.Tpm2.ResponseCode.Descriptions.{find}
use go_tpm.Legacy.ResponseCode.{
  ResponseError, status, vendor_error, warning, error, parameter_error, handle_error, session_error,
}

abbrev pub fmt0_msg : List (ℕ × String)
fmt0_msg =
    (0x00, "TPM not initialized by TPM2_Startup or already initialized")
    ∷ (0x01, "commands not being accepted because of a TPM failure")
    ∷ (0x03, "improper use of a sequence handle")
    ∷ (0x0b, "not currently used")
    ∷ (0x19, "not currently used")
    ∷ (0x20, "the command is disabled")
    ∷ (0x21, "command failed because audit sequence required exclusivity")
    ∷ (0x24, "authorization handle is not correct for command")
    ∷ (0x25, "5 command requires an authorization session for handle and it is not present")
    ∷ (0x26, "policy failure in math operation or an invalid authPolicy value")
    ∷ (0x27, "PCR check fail")
    ∷ (0x28, "PCR have changed since checked")
    ∷ (
      0x2d,
      "TPM is in field upgrade mode unless called via TPM2_FieldUpgradeData(), then it is not in field upgrade mode",
    )
    ∷ (0x2e, "context ID counter is at maximum")
    ∷ (0x2f, "authValue or authPolicy is not available for selected entity")
    ∷ (0x30, "a _TPM_Init and Startup(CLEAR) is required before the TPM can resume operation")
    ∷ (
      0x31,
      "the protection algorithms (hash and symmetric) are not reasonably balanced; the digest size of the hash must be larger than the key size of the symmetric algorithm",
    )
    ∷ (
      0x42,
      "command commandSize value is inconsistent with contents of the command buffer; either the size is not the same as the octets loaded by the hardware interface layer or the value is not large enough to hold a command header",
    )
    ∷ (0x43, "command code not supported")
    ∷ (
      0x44,
      "the value of authorizationSize is out of range or the number of octets in the Authorization Area is greater than required",
    )
    ∷ (
      0x45,
      "use of an authorization session with a context command or another command that cannot have an authorization session",
    )
    ∷ (0x46, "NV offset+size is out of range")
    ∷ (0x47, "Requested allocation size is larger than allowed")
    ∷ (0x48, "NV access locked")
    ∷ (0x49, "NV access authorization fails in command actions")
    ∷ (
      0x4a,
      "an NV Index is used before being initialized or the state saved by TPM2_Shutdown(STATE) could not be restored",
    )
    ∷ (0x4b, "insufficient space for NV allocation")
    ∷ (0x4c, "NV Index or persistent object already defined")
    ∷ (0x50, "context in TPM2_ContextLoad() is not valid")
    ∷ (0x51, "cpHash value already set or not correct for use")
    ∷ (0x52, "handle for parent is not a valid parent")
    ∷ (0x53, "some function needs testing")
    ∷ (
      0x54,
      "returned when an internal function cannot process a request due to an unspecified problem; this code is usually related to invalid parameters that are not properly filtered by the input unmarshaling code",
    )
    ∷ (0x55, "the sensitive area did not unmarshal correctly after decryption")
    ∷ []

abbrev pub fmt1_msg : List (ℕ × String)
fmt1_msg =
    (0x01, "asymmetric algorithm not supported or not correct")
    ∷ (0x02, "inconsistent attributes")
    ∷ (0x03, "hash algorithm not supported or not appropriate")
    ∷ (0x04, "value is out of range or is not correct for the context")
    ∷ (0x05, "hierarchy is not enabled or is not correct for the use")
    ∷ (0x07, "key size is not supported")
    ∷ (0x08, "mask generation function not supported")
    ∷ (0x09, "mode of operation not supported")
    ∷ (0x0a, "the type of the value is not appropriate for the use")
    ∷ (0x0b, "the handle is not correct for the use")
    ∷ (0x0c, "unsupported key derivation function or function not appropriate for use")
    ∷ (0x0d, "value was out of allowed range")
    ∷ (0x0e, "the authorization HMAC check failed and DA counter incremented")
    ∷ (0x0f, "invalid nonce size or nonce value mismatch")
    ∷ (0x10, "authorization requires assertion of PP")
    ∷ (0x12, "unsupported or incompatible scheme")
    ∷ (0x15, "structure is the wrong size")
    ∷ (0x16, "unsupported symmetric algorithm or key size, or not appropriate for instance")
    ∷ (0x17, "incorrect structure tag")
    ∷ (0x18, "union selector is incorrect")
    ∷ (
      0x1a,
      "the TPM was unable to unmarshal a value because there were not enough octets in the input buffer",
    )
    ∷ (0x1b, "the signature is not valid")
    ∷ (0x1c, "key fields are not compatible with the selected use")
    ∷ (0x1d, "a policy check failed")
    ∷ (0x1f, "integrity check failed")
    ∷ (0x20, "invalid ticket")
    ∷ (0x21, "reserved bits not set to zero as required")
    ∷ (0x22, "authorization failure without DA implications")
    ∷ (0x23, "the policy has expired")
    ∷ (
      0x24,
      "the commandCode in the policy is not the commandCode of the command or the command code in a policy command references a command that is not implemented",
    )
    ∷ (0x25, "public and sensitive portions of an object are not cryptographically bound")
    ∷ (0x26, "curve not supported")
    ∷ (0x27, "point is not on the required curve")
    ∷ []

abbrev pub warn_msg : List (ℕ × String)
warn_msg =
    (0x01, "gap for context ID is too large")
    ∷ (0x02, "out of memory for object contexts")
    ∷ (0x03, "out of memory for session contexts")
    ∷ (0x04, "out of shared object/session memory or need space for internal operations")
    ∷ (0x05, "out of session handles")
    ∷ (0x06, "out of object handles")
    ∷ (0x07, "bad locality")
    ∷ (
      0x08,
      "the TPM has suspended operation on the command; forward progress was made and the command may be retried",
    )
    ∷ (0x09, "the command was canceled")
    ∷ (0x0a, "TPM is performing self-tests")
    ∷ (
      0x10,
      "the 1st handle in the handle area references a transient object or session that is not loaded",
    )
    ∷ (
      0x11,
      "the 2nd handle in the handle area references a transient object or session that is not loaded",
    )
    ∷ (
      0x12,
      "the 3rd handle in the handle area references a transient object or session that is not loaded",
    )
    ∷ (
      0x13,
      "the 4th handle in the handle area references a transient object or session that is not loaded",
    )
    ∷ (
      0x14,
      "the 5th handle in the handle area references a transient object or session that is not loaded",
    )
    ∷ (
      0x15,
      "the 6th handle in the handle area references a transient object or session that is not loaded",
    )
    ∷ (
      0x16,
      "the 7th handle in the handle area references a transient object or session that is not loaded",
    )
    ∷ (0x18, "the 1st authorization session handle references a session that is not loaded")
    ∷ (0x19, "the 2nd authorization session handle references a session that is not loaded")
    ∷ (0x1a, "the 3rd authorization session handle references a session that is not loaded")
    ∷ (0x1b, "the 4th authorization session handle references a session that is not loaded")
    ∷ (0x1c, "the 5th authorization session handle references a session that is not loaded")
    ∷ (0x1d, "the 6th authorization session handle references a session that is not loaded")
    ∷ (0x1e, "the 7th authorization session handle references a session that is not loaded")
    ∷ (0x20, "the TPM is rate-limiting accesses to prevent wearout of NV")
    ∷ (
      0x21,
      "authorizations for objects subject to DA protection are not allowed at this time because the TPM is in DA lockout mode",
    )
    ∷ (0x22, "the TPM was not able to start the command")
    ∷ (0x23, "the command may require writing of NV and NV is not current accessible")
    ∷ []

-- What stands for a code that is not in its map.
abbrev pub or_unknown : Option String → String
or_unknown none = "unknown error code"
or_unknown (some text) = text

pub data Text : Type 0 where
  -- "error code c : text" and "warning code c : text"
  error_text warning_text : (code : ℕ) (text : String) → Text
  vendor_text status_text : (code : ℕ) → Text
  -- "parameter i, error code c : text" and the like
  parameter_text handle_text session_text : (index code : ℕ) (text : String) → Text

-- The `Error` methods.
unfoldable pub error_message : ResponseError → Text
error_message (status code) = status_text code
error_message (vendor_error code) = vendor_text code
error_message (warning code) = warning_text code (or_unknown (find code warn_msg))
error_message (error code) = error_text code (or_unknown (find code fmt0_msg))
error_message (parameter_error code i) = parameter_text i code (or_unknown (find code fmt1_msg))
error_message (handle_error code i) = handle_text i code (or_unknown (find code fmt1_msg))
error_message (session_error code i) = session_text i code (or_unknown (find code fmt1_msg))
