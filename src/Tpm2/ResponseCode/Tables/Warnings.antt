-- ===== src/Tpm2/ResponseCode/Tables/Warnings.antt =====
-- tpm2/errors.go: the names and descriptions of the warnings.
use go_tpm.Base.{ℕ, List, [], ◌∷◌}
use go_tpm.Tpm2.ResponseCode.Descriptions.{ErrorDesc, entry}

abbrev pub warn_descs : List (ℕ × ErrorDesc)
warn_descs =
    entry 0x901 "TPM_RC_CONTEXT_GAP" "gap for context ID is too large"
    ∷ entry 0x902 "TPM_RC_OBJECT_MEMORY" "out of memory for object contexts"
    ∷ entry 0x903 "TPM_RC_SESSION_MEMORY" "out of memory for session contexts"
    ∷ entry 0x904 "TPM_RC_MEMORY"
        "out of shared object/session memory or need space for internal operations"
    ∷ entry 0x905 "TPM_RC_SESSION_HANDLES"
        "out of session handles – a session must be flushed before a new session may be created"
    ∷ entry 0x906 "TPM_RC_OBJECT_HANDLES"
        "out of object handles – the handle space for objects is depleted and a reboot is required"
    ∷ entry 0x907 "TPM_RC_LOCALITY" "bad locality"
    ∷ entry 0x908 "TPM_RC_YIELDED"
        "the TPM has suspended operation on the command; forward progress was made and the command may be retried"
    ∷ entry 0x909 "TPM_RC_CANCELED" "the command was canceled"
    ∷ entry 0x90a "TPM_RC_TESTING" "TPM is performing self-tests"
    ∷ entry 0x910 "TPM_RC_REFERENCE_H0"
        "the 1st handle in the handle area references a transient object or session that is not loaded"
    ∷ entry 0x911 "TPM_RC_REFERENCE_H1"
        "the 2nd handle in the handle area references a transient object or session that is not loaded"
    ∷ entry 0x912 "TPM_RC_REFERENCE_H2"
        "the 3rd handle in the handle area references a transient object or session that is not loaded"
    ∷ entry 0x913 "TPM_RC_REFERENCE_H3"
        "the 4th handle in the handle area references a transient object or session that is not loaded"
    ∷ entry 0x914 "TPM_RC_REFERENCE_H4"
        "the 5th handle in the handle area references a transient object or session that is not loaded"
    ∷ entry 0x915 "TPM_RC_REFERENCE_H5"
        "the 6th handle in the handle area references a transient object or session that is not loaded"
    ∷ entry 0x916 "TPM_RC_REFERENCE_H6"
        "the 7th handle in the handle area references a transient object or session that is not loaded"
    ∷ entry 0x918 "TPM_RC_REFERENCE_S0"
        "the 1st authorization session handle references a session that is not loaded"
    ∷ entry 0x919 "TPM_RC_REFERENCE_S1"
        "the 2nd authorization session handle references a session that is not loaded"
    ∷ entry 0x91a "TPM_RC_REFERENCE_S2"
        "the 3rd authorization session handle references a session that is not loaded"
    ∷ entry 0x91b "TPM_RC_REFERENCE_S3"
        "the 4th authorization session handle references a session that is not loaded"
    ∷ entry 0x91c "TPM_RC_REFERENCE_S4"
        "the 5th session handle references a session that is not loaded"
    ∷ entry 0x91d "TPM_RC_REFERENCE_S5"
        "the 6th session handle references a session that is not loaded"
    ∷ entry 0x91e "TPM_RC_REFERENCE_S6"
        "the 7th authorization session handle references a session that is not loaded"
    ∷ entry 0x920 "TPM_RC_NV_RATE" "the TPM is rate-limiting accesses to prevent wearout of NV"
    ∷ entry 0x921 "TPM_RC_LOCKOUT"
        "authorizations for objects subject to DA protection are not allowed at this time because the TPM is in DA lockout mode"
    ∷ entry 0x922 "TPM_RC_RETRY" "the TPM was not able to start the command"
    ∷ entry 0x923 "TPM_RC_NV_UNAVAILABLE"
        "the command may require writing of NV and NV is not current accessible"
    ∷ []
