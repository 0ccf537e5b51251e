-- ===== src/Tpm2/Structures/Attest.antt =====
-- tpm2/structures.go: attestation structures.
use go_tpm.Tpm2.Reflect.Types.{
  plain, Ty, Members, num, struct, sized_2b, boolean, field, union, no_fields, member, no_members,
  w16, w32, w64,
}
use go_tpm.Tpm2.Constants.{
  st_attest_certify, st_attest_command_audit, st_attest_creation, st_attest_nv, st_attest_nv_digest,
  st_attest_quote, st_attest_session_audit, st_attest_time,
}
use go_tpm.Tpm2.Structures.Basic.{tpm2b_data, tpm2b_digest, tpm2b_name}
use go_tpm.Tpm2.Structures.Lists.{tpml_pcr_selection}

abbrev pub tpms_clock_info : Ty
tpms_clock_info = struct (
    field "Clock" plain (num w64) (
      field "ResetCount" plain (num w32)
        (field "RestartCount" plain (num w32) (field "Safe" plain boolean no_fields))))

abbrev pub tpms_time_info : Ty
tpms_time_info =
    struct (field "Time" plain (num w64) (field "ClockInfo" plain tpms_clock_info no_fields))

abbrev pub tpms_time_attest_info : Ty
tpms_time_attest_info =
    struct (field "Time" plain tpms_time_info (field "FirmwareVersion" plain (num w64) no_fields))

abbrev pub tpms_certify_info : Ty
tpms_certify_info =
    struct (field "Name" plain tpm2b_name (field "QualifiedName" plain tpm2b_name no_fields))

abbrev pub tpms_quote_info : Ty
tpms_quote_info =
    struct
      (field "PCRSelect" plain tpml_pcr_selection (field "PCRDigest" plain tpm2b_digest no_fields))

abbrev pub tpms_command_audit_info : Ty
tpms_command_audit_info = struct (
    field "AuditCounter" plain (num w64) (
      field "DigestAlg" plain (num w16) (
        field "AuditDigest" plain tpm2b_digest
          (field "CommandDigest" plain tpm2b_digest no_fields))))

abbrev pub tpms_session_audit_info : Ty
tpms_session_audit_info =
    struct
      (field "ExclusiveSession" plain boolean (field "SessionDigest" plain tpm2b_digest no_fields))

abbrev pub tpms_creation_info : Ty
tpms_creation_info =
    struct (field "ObjectName" plain tpm2b_name (field "CreationHash" plain tpm2b_digest no_fields))

abbrev pub tpms_nv_certify_info : Ty
tpms_nv_certify_info = struct (
    field "IndexName" plain tpm2b_name
      (field "Offset" plain (num w16) (field "NVContents" plain tpm2b_data no_fields)))

abbrev pub tpms_nv_digest_certify_info : Ty
tpms_nv_digest_certify_info =
    struct (field "IndexName" plain tpm2b_name (field "NVDigest" plain tpm2b_digest no_fields))

abbrev pub tpmu_attest : Members
tpmu_attest =
    (member st_attest_nv tpms_nv_certify_info (
      member st_attest_command_audit tpms_command_audit_info (
        member st_attest_session_audit tpms_session_audit_info (
          member st_attest_certify tpms_certify_info (
            member st_attest_quote tpms_quote_info (
              member st_attest_time tpms_time_attest_info (
                member st_attest_creation tpms_creation_info
                  (member st_attest_nv_digest tpms_nv_digest_certify_info no_members))))))))

abbrev pub tpms_attest : Ty
tpms_attest = struct (
    field "Magic" plain (num w32) (
      field "Type" plain (num w16) (
        field "QualifiedSigner" plain tpm2b_name (
          field "ExtraData" plain tpm2b_data (
            field "ClockInfo" plain tpms_clock_info
              (field "FirmwareVersion" plain (num w64) (union "Type" tpmu_attest no_fields)))))))

abbrev pub tpm2b_attest : Ty
tpm2b_attest = sized_2b tpms_attest
