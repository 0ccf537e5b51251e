-- ===== src/Tpm2/Structures/Auth.antt =====
-- tpm2/structures.go: session areas and the two headers.
use go_tpm.Tpm2.Reflect.Types.{plain, Ty, num, struct, field, no_fields, w16, w32}
use go_tpm.Tpm2.Structures.Attributes.{tpma_session}
use go_tpm.Tpm2.Structures.Basic.{tpm2b_data, tpm2b_nonce}

abbrev pub tpm_cmd_header : Ty
tpm_cmd_header = struct (
    field "Tag" plain (num w16)
      (field "Length" plain (num w32) (field "CommandCode" plain (num w32) no_fields)))

abbrev pub tpm_rsp_header : Ty
tpm_rsp_header = struct (
    field "Tag" plain (num w16)
      (field "Length" plain (num w32) (field "ResponseCode" plain (num w32) no_fields)))

abbrev pub tpms_auth_command : Ty
tpms_auth_command = struct (
    field "Handle" plain (num w32) (
      field "Nonce" plain tpm2b_nonce
        (field "Attributes" plain tpma_session (field "Authorization" plain tpm2b_data no_fields))))

abbrev pub tpms_auth_response : Ty
tpms_auth_response = struct (
    field "Nonce" plain tpm2b_nonce
      (field "Attributes" plain tpma_session (field "Authorization" plain tpm2b_data no_fields)))
