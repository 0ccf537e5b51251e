-- ===== src/Tpm2/Commands/Policies.antt =====
-- tpm2/tpm2.go: the commands for policies, with their responses.
use go_tpm.Base.{List, [], true, false, ◌∷◌}
use go_tpm.Tpm2.Command.{Command, ResponseField, handle_field, parm_field, parm_out}
use go_tpm.Tpm2.Reflect.Types.{plain, num, boolean, w16, w32}
use go_tpm.Tpm2.Structures.Basic.{
  tpm2b_digest, tpm2b_name, tpm2b_nonce, tpm2b_operand, tpm2b_timeout, tpmt_tk_auth,
  tpmt_tk_verified,
}
use go_tpm.Tpm2.Structures.Lists.{tpml_digest, tpml_pcr_selection}
use go_tpm.Tpm2.Structures.Signature.{tpmt_signature}

abbrev pub policy_signed_response : List ResponseField
policy_signed_response =
    parm_out "Timeout" plain tpm2b_timeout ∷ parm_out "PolicyTicket" plain tpmt_tk_auth ∷ []

abbrev pub policy_signed_command : Command
policy_signed_command = record {
  code = 0x160;
  fields =
      handle_field "AuthObject" false false
      ∷ handle_field "PolicySession" false false
      ∷ parm_field "NonceTPM" plain tpm2b_nonce
      ∷ parm_field "CPHashA" plain tpm2b_digest
      ∷ parm_field "PolicyRef" plain tpm2b_nonce
      ∷ parm_field "Expiration" plain (num w32)
      ∷ parm_field "Auth" plain tpmt_signature
      ∷ [];
  response = policy_signed_response;
}

abbrev pub policy_secret_response : List ResponseField
policy_secret_response =
    parm_out "Timeout" plain tpm2b_timeout ∷ parm_out "PolicyTicket" plain tpmt_tk_auth ∷ []

abbrev pub policy_secret_command : Command
policy_secret_command = record {
  code = 0x151;
  fields =
      handle_field "AuthHandle" true false
      ∷ handle_field "PolicySession" false false
      ∷ parm_field "NonceTPM" plain tpm2b_nonce
      ∷ parm_field "CPHashA" plain tpm2b_digest
      ∷ parm_field "PolicyRef" plain tpm2b_nonce
      ∷ parm_field "Expiration" plain (num w32)
      ∷ [];
  response = policy_secret_response;
}

abbrev pub policy_or_response : List ResponseField
policy_or_response = []

abbrev pub policy_or_command : Command
policy_or_command = record {
  code = 0x171;
  fields = handle_field "PolicySession" false false ∷ parm_field "PHashList" plain tpml_digest ∷ [];
  response = policy_or_response;
}

abbrev pub policy_pcr_response : List ResponseField
policy_pcr_response = []

abbrev pub policy_pcr_command : Command
policy_pcr_command = record {
  code = 0x17f;
  fields =
      handle_field "PolicySession" false false
      ∷ parm_field "PcrDigest" plain tpm2b_digest
      ∷ parm_field "Pcrs" plain tpml_pcr_selection
      ∷ [];
  response = policy_pcr_response;
}

abbrev pub policy_auth_value_response : List ResponseField
policy_auth_value_response = []

abbrev pub policy_auth_value_command : Command
policy_auth_value_command = record {
  code = 0x16b;
  fields = handle_field "PolicySession" false false ∷ [];
  response = policy_auth_value_response;
}

abbrev pub policy_duplication_select_response : List ResponseField
policy_duplication_select_response = []

abbrev pub policy_duplication_select_command : Command
policy_duplication_select_command = record {
  code = 0x188;
  fields =
      handle_field "PolicySession" false false
      ∷ parm_field "ObjectName" plain tpm2b_name
      ∷ parm_field "NewParentName" plain tpm2b_name
      ∷ parm_field "IncludeObject" plain boolean
      ∷ [];
  response = policy_duplication_select_response;
}

abbrev pub policy_nv_response : List ResponseField
policy_nv_response = []

abbrev pub policy_nv_command : Command
policy_nv_command = record {
  code = 0x149;
  fields =
      handle_field "AuthHandle" true false
      ∷ handle_field "NVIndex" false false
      ∷ handle_field "PolicySession" false false
      ∷ parm_field "OperandB" plain tpm2b_operand
      ∷ parm_field "Offset" plain (num w16)
      ∷ parm_field "Operation" plain (num w16)
      ∷ [];
  response = policy_nv_response;
}

abbrev pub policy_command_code_response : List ResponseField
policy_command_code_response = []

abbrev pub policy_command_code_command : Command
policy_command_code_command = record {
  code = 0x16c;
  fields = handle_field "PolicySession" false false ∷ parm_field "Code" plain (num w32) ∷ [];
  response = policy_command_code_response;
}

abbrev pub policy_cp_hash_response : List ResponseField
policy_cp_hash_response = []

abbrev pub policy_cp_hash_command : Command
policy_cp_hash_command = record {
  code = 0x16e;
  fields = handle_field "PolicySession" false false ∷ parm_field "CPHashA" plain tpm2b_digest ∷ [];
  response = policy_cp_hash_response;
}

abbrev pub policy_authorize_response : List ResponseField
policy_authorize_response = []

abbrev pub policy_authorize_command : Command
policy_authorize_command = record {
  code = 0x16a;
  fields =
      handle_field "PolicySession" false false
      ∷ parm_field "ApprovedPolicy" plain tpm2b_digest
      ∷ parm_field "PolicyRef" plain tpm2b_digest
      ∷ parm_field "KeySign" plain tpm2b_name
      ∷ parm_field "CheckTicket" plain tpmt_tk_verified
      ∷ [];
  response = policy_authorize_response;
}

abbrev pub policy_get_digest_response : List ResponseField
policy_get_digest_response = parm_out "PolicyDigest" plain tpm2b_digest ∷ []

abbrev pub policy_get_digest_command : Command
policy_get_digest_command = record {
  code = 0x189;
  fields = handle_field "PolicySession" false false ∷ [];
  response = policy_get_digest_response;
}

abbrev pub policy_nv_written_response : List ResponseField
policy_nv_written_response = []

abbrev pub policy_nv_written_command : Command
policy_nv_written_command = record {
  code = 0x18f;
  fields = handle_field "PolicySession" false false ∷ parm_field "WrittenSet" plain boolean ∷ [];
  response = policy_nv_written_response;
}

abbrev pub policy_authorize_nv_response : List ResponseField
policy_authorize_nv_response = []

abbrev pub policy_authorize_nv_command : Command
policy_authorize_nv_command = record {
  code = 0x192;
  fields =
      handle_field "AuthHandle" true false
      ∷ handle_field "NVIndex" false false
      ∷ handle_field "PolicySession" false false
      ∷ [];
  response = policy_authorize_nv_response;
}
