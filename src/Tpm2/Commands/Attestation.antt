-- ===== src/Tpm2/Commands/Attestation.antt =====
-- tpm2/tpm2.go: the commands for attestation and signatures, with their responses.
use go_tpm.Base.{List, [], true, false, ◌∷◌}
use go_tpm.Tpm2.Command.{Command, ResponseField, handle_field, parm_field, parm_out}
use go_tpm.Tpm2.Reflect.Types.{plain, num, w16}
use go_tpm.Tpm2.Structures.Tags.{nullable_tag}
use go_tpm.Tpm2.Structures.Asymmetric.{tpm2b_ecc_parameter, tpm2b_ecc_point}
use go_tpm.Tpm2.Structures.Attest.{tpm2b_attest}
use go_tpm.Tpm2.Structures.Basic.{
  tpm2b_data, tpm2b_digest, tpmt_tk_creation, tpmt_tk_hash_check, tpmt_tk_verified,
}
use go_tpm.Tpm2.Structures.Lists.{tpml_pcr_selection}
use go_tpm.Tpm2.Structures.Scheme.{tpmt_sig_scheme}
use go_tpm.Tpm2.Structures.Signature.{tpmt_signature}
use go_tpm.Tpm2.Structures.Symmetric.{tpm2b_sensitive_data}

abbrev pub certify_response : List ResponseField
certify_response =
    parm_out "CertifyInfo" plain tpm2b_attest ∷ parm_out "Signature" plain tpmt_signature ∷ []

abbrev pub certify_command : Command
certify_command = record {
  code = 0x148;
  fields =
      handle_field "ObjectHandle" true false
      ∷ handle_field "SignHandle" true false
      ∷ parm_field "QualifyingData" plain tpm2b_data
      ∷ parm_field "InScheme" plain tpmt_sig_scheme
      ∷ [];
  response = certify_response;
}

abbrev pub certify_creation_response : List ResponseField
certify_creation_response =
    parm_out "CertifyInfo" plain tpm2b_attest ∷ parm_out "Signature" plain tpmt_signature ∷ []

abbrev pub certify_creation_command : Command
certify_creation_command = record {
  code = 0x14a;
  fields =
      handle_field "SignHandle" true false
      ∷ handle_field "ObjectHandle" false false
      ∷ parm_field "QualifyingData" plain tpm2b_data
      ∷ parm_field "CreationHash" plain tpm2b_digest
      ∷ parm_field "InScheme" plain tpmt_sig_scheme
      ∷ parm_field "CreationTicket" plain tpmt_tk_creation
      ∷ [];
  response = certify_creation_response;
}

abbrev pub quote_response : List ResponseField
quote_response =
    parm_out "Quoted" plain tpm2b_attest ∷ parm_out "Signature" plain tpmt_signature ∷ []

abbrev pub quote_command : Command
quote_command = record {
  code = 0x158;
  fields =
      handle_field "SignHandle" true false
      ∷ parm_field "QualifyingData" plain tpm2b_data
      ∷ parm_field "InScheme" plain tpmt_sig_scheme
      ∷ parm_field "PCRSelect" plain tpml_pcr_selection
      ∷ [];
  response = quote_response;
}

abbrev pub get_session_audit_digest_response : List ResponseField
get_session_audit_digest_response =
    parm_out "AuditInfo" plain tpm2b_attest ∷ parm_out "Signature" plain tpmt_signature ∷ []

abbrev pub get_session_audit_digest_command : Command
get_session_audit_digest_command = record {
  code = 0x14d;
  fields =
      handle_field "PrivacyAdminHandle" true false
      ∷ handle_field "SignHandle" true false
      ∷ handle_field "SessionHandle" false false
      ∷ parm_field "QualifyingData" plain tpm2b_data
      ∷ parm_field "InScheme" plain tpmt_sig_scheme
      ∷ [];
  response = get_session_audit_digest_response;
}

abbrev pub commit_response : List ResponseField
commit_response =
    parm_out "K" plain tpm2b_ecc_point
    ∷ parm_out "L" plain tpm2b_ecc_point
    ∷ parm_out "E" plain tpm2b_ecc_point
    ∷ parm_out "Counter" plain (num w16)
    ∷ []

abbrev pub commit_command : Command
commit_command = record {
  code = 0x18b;
  fields =
      handle_field "SignHandle" true false
      ∷ parm_field "P1" plain tpm2b_ecc_point
      ∷ parm_field "S2" plain tpm2b_sensitive_data
      ∷ parm_field "Y2" plain tpm2b_ecc_parameter
      ∷ [];
  response = commit_response;
}

abbrev pub verify_signature_response : List ResponseField
verify_signature_response = parm_out "Validation" plain tpmt_tk_verified ∷ []

abbrev pub verify_signature_command : Command
verify_signature_command = record {
  code = 0x177;
  fields =
      handle_field "KeyHandle" false false
      ∷ parm_field "Digest" plain tpm2b_digest
      ∷ parm_field "Signature" plain tpmt_signature
      ∷ [];
  response = verify_signature_response;
}

abbrev pub sign_response : List ResponseField
sign_response = parm_out "Signature" plain tpmt_signature ∷ []

abbrev pub sign_command : Command
sign_command = record {
  code = 0x15d;
  fields =
      handle_field "KeyHandle" true false
      ∷ parm_field "Digest" plain tpm2b_digest
      ∷ parm_field "InScheme" nullable_tag tpmt_sig_scheme
      ∷ parm_field "Validation" plain tpmt_tk_hash_check
      ∷ [];
  response = sign_response;
}
