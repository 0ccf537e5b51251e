-- ===== src/Tpm2/Commands/Nv.antt =====
-- tpm2/tpm2.go: the commands for NV indices, with their responses.
use go_tpm.Base.{List, [], true, false, ◌∷◌}
use go_tpm.Tpm2.Command.{Command, ResponseField, handle_field, parm_field, parm_out}
use go_tpm.Tpm2.Reflect.Types.{plain, num, w16}
use go_tpm.Tpm2.Structures.Tags.{nullable_tag}
use go_tpm.Tpm2.Structures.Attest.{tpm2b_attest}
use go_tpm.Tpm2.Structures.Basic.{tpm2b_auth, tpm2b_data, tpm2b_max_nv_buffer, tpm2b_name}
use go_tpm.Tpm2.Structures.Nv.{tpm2b_nv_public}
use go_tpm.Tpm2.Structures.Scheme.{tpmt_sig_scheme}
use go_tpm.Tpm2.Structures.Signature.{tpmt_signature}

abbrev pub nv_define_space_response : List ResponseField
nv_define_space_response = []

abbrev pub nv_define_space_command : Command
nv_define_space_command = record {
  code = 0x12a;
  fields =
      handle_field "AuthHandle" true false
      ∷ parm_field "Auth" plain tpm2b_auth
      ∷ parm_field "PublicInfo" plain tpm2b_nv_public
      ∷ [];
  response = nv_define_space_response;
}

abbrev pub nv_undefine_space_response : List ResponseField
nv_undefine_space_response = []

abbrev pub nv_undefine_space_command : Command
nv_undefine_space_command = record {
  code = 0x122;
  fields = handle_field "AuthHandle" true false ∷ handle_field "NVIndex" false false ∷ [];
  response = nv_undefine_space_response;
}

abbrev pub nv_undefine_space_special_response : List ResponseField
nv_undefine_space_special_response = []

abbrev pub nv_undefine_space_special_command : Command
nv_undefine_space_special_command = record {
  code = 0x11f;
  fields = handle_field "NVIndex" true false ∷ handle_field "Platform" true false ∷ [];
  response = nv_undefine_space_special_response;
}

abbrev pub nv_read_public_response : List ResponseField
nv_read_public_response =
    parm_out "NVPublic" plain tpm2b_nv_public ∷ parm_out "NVName" plain tpm2b_name ∷ []

abbrev pub nv_read_public_command : Command
nv_read_public_command = record {
  code = 0x169;
  fields = handle_field "NVIndex" false false ∷ [];
  response = nv_read_public_response;
}

abbrev pub nv_write_response : List ResponseField
nv_write_response = []

abbrev pub nv_write_command : Command
nv_write_command = record {
  code = 0x137;
  fields =
      handle_field "AuthHandle" true false
      ∷ handle_field "NVIndex" false false
      ∷ parm_field "Data" plain tpm2b_max_nv_buffer
      ∷ parm_field "Offset" plain (num w16)
      ∷ [];
  response = nv_write_response;
}

abbrev pub nv_increment_response : List ResponseField
nv_increment_response = []

abbrev pub nv_increment_command : Command
nv_increment_command = record {
  code = 0x134;
  fields = handle_field "AuthHandle" true false ∷ handle_field "NVIndex" false false ∷ [];
  response = nv_increment_response;
}

abbrev pub nv_write_lock_response : List ResponseField
nv_write_lock_response = []

abbrev pub nv_write_lock_command : Command
nv_write_lock_command = record {
  code = 0x138;
  fields = handle_field "AuthHandle" true false ∷ handle_field "NVIndex" false false ∷ [];
  response = nv_write_lock_response;
}

abbrev pub nv_read_response : List ResponseField
nv_read_response = parm_out "Data" plain tpm2b_max_nv_buffer ∷ []

abbrev pub nv_read_command : Command
nv_read_command = record {
  code = 0x14e;
  fields =
      handle_field "AuthHandle" true false
      ∷ handle_field "NVIndex" false false
      ∷ parm_field "Size" plain (num w16)
      ∷ parm_field "Offset" plain (num w16)
      ∷ [];
  response = nv_read_response;
}

abbrev pub nv_certify_response : List ResponseField
nv_certify_response =
    parm_out "CertifyInfo" plain tpm2b_attest ∷ parm_out "Signature" plain tpmt_signature ∷ []

abbrev pub nv_certify_command : Command
nv_certify_command = record {
  code = 0x184;
  fields =
      handle_field "SignHandle" true false
      ∷ handle_field "AuthHandle" true false
      ∷ handle_field "NVIndex" false false
      ∷ parm_field "QualifyingData" plain tpm2b_data
      ∷ parm_field "InScheme" nullable_tag tpmt_sig_scheme
      ∷ parm_field "Size" plain (num w16)
      ∷ parm_field "Offset" plain (num w16)
      ∷ [];
  response = nv_certify_response;
}
