-- ===== src/Tpm2/Commands/Objects.antt =====
-- tpm2/tpm2.go: the commands for objects, with their responses.
use go_tpm.Base.{List, [], true, false, ◌∷◌}
use go_tpm.Tpm2.Command.{
  Command, ResponseField, handle_field, number_handle, parm_field, sensitive_field, handle_out,
  parm_out,
}
use go_tpm.Tpm2.Reflect.Types.{plain, num, w32}
use go_tpm.Tpm2.Structures.Tags.{nullable_tag, optional_tag}
use go_tpm.Tpm2.Structures.Basic.{
  tpm2b_auth, tpm2b_data, tpm2b_digest, tpm2b_name, tpmt_tk_creation,
}
use go_tpm.Tpm2.Structures.Lists.{tpml_pcr_selection}
use go_tpm.Tpm2.Structures.Nv.{tpm2b_creation_data, tpm2b_id_object}
use go_tpm.Tpm2.Structures.Public.{tpm2b_public, tpm2b_template}
use go_tpm.Tpm2.Structures.Sensitive.{tpm2b_private, tpm2b_sensitive}
use go_tpm.Tpm2.Structures.Signature.{tpm2b_encrypted_secret}
use go_tpm.Tpm2.Structures.Symmetric.{tpm2b_sensitive_data}

abbrev pub create_response : List ResponseField
create_response =
    parm_out "OutPrivate" plain tpm2b_private
    ∷ parm_out "OutPublic" plain tpm2b_public
    ∷ parm_out "CreationData" plain tpm2b_creation_data
    ∷ parm_out "CreationHash" plain tpm2b_digest
    ∷ parm_out "CreationTicket" plain tpmt_tk_creation
    ∷ []

abbrev pub create_command : Command
create_command = record {
  code = 0x153;
  fields =
      handle_field "ParentHandle" true false
      ∷ sensitive_field "InSensitive"
      ∷ parm_field "InPublic" plain tpm2b_public
      ∷ parm_field "OutsideInfo" plain tpm2b_data
      ∷ parm_field "CreationPCR" plain tpml_pcr_selection
      ∷ [];
  response = create_response;
}

abbrev pub load_response : List ResponseField
load_response = handle_out "ObjectHandle" (num w32) ∷ parm_out "Name" plain tpm2b_name ∷ []

abbrev pub load_command : Command
load_command = record {
  code = 0x157;
  fields =
      handle_field "ParentHandle" true false
      ∷ parm_field "InPrivate" plain tpm2b_private
      ∷ parm_field "InPublic" plain tpm2b_public
      ∷ [];
  response = load_response;
}

abbrev pub load_external_response : List ResponseField
load_external_response = handle_out "ObjectHandle" (num w32) ∷ parm_out "Name" plain tpm2b_name ∷ []

abbrev pub load_external_command : Command
load_external_command = record {
  code = 0x167;
  fields =
      parm_field "InPrivate" optional_tag tpm2b_sensitive
      ∷ parm_field "InPublic" plain tpm2b_public
      ∷ parm_field "Hierarchy" nullable_tag (num w32)
      ∷ [];
  response = load_external_response;
}

abbrev pub read_public_response : List ResponseField
read_public_response =
    parm_out "OutPublic" plain tpm2b_public
    ∷ parm_out "Name" plain tpm2b_name
    ∷ parm_out "QualifiedName" plain tpm2b_name
    ∷ []

abbrev pub read_public_command : Command
read_public_command = record {
  code = 0x173;
  fields = number_handle "ObjectHandle" ∷ [];
  response = read_public_response;
}

abbrev pub activate_credential_response : List ResponseField
activate_credential_response = parm_out "CertInfo" plain tpm2b_digest ∷ []

abbrev pub activate_credential_command : Command
activate_credential_command = record {
  code = 0x147;
  fields =
      handle_field "ActivateHandle" true false
      ∷ handle_field "KeyHandle" true false
      ∷ parm_field "CredentialBlob" plain tpm2b_id_object
      ∷ parm_field "Secret" plain tpm2b_encrypted_secret
      ∷ [];
  response = activate_credential_response;
}

abbrev pub make_credential_response : List ResponseField
make_credential_response =
    parm_out "CredentialBlob" plain tpm2b_id_object
    ∷ parm_out "Secret" plain tpm2b_encrypted_secret
    ∷ []

abbrev pub make_credential_command : Command
make_credential_command = record {
  code = 0x168;
  fields =
      number_handle "Handle"
      ∷ parm_field "Credential" plain tpm2b_digest
      ∷ parm_field "ObjectNamae" plain tpm2b_name
      ∷ [];
  response = make_credential_response;
}

abbrev pub unseal_response : List ResponseField
unseal_response = parm_out "OutData" plain tpm2b_sensitive_data ∷ []

abbrev pub unseal_command : Command
unseal_command = record {
  code = 0x15e;
  fields = handle_field "ItemHandle" true false ∷ [];
  response = unseal_response;
}

abbrev pub object_change_auth_response : List ResponseField
object_change_auth_response = parm_out "OutPrivate" plain tpm2b_private ∷ []

abbrev pub object_change_auth_command : Command
object_change_auth_command = record {
  code = 0x150;
  fields =
      handle_field "ObjectHandle" true false
      ∷ handle_field "ParentHandle" false false
      ∷ parm_field "NewAuth" plain tpm2b_auth
      ∷ [];
  response = object_change_auth_response;
}

abbrev pub create_loaded_response : List ResponseField
create_loaded_response =
    handle_out "ObjectHandle" (num w32)
    ∷ parm_out "OutPrivate" optional_tag tpm2b_private
    ∷ parm_out "OutPublic" plain tpm2b_public
    ∷ parm_out "Name" plain tpm2b_name
    ∷ []

abbrev pub create_loaded_command : Command
create_loaded_command = record {
  code = 0x191;
  fields =
      handle_field "ParentHandle" true false
      ∷ sensitive_field "InSensitive"
      ∷ parm_field "InPublic" plain tpm2b_template
      ∷ [];
  response = create_loaded_response;
}
