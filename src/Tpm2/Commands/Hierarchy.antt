-- ===== src/Tpm2/Commands/Hierarchy.antt =====
-- tpm2/tpm2.go: the commands for hierarchies, with their responses.
use go_tpm.Base.{List, [], true, false, ◌∷◌}
use go_tpm.Tpm2.Command.{
  Command, ResponseField, handle_field, parm_field, sensitive_field, handle_out, parm_out,
}
use go_tpm.Tpm2.Reflect.Types.{plain, num, w32}
use go_tpm.Tpm2.Structures.Basic.{
  tpm2b_auth, tpm2b_data, tpm2b_digest, tpm2b_name, tpmt_tk_creation,
}
use go_tpm.Tpm2.Structures.Lists.{tpml_pcr_selection}
use go_tpm.Tpm2.Structures.Nv.{tpm2b_creation_data}
use go_tpm.Tpm2.Structures.Public.{tpm2b_public}

abbrev pub create_primary_response : List ResponseField
create_primary_response =
    handle_out "ObjectHandle" (num w32)
    ∷ parm_out "OutPublic" plain tpm2b_public
    ∷ parm_out "CreationData" plain tpm2b_creation_data
    ∷ parm_out "CreationHash" plain tpm2b_digest
    ∷ parm_out "CreationTicket" plain tpmt_tk_creation
    ∷ parm_out "Name" plain tpm2b_name
    ∷ []

abbrev pub create_primary_command : Command
create_primary_command = record {
  code = 0x131;
  fields =
      handle_field "PrimaryHandle" true false
      ∷ sensitive_field "InSensitive"
      ∷ parm_field "InPublic" plain tpm2b_public
      ∷ parm_field "OutsideInfo" plain tpm2b_data
      ∷ parm_field "CreationPCR" plain tpml_pcr_selection
      ∷ [];
  response = create_primary_response;
}

abbrev pub clear_response : List ResponseField
clear_response = []

abbrev pub clear_command : Command
clear_command = record {
  code = 0x126;
  fields = handle_field "AuthHandle" true false ∷ [];
  response = clear_response;
}

abbrev pub hierarchy_change_auth_response : List ResponseField
hierarchy_change_auth_response = []

abbrev pub hierarchy_change_auth_command : Command
hierarchy_change_auth_command = record {
  code = 0x129;
  fields = handle_field "AuthHandle" true false ∷ parm_field "NewAuth" plain tpm2b_auth ∷ [];
  response = hierarchy_change_auth_response;
}
