-- ===== src/Tpm2/Commands/Contexts.antt =====
-- tpm2/tpm2.go: the commands for contexts, duplication and capabilities, with their responses.
use go_tpm.Base.{List, [], true, false, ◌∷◌}
use go_tpm.Tpm2.Command.{Command, ResponseField, handle_field, parm_field, parm_out}
use go_tpm.Tpm2.Reflect.Types.{plain, num, boolean, w32}
use go_tpm.Tpm2.Structures.Basic.{tpm2b_data}
use go_tpm.Tpm2.Structures.Capability.{tpms_capability_data}
use go_tpm.Tpm2.Structures.Nv.{tpms_context}
use go_tpm.Tpm2.Structures.Public.{tpm2b_public, tpmt_public_parms}
use go_tpm.Tpm2.Structures.Sensitive.{tpm2b_private}
use go_tpm.Tpm2.Structures.Signature.{tpm2b_encrypted_secret}
use go_tpm.Tpm2.Structures.Symmetric.{tpmt_sym_def}

abbrev pub context_save_response : List ResponseField
context_save_response = parm_out "Context" plain tpms_context ∷ []

abbrev pub context_save_command : Command
context_save_command = record {
  code = 0x162;
  fields = parm_field "SaveHandle" plain (num w32) ∷ [];
  response = context_save_response;
}

abbrev pub context_load_response : List ResponseField
context_load_response = parm_out "LoadedHandle" plain (num w32) ∷ []

abbrev pub context_load_command : Command
context_load_command = record {
  code = 0x161;
  fields = parm_field "Context" plain tpms_context ∷ [];
  response = context_load_response;
}

abbrev pub flush_context_response : List ResponseField
flush_context_response = []

abbrev pub flush_context_command : Command
flush_context_command = record {
  code = 0x165;
  fields = handle_field "FlushHandle" false false ∷ [];
  response = flush_context_response;
}

abbrev pub evict_control_response : List ResponseField
evict_control_response = []

abbrev pub evict_control_command : Command
evict_control_command = record {
  code = 0x120;
  fields =
      handle_field "Auth" true false
      ∷ handle_field "ObjectHandle" false false
      ∷ parm_field "PersistentHandle" plain (num w32)
      ∷ [];
  response = evict_control_response;
}

abbrev pub duplicate_response : List ResponseField
duplicate_response =
    parm_out "EncryptionKeyOut" plain tpm2b_data
    ∷ parm_out "Duplicate" plain tpm2b_private
    ∷ parm_out "OutSymSeed" plain tpm2b_encrypted_secret
    ∷ []

abbrev pub duplicate_command : Command
duplicate_command = record {
  code = 0x14b;
  fields =
      handle_field "ObjectHandle" true false
      ∷ handle_field "NewParentHandle" false false
      ∷ parm_field "EncryptionKeyIn" plain tpm2b_data
      ∷ parm_field "Symmetric" plain tpmt_sym_def
      ∷ [];
  response = duplicate_response;
}

abbrev pub import_response : List ResponseField
import_response = parm_out "OutPrivate" plain tpm2b_private ∷ []

abbrev pub import_command : Command
import_command = record {
  code = 0x156;
  fields =
      handle_field "ParentHandle" true false
      ∷ parm_field "EncryptionKey" plain tpm2b_data
      ∷ parm_field "ObjectPublic" plain tpm2b_public
      ∷ parm_field "Duplicate" plain tpm2b_private
      ∷ parm_field "InSymSeed" plain tpm2b_encrypted_secret
      ∷ parm_field "Symmetric" plain tpmt_sym_def
      ∷ [];
  response = import_response;
}

abbrev pub get_capability_response : List ResponseField
get_capability_response =
    parm_out "MoreData" plain boolean ∷ parm_out "CapabilityData" plain tpms_capability_data ∷ []

abbrev pub get_capability_command : Command
get_capability_command = record {
  code = 0x17a;
  fields =
      parm_field "Capability" plain (num w32)
      ∷ parm_field "Property" plain (num w32)
      ∷ parm_field "PropertyCount" plain (num w32)
      ∷ [];
  response = get_capability_response;
}

abbrev pub test_parms_response : List ResponseField
test_parms_response = []

abbrev pub test_parms_command : Command
test_parms_command = record {
  code = 0x18a;
  fields = parm_field "Parameters" plain tpmt_public_parms ∷ [];
  response = test_parms_response;
}
