-- ===== src/Tpm2/Commands/Sequences.antt =====
-- tpm2/tpm2.go: the commands for sequences, with their responses.
use go_tpm.Base.{List, [], true, false, ◌∷◌}
use go_tpm.Tpm2.Command.{Command, ResponseField, handle_field, parm_field, handle_out, parm_out}
use go_tpm.Tpm2.Reflect.Types.{plain, num, w16, w32}
use go_tpm.Tpm2.Structures.Tags.{nullable_tag}
use go_tpm.Tpm2.Structures.Basic.{tpm2b_auth, tpm2b_digest, tpm2b_max_buffer, tpmt_tk_hash_check}

abbrev pub hash_sequence_start_response : List ResponseField
hash_sequence_start_response = parm_out "SequenceHandle" plain (num w32) ∷ []

abbrev pub hash_sequence_start_command : Command
hash_sequence_start_command = record {
  code = 0x186;
  fields = parm_field "Auth" plain tpm2b_auth ∷ parm_field "HashAlg" plain (num w16) ∷ [];
  response = hash_sequence_start_response;
}

abbrev pub hmac_start_response : List ResponseField
hmac_start_response = handle_out "SequenceHandle" (num w32) ∷ []

abbrev pub hmac_start_command : Command
hmac_start_command = record {
  code = 0x15b;
  fields =
      handle_field "Handle" true false
      ∷ parm_field "Auth" plain tpm2b_auth
      ∷ parm_field "HashAlg" nullable_tag (num w16)
      ∷ [];
  response = hmac_start_response;
}

abbrev pub sequence_update_response : List ResponseField
sequence_update_response = []

abbrev pub sequence_update_command : Command
sequence_update_command = record {
  code = 0x15c;
  fields =
      handle_field "SequenceHandle" true true ∷ parm_field "Buffer" plain tpm2b_max_buffer ∷ [];
  response = sequence_update_response;
}

abbrev pub sequence_complete_response : List ResponseField
sequence_complete_response =
    parm_out "Result" plain tpm2b_digest ∷ parm_out "Validation" plain tpmt_tk_hash_check ∷ []

abbrev pub sequence_complete_command : Command
sequence_complete_command = record {
  code = 0x13e;
  fields =
      handle_field "SequenceHandle" true true
      ∷ parm_field "Buffer" plain tpm2b_max_buffer
      ∷ parm_field "Hierarchy" nullable_tag (num w32)
      ∷ [];
  response = sequence_complete_response;
}
