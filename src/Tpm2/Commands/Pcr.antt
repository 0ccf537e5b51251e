-- ===== src/Tpm2/Commands/Pcr.antt =====
-- tpm2/tpm2.go: the commands for PCRs, with their responses.
use go_tpm.Base.{List, [], true, false, ◌∷◌}
use go_tpm.Tpm2.Command.{Command, ResponseField, handle_field, parm_field, parm_out}
use go_tpm.Tpm2.Reflect.Types.{plain, num, w32}
use go_tpm.Tpm2.Structures.Basic.{tpm2b_event}
use go_tpm.Tpm2.Structures.Lists.{tpml_digest, tpml_digest_values, tpml_pcr_selection}

abbrev pub pcr_extend_response : List ResponseField
pcr_extend_response = []

abbrev pub pcr_extend_command : Command
pcr_extend_command = record {
  code = 0x182;
  fields = handle_field "PCRHandle" true false ∷ parm_field "Digests" plain tpml_digest_values ∷ [];
  response = pcr_extend_response;
}

abbrev pub pcr_event_response : List ResponseField
pcr_event_response = []

abbrev pub pcr_event_command : Command
pcr_event_command = record {
  code = 0x13c;
  fields = handle_field "PCRHandle" true false ∷ parm_field "EventData" plain tpm2b_event ∷ [];
  response = pcr_event_response;
}

abbrev pub pcr_read_response : List ResponseField
pcr_read_response =
    parm_out "PCRUpdateCounter" plain (num w32)
    ∷ parm_out "PCRSelectionOut" plain tpml_pcr_selection
    ∷ parm_out "PCRValues" plain tpml_digest
    ∷ []

abbrev pub pcr_read_command : Command
pcr_read_command = record {
  code = 0x17e;
  fields = parm_field "PCRSelectionIn" plain tpml_pcr_selection ∷ [];
  response = pcr_read_response;
}

abbrev pub pcr_reset_response : List ResponseField
pcr_reset_response = []

abbrev pub pcr_reset_command : Command
pcr_reset_command = record {
  code = 0x13d;
  fields = handle_field "PCRHandle" true false ∷ [];
  response = pcr_reset_response;
}
