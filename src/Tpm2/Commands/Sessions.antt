-- ===== src/Tpm2/Commands/Sessions.antt =====
-- tpm2/tpm2.go: the commands for starting up and sessions, with their responses.
use go_tpm.Base.{List, [], false, ◌∷◌}
use go_tpm.Tpm2.Command.{Command, ResponseField, handle_field, parm_field, handle_out, parm_out}
use go_tpm.Tpm2.Reflect.Types.{plain, num, w8, w16, w32}
use go_tpm.Tpm2.Structures.Basic.{tpm2b_nonce}
use go_tpm.Tpm2.Structures.Signature.{tpm2b_encrypted_secret}
use go_tpm.Tpm2.Structures.Symmetric.{tpmt_sym_def}

abbrev pub shutdown_response : List ResponseField
shutdown_response = []

abbrev pub shutdown_command : Command
shutdown_command = record {
  code = 0x145;
  fields = parm_field "ShutdownType" plain (num w16) ∷ [];
  response = shutdown_response;
}

abbrev pub startup_response : List ResponseField
startup_response = []

abbrev pub startup_command : Command
startup_command = record {
  code = 0x144;
  fields = parm_field "StartupType" plain (num w16) ∷ [];
  response = startup_response;
}

abbrev pub start_auth_session_response : List ResponseField
start_auth_session_response =
    handle_out "SessionHandle" (num w32) ∷ parm_out "NonceTPM" plain tpm2b_nonce ∷ []

abbrev pub start_auth_session_command : Command
start_auth_session_command = record {
  code = 0x176;
  fields =
      handle_field "TPMKey" false false
      ∷ handle_field "Bind" false false
      ∷ parm_field "NonceCaller" plain tpm2b_nonce
      ∷ parm_field "EncryptedSalt" plain tpm2b_encrypted_secret
      ∷ parm_field "SessionType" plain (num w8)
      ∷ parm_field "Symmetric" plain tpmt_sym_def
      ∷ parm_field "AuthHash" plain (num w16)
      ∷ [];
  response = start_auth_session_response;
}
