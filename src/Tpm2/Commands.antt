-- ===== src/Tpm2/Commands.antt =====
-- tpm2/tpm2.go: the commands.
use go_tpm.Base.{List, [], ◌∷◌}
use go_tpm.Tpm2.Command.{Command}
use go_tpm.Tpm2.Commands.Sessions.{shutdown_command, startup_command, start_auth_session_command}
use go_tpm.Tpm2.Commands.Objects.{
  create_command, load_command, load_external_command, read_public_command,
  activate_credential_command, make_credential_command, unseal_command, object_change_auth_command,
  create_loaded_command,
}
use go_tpm.Tpm2.Commands.Primitives.{
  encrypt_decrypt_2_command, rsa_encrypt_command, rsa_decrypt_command, ecdhz_gen_command,
  hash_command, get_random_command,
}
use go_tpm.Tpm2.Commands.Sequences.{
  hash_sequence_start_command, hmac_start_command, sequence_update_command,
  sequence_complete_command,
}
use go_tpm.Tpm2.Commands.Attestation.{
  certify_command, certify_creation_command, quote_command, get_session_audit_digest_command,
  commit_command, verify_signature_command, sign_command,
}
use go_tpm.Tpm2.Commands.Pcr.{
  pcr_extend_command, pcr_event_command, pcr_read_command, pcr_reset_command,
}
use go_tpm.Tpm2.Commands.Policies.{
  policy_signed_command, policy_secret_command, policy_or_command, policy_pcr_command,
  policy_auth_value_command, policy_duplication_select_command, policy_nv_command,
  policy_command_code_command, policy_cp_hash_command, policy_authorize_command,
  policy_get_digest_command, policy_nv_written_command, policy_authorize_nv_command,
}
use go_tpm.Tpm2.Commands.Hierarchy.{
  create_primary_command, clear_command, hierarchy_change_auth_command,
}
use go_tpm.Tpm2.Commands.Contexts.{
  context_save_command, context_load_command, flush_context_command, evict_control_command,
  duplicate_command, import_command, get_capability_command, test_parms_command,
}
use go_tpm.Tpm2.Commands.Nv.{
  nv_define_space_command, nv_undefine_space_command, nv_undefine_space_special_command,
  nv_read_public_command, nv_write_command, nv_increment_command, nv_write_lock_command,
  nv_read_command, nv_certify_command,
}
pub mod Sessions
pub mod Objects
pub mod Primitives
pub mod Sequences
pub mod Attestation
pub mod Pcr
pub mod Policies
pub mod Hierarchy
pub mod Contexts
pub mod Nv
pub mod Layout

-- Every command of the package.
abbrev pub all_commands : List Command
all_commands =
    shutdown_command ∷ startup_command ∷ start_auth_session_command ∷ create_command ∷ load_command
    ∷ load_external_command ∷ read_public_command ∷ activate_credential_command
    ∷ make_credential_command ∷ unseal_command ∷ object_change_auth_command ∷ create_loaded_command
    ∷ encrypt_decrypt_2_command ∷ rsa_encrypt_command ∷ rsa_decrypt_command ∷ ecdhz_gen_command
    ∷ hash_command ∷ get_random_command ∷ hash_sequence_start_command ∷ hmac_start_command
    ∷ sequence_update_command ∷ sequence_complete_command ∷ certify_command
    ∷ certify_creation_command ∷ quote_command ∷ get_session_audit_digest_command ∷ commit_command
    ∷ verify_signature_command ∷ sign_command ∷ pcr_extend_command ∷ pcr_event_command
    ∷ pcr_read_command ∷ pcr_reset_command ∷ policy_signed_command ∷ policy_secret_command
    ∷ policy_or_command ∷ policy_pcr_command ∷ policy_auth_value_command
    ∷ policy_duplication_select_command ∷ policy_nv_command ∷ policy_command_code_command
    ∷ policy_cp_hash_command ∷ policy_authorize_command ∷ policy_get_digest_command
    ∷ policy_nv_written_command ∷ policy_authorize_nv_command ∷ create_primary_command
    ∷ clear_command ∷ hierarchy_change_auth_command ∷ context_save_command ∷ context_load_command
    ∷ flush_context_command ∷ evict_control_command ∷ duplicate_command ∷ import_command
    ∷ get_capability_command ∷ test_parms_command ∷ nv_define_space_command
    ∷ nv_undefine_space_command ∷ nv_undefine_space_special_command ∷ nv_read_public_command
    ∷ nv_write_command ∷ nv_increment_command ∷ nv_write_lock_command ∷ nv_read_command
    ∷ nv_certify_command ∷ []
