-- ===== src/Tpm2/Fault.antt =====
-- The errors of the package tpm2, one constructor for each message.
use go_tpm.Base.{ℕ}
use go_tpm.Base.Outcome.{Result}

pub data Fault : Type 0 where
  -- io
  eof unexpected_eof : Fault
  -- reflect.go, marshalling
  tag_not_numeric incorrect_union_tag no_union_member wrong_union_member : Fault
  slice_too_long ran_out_of_sized extra_in_sized : Fault
  list_not_slice slice_not_list : Fault
  too_few_parameters invalid_length : Fault
  -- structures.go
  unsupported_hash unsupported_curve : Fault
  -- sessions.go
  session_not_initialized unsupported_salt_scheme unsupported_salt_key unsupported_key_size : Fault
  -- reflect.go, execution
  too_many_sessions missing_auth missing_name cannot_marshal : Fault
  invalid_parameter_index not_2b too_many_decrypt too_many_encrypt unaccounted_bytes : Fault
  -- a TPMRC
  tpm_rc : (code : ℕ) → Fault
  -- what the transport, or a session that initialises or encrypts, returns
  transport_failed session_failed : Fault
  unexpected_nonce unexpected_attributes unexpected_hmac incorrect_hmac : Fault

abbrev pub Res : Type 0 → Type 0
Res A = Result Fault A
