-- ===== src/Tests/Execute.antt =====
-- execute of tpm2/reflect.go and its parts on commands.
use go_tpm.Base.{
  replicate, ℕ, ◌≤◌, ◌≡◌, refl, arith, Bool, true, false, List, [], ◌∷◌, ◌++◌, none, some, inl, inr,
}
use go_tpm.Base.Bytes.{put_be}
use go_tpm.Base.Outcome.{ok, err}
use go_tpm.Tpm2.Fault.{incorrect_hmac}
use go_tpm.Tpm2.Reflect.Types.{num, w16, w32, plain}
use go_tpm.Tpm2.Reflect.Marshal.{marshal, marshal_array, nullable_form}
use go_tpm.Tpm2.Reflect.Valid.{Valid}
use go_tpm.Tpm2.Structures.Tags.{nullable_tag}
use go_tpm.Tpm2.Structures.Basic.{tpm2b_digest, tpm2b_max_buffer}
use go_tpm.Tpm2.Structures.Auth.{tpm_rsp_header}
use go_tpm.Tpm2.Command.{parm_out}
use go_tpm.Tpm2.Command.Handles.{auth_handle}
use go_tpm.Tpm2.Command.Arguments.{
  Argument, handle_arg, parm_arg, cmd_auths, cmd_handles, cmd_names, marshal_argument,
  marshal_parameter, marshal_parameters,
}
use go_tpm.Tpm2.Command.Order.{names_of, cmd_names-names_of, marshal_each, parms_of}
use go_tpm.Tpm2.Commands.Primitives.{get_random_command}
use go_tpm.Tpm2.Session.Password.{authorize_pw, validate_pw}
use go_tpm.Tpm2.Session.Crypto.{sha256}
use go_tpm.Tpm2.Session.Hashes.{join}
use go_tpm.Tpm2.Audit.{CommandAudit, marshal_outs, audit_command}
use go_tpm.Tpm2.Audit.Chain.{audit_command-digest}
use go_tpm.Tests.Toy.{toy}
use go_tpm.Tpm2.Execute.{cmd_header}
use go_tpm.Tpm2.Execute.Step.{Step, lift}
use go_tpm.Tpm2.Execute.Sessions.{Sessions}
use go_tpm.Tpm2.Execute.Passwords.{password_sessions}
use go_tpm.Tpm2.Execute.Request.{
  cmd_parameters, write_parameters, encrypt_first, cmd_sessions, extra_nonces, authorize_all,
}
use go_tpm.Tpm2.Reflect.Bitwise.{marshal_bitwise}
use go_tpm.Tpm2.Command.Arguments.{names_from}
use go_tpm.Tpm2.Execute.Request.Parameters.{
  decryptions, cmd_parameters-plain, cmd_parameters-one_decryption,
}
use go_tpm.Tpm2.Execute.Response.{Slot}
use go_tpm.Tpm2.Execute.Response.RoundTrip.{marshal_slots, settle_slots}
use go_tpm.Tpm2.Execute.Run.{init_all, authorization_area, request, execute, has_any}
use go_tpm.Tpm2.Execute.Layout.{request-layout, IsArea, Parses, handle_bytes}
use go_tpm.Tpm2.Execute.Request.Areas.{AreParameters}
use go_tpm.Tpm2.Execute.Answers.{execute-answered}

-- A transport that records the commands and gives always the same answer.
abbrev World : Type 0
World = List (List ℕ)

abbrev passwords : Sessions World
passwords = password_sessions World

abbrev answering : List ℕ → List ℕ → Step World (List ℕ)
answering answer command w = (command ∷ w, ok answer)

abbrev two_bytes : List (Argument (List ℕ))
two_bytes = parm_arg "BytesRequested" plain (num w16) 2 ∷ []

abbrev get_random_bytes : List ℕ
get_random_bytes = 0x80 ∷ 0x01 ∷ 0 ∷ 0 ∷ 0 ∷ 12 ∷ 0 ∷ 0 ∷ 0x01 ∷ 0x7b ∷ 0 ∷ 2 ∷ []

abbrev ok_header : List ℕ
ok_header = 0x80 ∷ 0x01 ∷ 0 ∷ 0 ∷ 0 ∷ 14 ∷ 0 ∷ 0 ∷ 0 ∷ 0 ∷ []

abbrev random_bytes : List ℕ
random_bytes = 0 ∷ 2 ∷ 7 ∷ 9 ∷ []

abbrev random_slots : List Slot
random_slots = (parm_out "RandomBytes" plain tpm2b_digest, (7 ∷ 9 ∷ [], tt)) ∷ []

requested_bytes : request passwords 0x17b two_bytes [] [] ≡ ([], ok (get_random_bytes, []))
unfolding request init_all cmd_parameters write_parameters encrypt_first authorization_area
    cmd_handles cmd_header marshal marshal_array nullable_form marshal_argument marshal_parameter
    marshal_parameters put_be
requested_bytes = refl

no_auths : cmd_auths (passwords.password_auth) two_bytes ≡ ok []
unfolding cmd_auths
no_auths = refl

written : marshal_slots random_slots ≡ ok random_bytes
unfolding marshal marshal_array nullable_form put_be
written = refl

ok_header-written : marshal tpm_rsp_header (0x8001, (14, (0, tt))) ≡ ok ok_header
unfolding marshal nullable_form put_be
ok_header-written = refl

digest-Valid : Valid tpm2b_digest (7 ∷ 9 ∷ [], tt)
digest-Valid = (
  (tt, tt),
  (refl, inr (inl (refl, inl (refl, refl, omega arith), (omega arith, (omega arith, tt)))), tt),
)

execute-answered_example :
    execute passwords (answering (ok_header ++ random_bytes)) get_random_command two_bytes [] []
    ≡ (get_random_bytes ∷ [], ok (settle_slots [] ++ settle_slots random_slots))
execute-answered_example =
    execute-answered passwords (answering (ok_header ++ random_bytes)) get_random_command two_bytes
      [] random_slots 0x8001 14 ok_header [] random_bytes [] get_random_bytes [] [] []
      (get_random_bytes ∷ []) refl no_auths requested_bytes refl (omega arith) (omega arith)
      ok_header-written tt ((refl, refl, digest-Valid), tt) refl written (omega arith) (omega arith)

abbrev failed_header : List ℕ
failed_header = 0x80 ∷ 0x01 ∷ 0 ∷ 0 ∷ 0 ∷ 10 ∷ 0 ∷ 0 ∷ 9 ∷ 0x22 ∷ []

-- SequenceComplete: the sequence's name is left out.
abbrev sequence_complete : List (Argument (List ℕ))
sequence_complete =
    handle_arg "SequenceHandle" true true (auth_handle 0x80000000 [] (some (1 ∷ [])))
    ∷ parm_arg "Buffer" plain tpm2b_max_buffer (5 ∷ 6 ∷ [], tt)
    ∷ parm_arg "Hierarchy" nullable_tag (num w32) 0
    ∷ []

cmd_names-names_of_example : cmd_names sequence_complete ≡ names_of sequence_complete
cmd_names-names_of_example = cmd_names-names_of sequence_complete refl

cmd_parameters-plain_example :
    cmd_parameters passwords sequence_complete ((1 ∷ []) ∷ []) []
    ≡ ([], marshal_each (parms_of sequence_complete))
cmd_parameters-plain_example =
    cmd_parameters-plain passwords sequence_complete ((1 ∷ []) ∷ []) [] refl (refl, tt)

-- The parameters' bytes: a sized buffer, and a zero hierarchy as TPM_RH_NULL.
parameters : marshal_each (parms_of sequence_complete) ≡ ok (0 ∷ 2 ∷ 5 ∷ 6 ∷ 0x40 ∷ 0 ∷ 0 ∷ 7 ∷ [])
unfolding marshal marshal_array nullable_form marshal_argument put_be
parameters = refl

-- Sessions that decrypt or not, write bytes in the order they are asked to, and fail to clean up.
abbrev flags : Sessions World
flags = record {
  Session = Bool;
  password_auth = false;
  init = λ s. lift (ok tt);
  cleanup_failure = λ s w. ([] ∷ w, err incorrect_hmac);
  new_nonce_caller = λ s. lift (ok tt);
  nonce_tpm = λ w s. none;
  is_encryption = λ w s. false;
  is_decryption = λ w s. s;
  authorize = λ s cc parms add_nonces names auth_index. lift (ok (authorize_pw []));
  validate = λ s rc cc parms names auth_index auth. lift (validate_pw auth);
  encrypt = λ s b w. (b ∷ w, ok b);
  decrypt = λ s b. lift (ok b);
}

abbrev import_bytes : List (Argument Bool)
import_bytes = parm_arg "Buffer" plain tpm2b_max_buffer (5 ∷ 6 ∷ [], tt) ∷ []

encrypted :
    cmd_parameters flags import_bytes (false ∷ true ∷ []) []
    ≡ ((5 ∷ 6 ∷ []) ∷ [], ok (0 ∷ 2 ∷ 5 ∷ 6 ∷ []))
unfolding cmd_parameters write_parameters encrypt_first marshal marshal_array nullable_form
    marshal_argument marshal_parameter marshal_parameters put_be
encrypted = refl

cmd_parameters-one_decryption_example : decryptions flags [] (false ∷ true ∷ []) ≤ 1
cmd_parameters-one_decryption_example =
    cmd_parameters-one_decryption flags import_bytes (false ∷ true ∷ []) [] ((5 ∷ 6 ∷ []) ∷ [])
      (0 ∷ 2 ∷ 5 ∷ 6 ∷ []) 0 (λ s t b w. refl) refl encrypted

-- SequenceComplete with two sessions, of which the second one decrypts.
abbrev complete_flags : List (Argument Bool)
complete_flags =
    handle_arg "SequenceHandle" true true (auth_handle 0x80000000 [] (some false))
    ∷ parm_arg "Buffer" plain tpm2b_max_buffer (5 ∷ 6 ∷ [], tt)
    ∷ parm_arg "Hierarchy" nullable_tag (num w32) 0
    ∷ []

abbrev complete_command : List ℕ
complete_command =
    0x80 ∷ 2 ∷ 0 ∷ 0 ∷ 0 ∷ 44 ∷ 0 ∷ 0 ∷ 1 ∷ 0x3e ∷ 0x80 ∷ 0 ∷ 0 ∷ 0 ∷ 0 ∷ 0 ∷ 0 ∷ 18 ∷ 0x40 ∷ 0 ∷ 0
    ∷ 9 ∷ 0 ∷ 0 ∷ 0 ∷ 0 ∷ 0 ∷ 0x40 ∷ 0 ∷ 0 ∷ 9 ∷ 0 ∷ 0 ∷ 0 ∷ 0 ∷ 0 ∷ 0 ∷ 2 ∷ 5 ∷ 6 ∷ 0x40 ∷ 0 ∷ 0
    ∷ 7 ∷ []

complete_requested :
    request flags 0x13e complete_flags (false ∷ true ∷ []) []
    ≡ ((5 ∷ 6 ∷ []) ∷ [], ok (complete_command, []))
unfolding request init_all cmd_parameters write_parameters encrypt_first authorization_area
    cmd_handles cmd_header marshal marshal_array nullable_form marshal_argument marshal_parameter
    marshal_parameters put_be cmd_sessions extra_nonces authorize_all cmd_names names_from
    authorize_pw marshal_bitwise
complete_requested = refl

request-layout_example :
    (w₁ : World) × (w₂ : World) × (parms : List ℕ) × (area : List ℕ) × (init_all flags
        (false ∷ true ∷ [])
        []
      ≡ (w₁, ok tt))
    × AreParameters flags (parms_of complete_flags) (false ∷ true ∷ []) w₁ parms w₂
    × IsArea flags 0x13e complete_flags parms (false ∷ true ∷ []) w₂ [] area ((5 ∷ 6 ∷ []) ∷ [])
    × Parses
        (has_any (false ∷ true ∷ []))
        0x13e
        (handle_bytes complete_flags ++ (area ++ parms))
        complete_command
request-layout_example =
    request-layout flags 0x13e complete_flags (false ∷ true ∷ []) [] ((5 ∷ 6 ∷ []) ∷ [])
      complete_command [] (omega arith) refl complete_requested

abbrev audited : CommandAudit
audited = record { hash = 11; digest = replicate 32 0 }

no_names : names_of two_bytes ≡ ok []
no_names = refl

asked : marshal_each (parms_of two_bytes) ≡ ok (0 ∷ 2 ∷ [])
unfolding marshal nullable_form marshal_argument put_be
asked = refl

answered : marshal_outs random_slots ≡ ok random_bytes
unfolding marshal_outs marshal marshal_array nullable_form put_be
answered = refl

audit_command-digest_example :
    audit_command toy passwords [] audited 0x17b two_bytes random_slots ≡ (
      record {
        hash = 11;
        digest = toy.sum sha256 (
            replicate 32 0
            ++ (toy.sum sha256 (put_be 4 0x17b ++ (join [] ++ 0 ∷ 2 ∷ []))
                ++ toy.sum sha256 (put_be 4 0 ++ (put_be 4 0x17b ++ random_bytes))));
      },
      ok tt,
    )
audit_command-digest_example =
    audit_command-digest toy passwords [] audited 0x17b two_bytes random_slots sha256 []
      (0 ∷ 2 ∷ []) random_bytes refl refl no_names asked answered
