-- ===== src/Tests/Opened.antt =====
-- Sessions that are started on a TPM which gives always the same answer.
use go_tpm.Tests.Toy.{toy}
use go_tpm.Base.{
  ℕ, suc, ◌≡◌, ◌≢◌, refl, ap, zero, true, false, List, [], ◌∷◌, none, some, replicate, arith,
}
use go_tpm.Base.Outcome.{ok, err}
use go_tpm.Tpm2.Fault.{session_not_initialized}
use go_tpm.Tpm2.Execute.Step.{Step}
use go_tpm.Tpm2.Execute.Run.{execute_with}
use go_tpm.Tpm2.Session.Crypto.{sha256}
use go_tpm.Tpm2.Session.Password.{rh_null}
use go_tpm.Tpm2.Kdf.{kdf, kdf_loop, mask_first}
use go_tpm.Tpm2.Session.Options.{
  set_option, AuthSession, aes_encryption, encrypt_in, new_session, set_options, default_options,
}
use go_tpm.Tpm2.Session.Salt.{Platform}
use go_tpm.Tpm2.Session.Derive.{encrypt, decrypt, cipher_key, derive_key}
use go_tpm.Tpm2.Session.Derive.Mirror.{mirror, decrypt-encrypt}
use go_tpm.Tpm2.Session.Open.{
  with_tpm, call_back, start_auth_session, salt_for, init, open_session, flush, new_nonce_caller,
}
use go_tpm.Tpm2.Session.Open.Starts.{
  renewed, opened, session_key_of, init-opened, init-call_back_failed,
}
use go_tpm.Tpm2.Session.Open.Exchange.{start_command, start_answer}
use go_tpm.Tpm2.Structures.Symmetric.{tpmt_sym_def}
use go_tpm.Tpm2.Session.Objects.{World, auth_sessions, object, at}
use go_tpm.Tpm2.Execute.Unready.{execute_with-init_failed}
use go_tpm.Tpm2.Execute.Run.{
  execute, request, init_all, authorization_area, on_header, read_response,
}
use go_tpm.Tpm2.Command.Arguments.{
  cmd_auths, marshal_parameter, marshal_argument, marshal_parameters, cmd_handles,
}
use go_tpm.Tpm2.Execute.Request.{cmd_parameters, write_parameters, encrypt_first}
use go_tpm.Tpm2.Execute.{cmd_header, rsp_header, rsp_parameters_area, take_area}
use go_tpm.Tpm2.Reflect.Marshal.{marshal, marshal_array, nullable_form, bytes_2b, zero_value}
use go_tpm.Tpm2.Reflect.Selectors.{lookup, selectors}
use go_tpm.Base.Bytes.{put_be, get_be, be_from}
use go_tpm.Tpm2.Execute.Response.{
  rsp_handles, rsp_parameters, decrypt_first, fill, fill_from, fill_parameter, fill_parameters,
}
use go_tpm.Tpm2.Reflect.Unmarshal.{
  unmarshal, unmarshal_array, read_num, read_size, read_sized, read_2b, zero_selectors,
}
use go_tpm.Tpm2.Bitfield.{put_reserved_bit, reserved_bit}
use go_tpm.Tpm2.Reflect.Bitwise.{marshal_bitwise}

-- a cipher that adds one to every byte
abbrev added : List ℕ → List ℕ
added [] = []
added (x ∷ xs) = suc x ∷ added xs

abbrev before : ℕ → ℕ
before zero = 0
before (suc n) = n

abbrev taken_off : List ℕ → List ℕ
taken_off [] = []
taken_off (x ∷ xs) = before x ∷ taken_off xs

taken_off-added : (b : List ℕ) → taken_off (added b) ≡ b
taken_off-added [] = refl
taken_off-added (x ∷ xs) = ap (◌∷◌ x) (taken_off-added xs)

-- a header without sessions, the handle 0x02000000 and the nonce 7 8
abbrev started_bytes : List ℕ
started_bytes = 0x80 ∷ 1 ∷ 0 ∷ 0 ∷ 0 ∷ 18 ∷ 0 ∷ 0 ∷ 0 ∷ 0 ∷ 2 ∷ 0 ∷ 0 ∷ 0 ∷ 0 ∷ 2 ∷ 7 ∷ 8 ∷ []

abbrev flushed_bytes : List ℕ
flushed_bytes = 0x80 ∷ 1 ∷ 0 ∷ 0 ∷ 0 ∷ 10 ∷ 0 ∷ 0 ∷ 0 ∷ 0 ∷ []

-- the state counts the steps
abbrev platform : List ℕ → Platform ℕ
platform answer = record {
  crypto = toy;
  send = λ command t. (suc t, ok answer);
  random = λ n t. (suc t, ok (replicate n 5));
  encrypt_oaep = λ ha n e message label t. (suc t, err session_not_initialized);
  ecdh = λ curve x y t. (suc t, err session_not_initialized);
  cfb_encrypt = λ key iv b. added b;
  cfb_decrypt = λ key iv b. taken_off b;
}

-- a session that is bound to a key with the auth value 1, and one that calls back
abbrev bound_session : AuthSession ℕ
bound_session =
    new_session false 11 2 (record default_options { bind_handle = 0x81000001; bind_auth = 1 ∷ [] })
      none

abbrev fails : ℕ → List ℕ → Step ℕ (Unit {0})
fails h nonce t = (suc t, err session_not_initialized)

abbrev policy_session : AuthSession ℕ
policy_session = new_session true 11 2 default_options (some fails)

-- the null algorithm
no_cipher : marshal tpmt_sym_def bound_session.options.symmetric ≡ ok (0 ∷ 0x10 ∷ [])
unfolding marshal nullable_form put_be lookup selectors
no_cipher = refl

started_bound :
    (platform started_bytes).send (start_command bound_session (5 ∷ 5 ∷ []) [] (0 ∷ 0x10 ∷ [])) 1
    ≡ (2, ok (start_answer 0x8001 18 0x02000000 (7 ∷ 8 ∷ [])))
unfolding put_be
started_bound = refl

-- the session key of the bound session
abbrev bound_key : List ℕ
bound_key =
    1 ∷ 248 ∷ 1 ∷ 249 ∷ 1 ∷ 250 ∷ 1 ∷ 251 ∷ 1 ∷ 252 ∷ 1 ∷ 253 ∷ 1 ∷ 254 ∷ 1 ∷ 255 ∷ 1 ∷ 256 ∷ 1
    ∷ 257 ∷ 1 ∷ 258 ∷ 1 ∷ 259 ∷ 1 ∷ 260 ∷ 1 ∷ 261 ∷ 1 ∷ 262 ∷ 1 ∷ 263 ∷ []

key_bound :
    session_key_of (platform started_bytes) bound_session sha256 [] (7 ∷ 8 ∷ []) (5 ∷ 5 ∷ [])
    ≡ some bound_key
unfolding kdf kdf_loop mask_first put_be
key_bound = refl

salt_bound :
    salt_for
      (platform started_bytes)
      (renewed (platform started_bytes) bound_session (5 ∷ 5 ∷ []))
      1
    ≡ (1, ok ([], []))
unfolding salt_for
salt_bound = refl

init-opened_example :
    init (platform started_bytes) (bound_session, 0)
    ≡ with_tpm (call_back none 0x02000000 (7 ∷ 8 ∷ [])) (
      opened (platform started_bytes) bound_session (5 ∷ 5 ∷ []) 0x02000000 (7 ∷ 8 ∷ []) bound_key,
      2,
    )
init-opened_example =
    init-opened (platform started_bytes) bound_session sha256 0 1 1 2 (5 ∷ 5 ∷ []) [] []
      (0 ∷ 0x10 ∷ []) (7 ∷ 8 ∷ []) bound_key 0x8001 18 0x02000000 refl refl refl salt_bound
      (omega arith, (omega arith, tt)) tt no_cipher started_bound (omega arith) (omega arith)
      (omega arith) (omega arith, (omega arith, tt)) (omega arith) key_bound

not_null : 0x02000000 ≢ rh_null
not_null = omega arith

start_policy :
    start_auth_session
      (platform started_bytes)
      (renewed (platform started_bytes) policy_session (5 ∷ 5 ∷ []))
      []
      1
    ≡ (2, ok (0x02000000, 7 ∷ 8 ∷ []))
unfolding start_auth_session execute execute_with request init_all cmd_auths cmd_parameters
    write_parameters encrypt_first authorization_area marshal_parameter marshal_argument
    marshal_parameters cmd_handles cmd_header marshal marshal_array nullable_form bytes_2b lookup
    selectors put_be get_be be_from on_header read_response rsp_header rsp_parameters_area take_area
    zero_value rsp_handles rsp_parameters decrypt_first fill fill_from fill_parameter
    fill_parameters unmarshal unmarshal_array read_num read_size read_sized read_2b zero_selectors
    put_reserved_bit reserved_bit marshal_bitwise
start_policy = refl

salt_policy :
    salt_for
      (platform started_bytes)
      (renewed (platform started_bytes) policy_session (5 ∷ 5 ∷ []))
      1
    ≡ (1, ok ([], []))
unfolding salt_for
salt_policy = refl

abbrev stuck_session : AuthSession ℕ
stuck_session =
    opened (platform started_bytes) policy_session (5 ∷ 5 ∷ []) 0x02000000 (7 ∷ 8 ∷ []) []

init-call_back_failed_example :
    (init (platform started_bytes) (policy_session, 0)
      ≡ ((stuck_session, 3), err session_not_initialized))
    × (init (platform started_bytes) (stuck_session, 3) ≡ ((stuck_session, 3), ok tt))
init-call_back_failed_example =
    init-call_back_failed (platform started_bytes) policy_session sha256 0 1 1 2 3 (5 ∷ 5 ∷ []) []
      [] (7 ∷ 8 ∷ []) [] 0x02000000 fails session_not_initialized refl refl refl salt_policy
      start_policy refl refl refl not_null

flushed : flush (platform flushed_bytes) 0x02000000 5 ≡ (6, ok tt)
unfolding start_auth_session execute execute_with request init_all cmd_auths cmd_parameters
    write_parameters encrypt_first authorization_area marshal_parameter marshal_argument
    marshal_parameters cmd_handles cmd_header marshal marshal_array nullable_form bytes_2b lookup
    selectors put_be get_be be_from on_header read_response rsp_header rsp_parameters_area take_area
    zero_value rsp_handles rsp_parameters decrypt_first fill fill_from fill_parameter
    fill_parameters unmarshal unmarshal_array read_num read_size read_sized read_2b zero_selectors
    put_reserved_bit reserved_bit marshal_bitwise flush
flushed = refl

-- AES with 128 bits, for what the command carries
abbrev ciphering : AuthSession ℕ
unfolding set_options set_option
ciphering = record (bound_session) {
  options = set_options (aes_encryption 128 encrypt_in ∷ []) default_options;
  nonce_caller = 5 ∷ [];
  nonce_tpm = 6 ∷ [];
}

encrypted : encrypt (platform []) ciphering (1 ∷ 2 ∷ []) ≡ ok (2 ∷ 3 ∷ [])
unfolding encrypt cipher_key kdf kdf_loop mask_first put_be set_options set_option
encrypted = refl

decrypt-encrypt_example : decrypt (platform []) (mirror ciphering) (2 ∷ 3 ∷ []) ≡ ok (1 ∷ 2 ∷ [])
decrypt-encrypt_example =
    decrypt-encrypt (platform []) (λ key iv b. taken_off-added b) ciphering (1 ∷ 2 ∷ [])
      (2 ∷ 3 ∷ []) encrypted

-- a session that is ready, and one whose policy fails
init_policy :
    init (platform started_bytes) (policy_session, 1)
    ≡ ((stuck_session, 4), err session_not_initialized)
unfolding init open_session derive_key salt_for start_auth_session execute execute_with request
    init_all cmd_auths cmd_parameters write_parameters encrypt_first authorization_area
    marshal_parameter marshal_argument marshal_parameters cmd_handles cmd_header marshal
    marshal_array nullable_form bytes_2b lookup selectors put_be get_be be_from on_header
    read_response rsp_header rsp_parameters_area take_area zero_value rsp_handles rsp_parameters
    decrypt_first fill fill_from fill_parameter fill_parameters unmarshal unmarshal_array read_num
    read_size read_sized read_2b zero_selectors put_reserved_bit reserved_bit marshal_bitwise
init_policy = refl

abbrev world_with : ℕ → AuthSession ℕ → World ℕ
world_with t s = record {
  tpm = t;
  objects = record (bound_session) { handle = 0x02000000 } ∷ s ∷ [];
}

first_ready :
    init_all (auth_sessions (platform started_bytes)) (object 0 ∷ []) (world_with 0 policy_session)
    ≡ (world_with 1 policy_session, ok tt)
unfolding init_all at init new_nonce_caller
first_ready = refl

second_fails :
    at 1 (init (platform started_bytes)) (world_with 1 policy_session)
    ≡ (world_with 4 stuck_session, err session_not_initialized)
unfolding at
second_fails = rw init_policy

execute_with-init_failed_example :
    execute_with
      (auth_sessions (platform started_bytes))
      (λ command w. (w, ok []))
      0x144
      []
      []
      (object 0 ∷ object 1 ∷ [])
      (world_with 0 policy_session)
    ≡ (world_with 4 stuck_session, err session_not_initialized)
execute_with-init_failed_example =
    execute_with-init_failed (auth_sessions (platform started_bytes)) (λ command w. (w, ok []))
      0x144 [] [] (object 0 ∷ []) [] (object 1) (world_with 0 policy_session)
      (world_with 1 policy_session) (world_with 4 stuck_session) session_not_initialized refl
      first_ready second_fails
