-- ===== src/Tests/Session.antt =====
-- tpm2/sessions.go with a small checksum in place of the cryptography.
use go_tpm.Tests.Toy.{toy}
use go_tpm.Base.{◌≡◌, ◌≢◌, ◌⊎◌, refl, true, false, [], ◌∷◌, arith}
use go_tpm.Base.Outcome.{ok, err}
use go_tpm.Tpm2.Fault.{session_not_initialized, incorrect_hmac}
use go_tpm.Tpm2.Session.Crypto.{sha256}
use go_tpm.Tpm2.Session.Attributes.{no_attributes}
use go_tpm.Tpm2.Session.Password.{AuthResponse, rh_null}
use go_tpm.Tpm2.Session.Hmac.{Session, authorize, validate}
use go_tpm.Tpm2.Session.Hmac.Protocol.{
  session_mac_key, authorized, response_mac, authorize-command_mac,
}
use go_tpm.Tpm2.Session.Hmac.Responses.{
  with_nonce, validate-response_mac, authorize-validate_ended, authorize-validate_continued,
}
use go_tpm.Tpm2.Session.Policy.{authorize_policy}
use go_tpm.Tpm2.Session.Policy.Laws.{authorize_policy-authorize}

-- a session with the SHA256 hash and an auth value that ends in zero bytes
abbrev open_session : Session
open_session = record {
  auth = 5 ∷ 6 ∷ 0 ∷ 0 ∷ [];
  password = false;
  bind_name = [];
  attrs = no_attributes;
  hash = 11;
  handle = 0x02000000;
  session_key = 1 ∷ 2 ∷ [];
  nonce_caller = 3 ∷ [];
  nonce_tpm = 4 ∷ [];
}

abbrev continued : AuthResponse
continued = record {
  nonce = 9 ∷ [];
  attributes = record {
    continue_session = true;
    audit_exclusive = false;
    audit_reset = false;
    decrypt = false;
    encrypt = false;
    audit = false;
    reserved = 0;
  };
  authorization = 7 ∷ [];
}

abbrev ended : AuthResponse
ended = record { nonce = 9 ∷ []; attributes = no_attributes; authorization = 7 ∷ [] }

not_null : 0x02000000 ≢ rh_null
not_null = omega arith

authorize-command_mac_example :
    authorize toy open_session 0x131 (8 ∷ []) [] ((1 ∷ []) ∷ []) 0
    ≡ ok (authorized toy sha256 open_session 0x131 (8 ∷ []) [] ((1 ∷ []) ∷ []) 0)
authorize-command_mac_example =
    authorize-command_mac toy open_session 0x131 (8 ∷ []) [] ((1 ∷ []) ∷ []) 0 refl

validate-response_mac_example :
    ((continued.authorization
        ≡ response_mac toy sha256 open_session
            (session_mac_key open_session [] 0)
            0
            0x131
            []
            continued)
      × ((validate toy open_session 0 0x131 [] [] 0 continued).1 ≡ ok tt))
    ⊎ ((continued.authorization
          ≢ response_mac toy sha256 open_session
              (session_mac_key open_session [] 0)
              0
              0x131
              []
              continued)
        × ((validate toy open_session 0 0x131 [] [] 0 continued).1 ≡ err incorrect_hmac))
validate-response_mac_example =
    validate-response_mac toy open_session sha256 0 0x131 [] [] 0 continued refl refl

authorize-validate_ended_example :
    authorize toy (validate toy open_session 0 0x131 [] [] 0 ended).0 0x132 [] [] [] 0
    ≡ err session_not_initialized
authorize-validate_ended_example =
    authorize-validate_ended toy open_session 0 0x131 [] [] 0 ended 0x132 [] [] [] 0 refl

authorize-validate_continued_example :
    authorize toy (validate toy open_session 0 0x131 [] [] 0 continued).0 0x132 [] [] [] 0
    ≡ ok (authorized toy sha256 (with_nonce open_session (9 ∷ [])) 0x132 [] [] [] 0)
authorize-validate_continued_example =
    authorize-validate_continued toy open_session sha256 0 0x131 [] [] 0 continued 0x132 [] [] [] 0
      refl refl not_null refl

authorize_policy-authorize_example :
    authorize_policy toy open_session 0x131 [] [] [] ≡ authorize toy open_session 0x131 [] [] [] 0
authorize_policy-authorize_example =
    authorize_policy-authorize toy open_session 0x131 [] [] [] 0 refl refl

-- a response to a password session with a reserved bit
abbrev reserved_response : AuthResponse
reserved_response = record {
  nonce = [];
  attributes = record {
    continue_session = true;
    audit_exclusive = false;
    audit_reset = false;
    decrypt = false;
    encrypt = false;
    audit = false;
    reserved = 8;
  };
  authorization = [];
}
