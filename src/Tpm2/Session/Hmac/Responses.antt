-- ===== src/Tpm2/Session/Hmac/Responses.antt =====
-- hmacSession.Validate: which responses are accepted, and how the session goes on.
use go_tpm.Base.{
  not_both, ℕ, ◌≡◌, ◌≢◌, ap, ◌∙◌, sym, ◌⊎◌, true, false, List, ◌∷◌, ◌++◌, Bool-cases, inl, inr,
}
use go_tpm.Base.Outcome.{ok, err}
use go_tpm.Tpm2.Fault.{session_not_initialized, incorrect_hmac}
use go_tpm.Tpm2.Session.Crypto.{Crypto, Hash, hash_of}
use go_tpm.Tpm2.Session.Key.Trim.{has_zero, zeros_trail, hmac_key_from_auth_value-cut}
use go_tpm.Tpm2.Session.Password.{AuthResponse, rh_null}
use go_tpm.Tpm2.Session.Hmac.{
  Session, same_bytes, hmac_key, track, authorize, check_response, validate,
}
use go_tpm.Tpm2.Session.Hmac.Protocol.{
  same_bytes_iff, session_mac_key, hmac_key-session_mac_key, response_mac, check_response-mac,
  authorized, authorize-authorized,
}

-- The session with another auth value, and with another nonce of the TPM.
abbrev pub with_auth : Session → List ℕ → Session
with_auth s a = record {
  auth = a;
  password = s.password;
  bind_name = s.bind_name;
  attrs = s.attrs;
  hash = s.hash;
  handle = s.handle;
  session_key = s.session_key;
  nonce_caller = s.nonce_caller;
  nonce_tpm = s.nonce_tpm;
}

abbrev pub with_nonce : Session → List ℕ → Session
with_nonce s n = record {
  auth = s.auth;
  password = s.password;
  bind_name = s.bind_name;
  attrs = s.attrs;
  hash = s.hash;
  handle = s.handle;
  session_key = s.session_key;
  nonce_caller = s.nonce_caller;
  nonce_tpm = n;
}

track-continued :
    (s : Session) (auth : AuthResponse)
    → auth.attributes.continue_session ≡ true
    → track s auth ≡ with_nonce s auth.nonce
unfolding track
track-continued s auth e = simp e

module _ (crypto : Crypto) where
  -- With a supported hash and an auth value that has zero bytes only at its end, a response is
  -- accepted if its authorization is the specification's HMAC, over the new nonce of the TPM and the
  -- session's own; its key is the session key and, unless the session authorizes the object that it
  -- is bound to, the auth value without its zero bytes. Any other response is an incorrect HMAC.
  pub validate-response_mac :
      (s : Session) (ha : Hash) (rc cc : ℕ) (parms : List ℕ) (names : List (List ℕ)) (i : ℕ)
      (auth : AuthResponse)
      → zeros_trail s.auth ≡ true
      → hash_of s.hash ≡ ok ha
      → ((auth.authorization
            ≡ response_mac crypto ha s (session_mac_key s names i) rc cc parms auth)
          × ((validate crypto s rc cc parms names i auth).1 ≡ ok tt))
        ⊎ ((auth.authorization
              ≢ response_mac crypto ha s (session_mac_key s names i) rc cc parms auth)
            × ((validate crypto s rc cc parms names i auth).1 ≡ err incorrect_hmac))
  unfolding validate track
  validate-response_mac s ha rc cc parms names i auth z k =
      let key = session_mac_key s names i in
      let mac = response_mac crypto ha s key rc cc parms auth in
      let r =
        ap (λ m. check_response crypto (track s auth) m rc cc parms auth)
          (hmac_key-session_mac_key (track s auth) names i z)
        ∙ check_response-mac crypto s ha key rc cc parms auth k in
      let same = same_bytes_iff mac auth.authorization in
      elim (Bool-cases (same_bytes mac auth.authorization)) [
        | inl t ↦ inl (sym (same.0 t), r ∙ rw t)
        | inr f ↦ inr (λ e. not_both (same.1 (sym e)) f, r ∙ rw f)
      ]

  -- A session that the TPM does not continue authorizes nothing until it is started again,
  -- whether or not the response was accepted.
  pub authorize-validate_ended :
      (s : Session) (rc cc : ℕ) (parms : List ℕ) (names : List (List ℕ)) (i : ℕ)
      (auth : AuthResponse) (cc' : ℕ) (parms' add_nonces : List ℕ) (names' : List (List ℕ)) (j : ℕ)
      → auth.attributes.continue_session ≡ false
      → authorize crypto
          (validate crypto s rc cc parms names i auth).0
          cc'
          parms'
          add_nonces
          names'
          j
        ≡ err session_not_initialized
  unfolding authorize validate track
  authorize-validate_ended s rc cc parms names i auth cc' parms' add_nonces names' j e = simp e

  -- A started session with a supported hash and an auth value that has zero bytes only at its end,
  -- which the TPM continues, authorizes its next command with its own handle, nonce and attributes,
  -- and with the specification's HMAC, in which the nonce of the TPM is the one of the response. The
  -- HMAC's key is the session key and, unless the session authorizes the object that it is bound to,
  -- the auth value without its zero bytes.
  pub authorize-validate_continued :
      (s : Session) (ha : Hash) (rc cc : ℕ) (parms : List ℕ) (names : List (List ℕ)) (i : ℕ)
      (auth : AuthResponse) (cc' : ℕ) (parms' add_nonces : List ℕ) (names' : List (List ℕ)) (j : ℕ)
      → zeros_trail s.auth ≡ true
      → auth.attributes.continue_session ≡ true
      → s.handle ≢ rh_null
      → hash_of s.hash ≡ ok ha
      → authorize crypto
          (validate crypto s rc cc parms names i auth).0
          cc'
          parms'
          add_nonces
          names'
          j
        ≡ ok (authorized crypto ha (with_nonce s auth.nonce) cc' parms' add_nonces names' j)
  unfolding validate track
  authorize-validate_continued s ha rc cc parms names i auth cc' parms' add_nonces names' j z e h
        k =
      ap (λ t. authorize crypto t cc' parms' add_nonces names' j) (track-continued s auth e)
      ∙ authorize-authorized crypto (with_nonce s auth.nonce) ha cc' parms' add_nonces names' j z h
          k

  -- An auth value without zero bytes authorizes every command just as it does with a zero byte and
  -- any bytes behind it.
  pub authorize-auth_cut :
      (s : Session) (xs ys : List ℕ) (cc : ℕ) (parms add_nonces : List ℕ) (names : List (List ℕ))
      (i : ℕ)
      → has_zero xs ≡ false
      → authorize crypto (with_auth s (xs ++ (0 ∷ ys))) cc parms add_nonces names i
        ≡ authorize crypto (with_auth s xs) cc parms add_nonces names i
  unfolding authorize hmac_key
  authorize-auth_cut s xs ys cc parms add_nonces names i h =
      rw (hmac_key_from_auth_value-cut xs ys h)
