-- ===== src/Tpm2/Session/Policy/Laws.antt =====
-- policySession against hmacSession.
use go_tpm.Base.{ℕ, ◌≡◌, ap, false, List, [], ◌==◌, if◌then◌else◌}
use go_tpm.Base.Outcome.{err, >>=_assoc}
use go_tpm.Tpm2.Fault.{Res, session_not_initialized}
use go_tpm.Tpm2.Session.Crypto.{Crypto}
use go_tpm.Tpm2.Session.Hashes.{cp_hash}
use go_tpm.Tpm2.Session.Password.{AuthCommand, AuthResponse, rh_null}
use go_tpm.Tpm2.Session.Hmac.{Session, hmac_key, track, authorize, check_response, validate}
use go_tpm.Tpm2.Session.Policy.{policy_key, policy_hmac, authorize_policy, validate_policy}

hmac_key-unbound :
    (s : Session) (names : List (List ℕ)) (i : ℕ)
    → s.bind_name ≡ []
    → hmac_key s names i ≡ policy_key s
unfolding hmac_key
hmac_key-unbound s names i e = simp e

module _ (crypto : Crypto) where
  -- A policy session that sends no password authorizes a command just as an HMAC session does
  -- that is in the same state and is bound to no object.
  pub authorize_policy-authorize :
      (s : Session) (code : ℕ) (parms add_nonces : List ℕ) (names : List (List ℕ)) (i : ℕ)
      → s.password ≡ false
      → s.bind_name ≡ []
      → authorize_policy crypto s code parms add_nonces names
        ≡ authorize crypto s code parms add_nonces names i
  unfolding authorize authorize_policy policy_hmac
  authorize_policy-authorize s code parms add_nonces names i p e =
      let k = hmac_key-unbound s names i e in
      let chain = >>=_assoc (policy_key s) (cp_hash crypto s.hash code names parms) in
      simp (p, k)
        (ap
          (λ (r : Res AuthCommand). if s.handle == rh_null then err session_not_initialized else r)
          (chain _ _))

  -- A policy session that sends no password judges every response as an HMAC session does that is
  -- in the same state and is bound to no object, and both are in the same state after it.
  pub validate_policy-validate :
      (s : Session) (rc code : ℕ) (parms : List ℕ) (names : List (List ℕ)) (i : ℕ)
      (auth : AuthResponse)
      → s.password ≡ false
      → s.bind_name ≡ []
      → validate_policy crypto s rc code parms auth ≡ validate crypto s rc code parms names i auth
  unfolding validate validate_policy track check_response hmac_key
  validate_policy-validate s rc code parms names i auth p e =
      let k = hmac_key-unbound (track s auth) names i e in simp (p, k)
