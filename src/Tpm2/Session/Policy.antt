-- ===== src/Tpm2/Session/Policy.antt =====
-- policySession of tpm2/sessions.go: Authorize and Validate.
pub mod Laws
use go_tpm.Base.{ℕ, Bool, true, false, not, List, [], ◌∷◌, ◌++◌, ◌==◌, if◌then◌else◌, length}
use go_tpm.Base.Outcome.{ok, err, ◌>>=◌}
use go_tpm.Tpm2.Fault.{Res, session_not_initialized, unexpected_nonce, unexpected_hmac}
use go_tpm.Tpm2.Session.Crypto.{Crypto}
use go_tpm.Tpm2.Session.Key.{hmac_key_from_auth_value}
use go_tpm.Tpm2.Session.Hashes.{cp_hash, compute_hmac}
use go_tpm.Tpm2.Session.Password.{AuthCommand, AuthResponse, rh_null}
use go_tpm.Tpm2.Session.Hmac.{Session, track, check_response}

-- The key of a policy session does not depend on what it authorizes.
abbrev pub policy_key : Session → Res (List ℕ)
policy_key s = do key ← hmac_key_from_auth_value s.auth; ok (s.session_key ++ key)

module _ (crypto : Crypto) where
  unfoldable pub policy_hmac : Session → ℕ → List ℕ → List ℕ → List (List ℕ) → Res (List ℕ)
  policy_hmac s cc parms add_nonces names = if s.password then ok s.auth else (do
    key ← policy_key s
    cph ← cp_hash crypto s.hash cc names parms
    compute_hmac crypto s.hash key cph s.nonce_caller s.nonce_tpm add_nonces s.attrs)

  unfoldable pub authorize_policy : Session → ℕ → List ℕ → List ℕ → List (List ℕ) → Res AuthCommand
  authorize_policy s cc parms add_nonces names =
      if s.handle == rh_null then err session_not_initialized else (do
        hmac ← policy_hmac s cc parms add_nonces names
        ok (record {
          handle = s.handle;
          nonce = s.nonce_caller;
          attributes = s.attrs;
          authorization = hmac;
        }))

  unfoldable pub validate_policy :
      Session → ℕ → ℕ → List ℕ → AuthResponse → Session × Res (Unit {0})
  validate_policy s rc cc parms auth =
      let s' = track s auth in
      (
        s',
        if s.password
            then (if not (length auth.nonce == 0)
                then err unexpected_nonce
                else if not (length auth.authorization == 0)
                then err unexpected_hmac
                else ok tt)
            else check_response crypto s' (policy_key s') rc cc parms auth,
      )
