-- ===== src/Tpm2/Session/Hmac.antt =====
-- hmacSession of tpm2/sessions.go: Authorize and Validate.
use go_tpm.Base.{
  ℕ, Bool, true, false, not, ◌||◌, List, [], ◌∷◌, ◌++◌, Option, none, some, ◌==◌, leb,
  if◌then◌else◌, length, get_elem?,
}
use go_tpm.Base.Outcome.{Result, ok, err, panic, ◌>>=◌}
use go_tpm.Tpm2.Fault.{Res, session_not_initialized, incorrect_hmac}
use go_tpm.Tpm2.Session.Crypto.{Crypto}
use go_tpm.Tpm2.Session.Attributes.{Attributes}
use go_tpm.Tpm2.Session.Key.{hmac_key_from_auth_value}
use go_tpm.Tpm2.Session.Hashes.{cp_hash, rp_hash, compute_hmac}
use go_tpm.Tpm2.Session.Password.{AuthCommand, AuthResponse, rh_null}
pub mod Protocol
pub mod Responses

-- hmacSession and policySession, with what Authorize and Validate use of sessionOptions.
pub record Session : Type 0 where
  pub auth : List ℕ
  pub password : Bool
  pub bind_name : List ℕ
  pub attrs : Attributes
  pub hash : ℕ
  pub handle : ℕ
  pub session_key : List ℕ
  pub nonce_caller : List ℕ
  pub nonce_tpm : List ℕ

-- `bytes.Equal` and `hmac.Equal`
abbrev pub same_bytes : List ℕ → List ℕ → Bool
same_bytes [] [] = true
same_bytes [] (y ∷ ys) = false
same_bytes (x ∷ xs) [] = false
same_bytes (x ∷ xs) (y ∷ ys) = if x == y then same_bytes xs ys else false

-- Whether the session authorizes its bind target. `names[authIndex]` is in range where it is used.
abbrev pub is_bind_target : Session → List (List ℕ) → ℕ → Bool
is_bind_target s names auth_index =
    if length s.bind_name == 0 then false else elim (get_elem? names auth_index) [
      | none ↦ false
      | some name ↦ same_bytes name s.bind_name
    ]

unfoldable pub hmac_key : Session → List (List ℕ) → ℕ → Res (List ℕ)
hmac_key s names auth_index =
    if is_bind_target s names auth_index
    then ok s.session_key
    else (do key ← hmac_key_from_auth_value s.auth; ok (s.session_key ++ key))

-- The new nonceTPM, and the end of a session that the TPM does not continue.
unfoldable pub track : Session → AuthResponse → Session
track s auth = record {
  auth = s.auth;
  password = s.password;
  bind_name = s.bind_name;
  attrs = s.attrs;
  hash = s.hash;
  handle = if auth.attributes.continue_session then s.handle else rh_null;
  session_key = s.session_key;
  nonce_caller = s.nonce_caller;
  nonce_tpm = auth.nonce;
}

module _ (crypto : Crypto) where
  unfoldable pub authorize : Session → ℕ → List ℕ → List ℕ → List (List ℕ) → ℕ → Res AuthCommand
  authorize s cc parms add_nonces names auth_index =
      if s.handle == rh_null then err session_not_initialized else (do
        key ← hmac_key s names auth_index
        cph ← cp_hash crypto s.hash cc names parms
        hmac ← compute_hmac crypto s.hash key cph s.nonce_caller s.nonce_tpm add_nonces s.attrs
        ok (record {
          handle = s.handle;
          nonce = s.nonce_caller;
          attributes = s.attrs;
          authorization = hmac;
        }))

  -- The checks of `Validate`, on the session that has tracked the response.
  unfoldable pub check_response :
      Session → Res (List ℕ) → ℕ → ℕ → List ℕ → AuthResponse → Res (Unit {0})
  check_response s hmac_key rc cc parms auth = do
    key ← hmac_key
    rph ← rp_hash crypto s.hash rc cc parms
    mac ← compute_hmac crypto s.hash key rph s.nonce_tpm s.nonce_caller [] auth.attributes
    if same_bytes mac auth.authorization then ok tt else err incorrect_hmac

  unfoldable pub validate :
      Session → ℕ → ℕ → List ℕ → List (List ℕ) → ℕ → AuthResponse → Session × Res (Unit {0})
  validate s rc cc parms names auth_index auth =
      let s' = track s auth in
      (s', check_response s' (hmac_key s' names auth_index) rc cc parms auth)
