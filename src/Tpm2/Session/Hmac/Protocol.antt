-- ===== src/Tpm2/Session/Hmac/Protocol.antt =====
-- hmacSession and policySession against Part 1, 19.6 of the TPM's specification.
use go_tpm.Base.{
  ℕ, ◌≡◌, ◌≢◌, refl, ap, sym, ◌∙◌, ◌↔◌, true, List, [], ◌∷◌, ◌++◌, if◌then◌else◌, arith, ◌==◌,
  ==_refl, ==_ne, Bool-cases, inl, inr,
}
use go_tpm.Base.Bytes.{put_be}
use go_tpm.Base.Outcome.{ok, err, panic, ◌>>=◌}
use go_tpm.Tpm2.Fault.{Res, session_not_initialized, incorrect_hmac}
use go_tpm.Tpm2.Session.Crypto.{Crypto, Hash, hash_of}
use go_tpm.Tpm2.Session.Attributes.{attrs_to_bytes}
use go_tpm.Tpm2.Session.Key.Trim.{
  trim_zeros, zeros_trail, before_zero-trim_zeros, hmac_key_from_auth_value-before_zero,
}
use go_tpm.Tpm2.Session.Hashes.{cp_hash, rp_hash, compute_hmac, join}
use go_tpm.Tpm2.Session.Password.{AuthCommand, AuthResponse, rh_null}
use go_tpm.Tpm2.Session.Hmac.{
  Session, same_bytes, is_bind_target, hmac_key, track, authorize, check_response,
}

pub same_bytes_iff : (xs ys : List ℕ) → (same_bytes xs ys ≡ true) ↔ (xs ≡ ys)
same_bytes_iff xs ys = (same→eq xs ys, λ e. ap (same_bytes xs) (sym e) ∙ same_refl xs)
  where
    same_refl : (xs : List ℕ) → same_bytes xs xs ≡ true
    same_refl [] = refl
    same_refl (x ∷ xs) = rw (==_refl x) (same_refl xs)

    same→eq : (xs ys : List ℕ) → same_bytes xs ys ≡ true → xs ≡ ys
    same→eq [] [] h = refl
    same→eq [] (y ∷ ys) h = cc
    same→eq (x ∷ xs) [] h = cc
    same→eq (x ∷ xs) (y ∷ ys) h = ground (arith, same→eq xs ys)

-- The key of the specification: the session key, and behind it the auth value without the zero
-- bytes at its end, unless the session authorizes the object that it is bound to.
abbrev pub session_mac_key : Session → List (List ℕ) → ℕ → List ℕ
session_mac_key s names auth_index =
    if is_bind_target s names auth_index then s.session_key else s.session_key ++ trim_zeros s.auth

pub hmac_key-session_mac_key :
    (s : Session) (names : List (List ℕ)) (i : ℕ)
    → zeros_trail s.auth ≡ true
    → hmac_key s names i ≡ ok (session_mac_key s names i)
unfolding hmac_key
hmac_key-session_mac_key s names i z = elim (Bool-cases (is_bind_target s names i)) [
  | inl b ↦ rw b
  | inr n ↦ rw (n, hmac_key_from_auth_value-before_zero s.auth, before_zero-trim_zeros s.auth z)
]

module _ (crypto : Crypto) where
  -- The command's HMAC: over the hash of command code, names and parameters, the caller's nonce,
  -- the TPM's nonce, the nonces of the other sessions, and the attributes.
  abbrev pub command_mac : Hash → Session → List ℕ → ℕ → List ℕ → List ℕ → List (List ℕ) → List ℕ
  command_mac ha s key cc parms add_nonces names = crypto.mac ha key (
      crypto.sum ha (put_be 4 cc ++ (join names ++ parms))
      ++ (s.nonce_caller ++ (s.nonce_tpm ++ (add_nonces ++ attrs_to_bytes s.attrs))))

  -- The response's HMAC: over the hash of response code, command code and parameters, the TPM's
  -- new nonce, the caller's nonce, and the response's attributes.
  abbrev pub response_mac : Hash → Session → List ℕ → ℕ → ℕ → List ℕ → AuthResponse → List ℕ
  response_mac ha s key rc cc parms auth = crypto.mac ha key (
      crypto.sum ha (put_be 4 rc ++ (put_be 4 cc ++ parms))
      ++ (auth.nonce ++ (s.nonce_caller ++ attrs_to_bytes auth.attributes)))

  -- What a session authorizes with by the specification.
  abbrev pub authorized : Hash → Session → ℕ → List ℕ → List ℕ → List (List ℕ) → ℕ → AuthCommand
  authorized ha s cc parms add_nonces names i = record {
    handle = s.handle;
    nonce = s.nonce_caller;
    attributes = s.attrs;
    authorization = command_mac ha s (session_mac_key s names i) cc parms add_nonces names;
  }

  pub authorize-authorized :
      (s : Session) (ha : Hash) (cc : ℕ) (parms add_nonces : List ℕ) (names : List (List ℕ)) (i : ℕ)
      → zeros_trail s.auth ≡ true
      → s.handle ≢ rh_null
      → hash_of s.hash ≡ ok ha
      → authorize crypto s cc parms add_nonces names i
        ≡ ok (authorized ha s cc parms add_nonces names i)
  unfolding authorize cp_hash compute_hmac
  authorize-authorized s ha cc parms add_nonces names i z h k =
      rw (==_ne s.handle rh_null h, hmac_key-session_mac_key s names i z, k)

  -- A session whose auth value has zero bytes only at its end is not initialized where its handle is
  -- TPM_RH_NULL; otherwise it authorizes a command with no other error than that of a hash that is
  -- not supported, and with its handle, its nonce, its attributes, and the specification's HMAC,
  -- whose key is the session key and, unless the session authorizes the object that it is bound to,
  -- the auth value without them.
  pub authorize-command_mac :
      (s : Session) (cc : ℕ) (parms add_nonces : List ℕ) (names : List (List ℕ)) (i : ℕ)
      → zeros_trail s.auth ≡ true
      → authorize crypto s cc parms add_nonces names i ≡ (
          if s.handle == rh_null
          then err session_not_initialized
          else (do ha ← hash_of s.hash; ok (authorized ha s cc parms add_nonces names i)))
  unfolding authorize cp_hash compute_hmac
  authorize-command_mac s cc parms add_nonces names i z = with_hash (hash_of s.hash) refl
    where
      with_hash :
          (m : Res Hash)
          → hash_of s.hash ≡ m
          → authorize crypto s cc parms add_nonces names i ≡ (
              if s.handle == rh_null
              then err session_not_initialized
              else (do ha ← hash_of s.hash; ok (authorized ha s cc parms add_nonces names i)))
      with_hash (ok ha) k = rw (hmac_key-session_mac_key s names i z, k)
      with_hash (err e) k = rw (hmac_key-session_mac_key s names i z, k)
      with_hash panic k = rw (hmac_key-session_mac_key s names i z, k)

  pub check_response-mac :
      (s : Session) (ha : Hash) (key : List ℕ) (rc cc : ℕ) (parms : List ℕ) (auth : AuthResponse)
      → hash_of s.hash ≡ ok ha
      → check_response crypto (track s auth) (ok key) rc cc parms auth ≡ (
          if same_bytes (response_mac ha s key rc cc parms auth) auth.authorization
          then ok tt
          else err incorrect_hmac)
  unfolding check_response rp_hash compute_hmac track
  check_response-mac s ha key rc cc parms auth k = rw k
