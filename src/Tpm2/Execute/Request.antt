-- ===== src/Tpm2/Execute/Request.antt =====
-- tpm2/reflect.go: cmdParameters and cmdSessions, over sessions of any implementation.
pub mod Parameters
pub mod Areas
pub mod Authorizations
use go_tpm.Base.{
  ℕ, zero, suc, Bool, true, false, List, [], ◌∷◌, ◌++◌, Option, none, some, ◌==◌, ltb,
  if◌then◌else◌, length, take, drop,
}
use go_tpm.Base.Bytes.{put_be}
use go_tpm.Base.Outcome.{ok, err}
use go_tpm.Tpm2.Fault.{Res, not_2b, too_many_decrypt, too_many_encrypt}
use go_tpm.Tpm2.Reflect.Marshal.{marshal}
use go_tpm.Tpm2.Structures.Auth.{tpms_auth_command}
use go_tpm.Tpm2.Command.Arguments.{Argument, parameter_count, marshal_parameter, marshal_parameters}
use go_tpm.Tpm2.Execute.Step.{Step, lift, continue, ◌>>=◌}
use go_tpm.Tpm2.Execute.Sessions.{Sessions, auth_value}

-- What `append` adds of a slice that may be nil.
abbrev pub bytes_of : Option (List ℕ) → List ℕ
bytes_of none = []
bytes_of (some b) = b

module _ {W : Type 0} (ops : Sessions W) where
  open ops use {Session}

  -- `s.Encrypt(firstParmBytes[2:])`
  abbrev pub encrypt_payload : Session → List ℕ → Step W (List ℕ)
  encrypt_payload s b = do q ← ops.encrypt s (drop 2 b); lift (ok (take 2 b ++ q))

  -- The loop of `cmdParameters` over the sessions; `b` is the first parameter.
  unfoldable pub encrypt_first : List Session → Bool → List ℕ → Step W (List ℕ)
  encrypt_first [] encrypted b w = (w, ok b)
  encrypt_first (s ∷ ss) encrypted b w =
      let skipped = encrypt_first ss encrypted b w in
      let chosen = (encrypt_payload s b >>= λ q. encrypt_first ss true q) w in
      if ops.is_decryption w s
      then (if encrypted
          then (w, err too_many_decrypt)
          else if ltb (length b) 2
          then (w, err not_2b)
          else chosen)
      else skipped

  -- `cmdParameters` on a struct with so many parameters.
  unfoldable pub write_parameters : List (Argument Session) → List Session → ℕ → Step W (List ℕ)
  write_parameters args sess zero = lift (ok [])
  write_parameters args sess (suc n) = do
    b ← lift (marshal_parameter args 0)
    first ← encrypt_first sess false b
    rest ← lift (marshal_parameters args 1 n)
    lift (ok (first ++ rest))

  -- `cmdParameters`
  unfoldable pub cmd_parameters : List (Argument Session) → List Session → Step W (List ℕ)
  cmd_parameters args sess = write_parameters args sess (parameter_count args)

  -- The nonceTPMs of the encryption and of the decryption session among all but the first.
  unfoldable pub extra_nonces :
      W → List Session → Option (List ℕ) → Option (List ℕ) → Res (Option (List ℕ) × Option (List ℕ))
  extra_nonces w [] enc dec = ok (enc, dec)
  extra_nonces w (s ∷ ss) enc dec =
      let as_encryption = extra_nonces w ss (ops.nonce_tpm w s) dec in
      let as_decryption = extra_nonces w ss enc (ops.nonce_tpm w s) in
      let skipped = extra_nonces w ss enc dec in
      if ops.is_encryption w s
      then elim enc [ some n ↦ err too_many_encrypt | none ↦ as_encryption ]
      else if ops.is_decryption w s
      then elim dec [ some n ↦ err too_many_decrypt | none ↦ as_decryption ]
      else skipped

  -- The nonces that the first session's HMAC includes, and no other's.
  abbrev pub nonces_for : ℕ → Option (List ℕ) × Option (List ℕ) → List ℕ
  nonces_for zero (enc, dec) = bytes_of dec ++ bytes_of enc
  nonces_for (suc i) (enc, dec) = []

  -- The sessions' parts of the authorization area, from the `i`th on.
  unfoldable pub authorize_all :
      ℕ
      → List ℕ
      → Option (List ℕ) × Option (List ℕ)
      → List (List ℕ)
      → ℕ
      → List Session
      → Step W (List ℕ)
  authorize_all cc parms nonces names i [] = lift (ok [])
  authorize_all cc parms nonces names i (s ∷ ss) = do
    auth ← ops.authorize s cc parms (nonces_for i nonces) names i
    b ← lift (marshal tpms_auth_command (auth_value auth))
    rest ← authorize_all cc parms nonces names (suc i) ss
    lift (ok (b ++ rest))

  -- The area of at least one session: its size and the sessions' parts.
  abbrev pub session_area :
      ℕ → List (List ℕ) → List ℕ → List Session → List Session → Step W (List ℕ)
  session_area cc names parms sess others w =
      (do
        nonces ← lift (extra_nonces w others none none)
        auths ← authorize_all cc parms nonces names 0 sess
        lift (ok (put_be 4 (length auths) ++ auths)))
        w

  -- `cmdSessions`
  unfoldable pub cmd_sessions : List Session → ℕ → List (List ℕ) → List ℕ → Step W (List ℕ)
  cmd_sessions [] cc names parms = lift (ok [])
  cmd_sessions (s ∷ ss) cc names parms = session_area cc names parms (s ∷ ss) ss
