-- ===== src/Tpm2/Session/Open.antt =====
-- hmacSession and policySession of tpm2/sessions.go against a TPM: Init, CleanupFailure
-- and NewNonceCaller.
pub mod Exchange
pub mod Starts
pub mod Failures
use go_tpm.Base.{
  ℕ, ◌+◌, ◌*◌, ◌/◌, Bool, true, false, not, ◌||◌, List, [], ◌∷◌, ◌++◌, Option, none, some, ◌==◌,
  if◌then◌else◌, length, take, drop, replicate, inl,
}
use go_tpm.Base.Outcome.{ok, err, panic}
use go_tpm.Tpm2.Fault.{Res, wrong_union_member, unsupported_key_size}
use go_tpm.Tpm2.Reflect.Types.{El, plain, bytes, num, struct, field, no_fields, w8, w16}
use go_tpm.Tpm2.Structures.Basic.{tpm2b_nonce}
use go_tpm.Tpm2.Structures.Signature.{tpm2b_encrypted_secret}
use go_tpm.Tpm2.Structures.Symmetric.{tpmt_sym_def}
use go_tpm.Tpm2.Command.{handle_out, parm_out}
use go_tpm.Tpm2.Command.Handles.{tpm_handle}
use go_tpm.Tpm2.Command.Arguments.{Argument, handle_arg, parm_arg}
use go_tpm.Tpm2.Commands.Sessions.{start_auth_session_command}
use go_tpm.Tpm2.Commands.Contexts.{flush_context_command}
use go_tpm.Tpm2.Execute.Step.{Step, lift, continue, ◌>>=◌}
use go_tpm.Tpm2.Execute.Response.{Slot}
use go_tpm.Tpm2.Execute.Run.{execute}
use go_tpm.Tpm2.Execute.Passwords.{password_sessions}
use go_tpm.Tpm2.Session.Crypto.{Crypto, Hash, hash_of}
use go_tpm.Tpm2.Session.Password.{rh_null}
use go_tpm.Tpm2.Session.Options.{AuthSession, AuthOption, reusable}
use go_tpm.Tpm2.Session.Salt.{Platform, encrypted_salt, from_kdf}
use go_tpm.Tpm2.Session.Derive.{check_hash, derive_key}

-- TPMSEHMAC, TPMSEPolicy and TPMSETrial.
abbrev pub session_type : {T : Type 0} → AuthSession T → ℕ
session_type s = if s.is_policy then (if s.options.trial_policy then 3 else 1) else 0

-- A StartAuthSession command.
abbrev pub start_arguments :
    {T : Type 0} → AuthSession T → (encrypted_salt : List ℕ) → List (Argument (List ℕ))
start_arguments s enc =
    handle_arg "TPMKey" false false (tpm_handle s.options.salt_handle)
    ∷ handle_arg "Bind" false false (tpm_handle s.options.bind_handle)
    ∷ parm_arg "NonceCaller" plain tpm2b_nonce (s.nonce_caller, tt)
    ∷ parm_arg "EncryptedSalt" plain tpm2b_encrypted_secret (enc, tt)
    ∷ parm_arg "SessionType" plain (num w8) (session_type s)
    ∷ parm_arg "Symmetric" plain tpmt_sym_def s.options.symmetric
    ∷ parm_arg "AuthHash" plain (num w16) s.hash
    ∷ []

-- The fields SessionHandle and NonceTPM of the response.
abbrev pub started : List Slot → Res (ℕ × List ℕ)
started
      ((handle_out x (num w), h)
        ∷ (parm_out y tags (struct (field z tags' bytes no_fields)), (nonce, end))
        ∷ []) =
    ok (h, nonce)
started _ = panic

module _ {T : Type 0} where
  -- A step of the TPM; a session is passed along with it.
  abbrev pub with_tpm : {A : Type 0} → Step T A → Step (AuthSession T × T) A
  with_tpm m (s, t) = let (t', r) = m t in ((s, t'), r)

  abbrev pub change : (AuthSession T → AuthSession T) → Step (AuthSession T × T) (Unit {0})
  change f (s, t) = ((f s, t), ok tt)

  abbrev pub current : Step (AuthSession T × T) (AuthSession T)
  current (s, t) = ((s, t), ok s)

  -- The policy callback, if there is one.
  abbrev pub call_back : Option (ℕ → List ℕ → Step T (Unit {0})) → ℕ → List ℕ → Step T (Unit {0})
  call_back none handle nonce = lift (ok tt)
  call_back (some f) handle nonce = f handle nonce

module _ {T : Type 0} (p : Platform T) where
  -- `sasCmd.Execute`
  unfoldable pub start_auth_session : AuthSession T → List ℕ → Step T (ℕ × List ℕ)
  start_auth_session s enc = do
    slots ←
        execute (password_sessions T) p.send start_auth_session_command (start_arguments s enc) []
    lift (started slots)

  -- `FlushContext`
  unfoldable pub flush : ℕ → Step T (Unit {0})
  flush h = do
    slots ←
        execute (password_sessions T) p.send flush_context_command
          (handle_arg "FlushHandle" false false (tpm_handle h) ∷ []) []
    lift (ok tt)

  unfoldable pub salt_for : AuthSession T → Step T (List ℕ × List ℕ)
  salt_for s =
      if s.options.salt_handle == rh_null
      then lift (ok ([], []))
      else encrypted_salt p s.options.salt_pub

  -- What Init does to a session that has no handle.
  unfoldable pub open_session : Step (AuthSession T × T) (Unit {0})
  open_session = do
    s₀ ← current
    zeroed ← change (λ s. record s { nonce_caller = replicate s.nonce_size 0 })
    n ← with_tpm (p.random s₀.nonce_size)
    renewed ← change (λ s. record s { nonce_caller = n })
    s₁ ← current
    (enc, salt) ← with_tpm (salt_for s₁)
    (h, nonce) ← with_tpm (start_auth_session s₁ enc)
    opened ← change (λ s. record s { handle = h; nonce_tpm = nonce })
    s₂ ← current
    supported ← lift (check_hash p s₂)
    key ← lift (derive_key p s₂ salt)
    keyed ← change (λ s. record s { session_key = key })
    with_tpm (call_back s₂.callback s₂.handle s₂.nonce_tpm)

  -- `Init`
  unfoldable pub init : Step (AuthSession T × T) (Unit {0})
  init (s, t) = if not (s.handle == rh_null) then ((s, t), ok tt) else open_session (s, t)

  -- `CleanupFailure`
  unfoldable pub cleanup_failure : Step (AuthSession T × T) (Unit {0})
  cleanup_failure (s, t) =
      if s.options.attrs.continue_session
      then ((s, t), ok tt)
      else ((do flushed ← with_tpm (flush s.handle); change (λ s'. record s' { handle = rh_null }))
          (s, t))

  -- `NewNonceCaller`
  unfoldable pub new_nonce_caller : Step (AuthSession T × T) (Unit {0})
  new_nonce_caller = do
    s ← current
    n ← with_tpm (p.random (length s.nonce_caller))
    change (λ s'. record s' { nonce_caller = n })

  -- `HMACSession` and `PolicySession`; what they return to close the session is `close`.
  abbrev pub handed_out : (AuthSession T × T) × Res (Unit {0}) → T × Res (AuthSession T)
  handed_out ((s, t), ok done) = (t, ok s)
  handed_out ((s, t), err e) = (t, err e)
  handed_out ((s, t), panic) = (t, panic)

  unfoldable pub open_reusable : Bool → ℕ → ℕ → List AuthOption → Step T (AuthSession T)
  open_reusable is_policy hash nonce_size opts t =
      handed_out (init (reusable is_policy hash nonce_size opts, t))

  abbrev pub close : AuthSession T → Step T (Unit {0})
  close s = flush s.handle
