-- ===== src/Tpm2/Session/Objects.antt =====
-- hmacSession and policySession of tpm2/sessions.go as an implementation of the interface Session,
-- beside pwSession: the objects stand in a store, with the TPM.
use go_tpm.Base.{ℕ, Bool, false, List, [], Option, none, some, if◌then◌else◌, get_elem?, set}
use go_tpm.Base.Outcome.{ok, panic}
use go_tpm.Tpm2.Fault.{Res}
use go_tpm.Tpm2.Execute.Step.{Step, lift}
use go_tpm.Tpm2.Execute.Sessions.{Sessions}
use go_tpm.Tpm2.Session.Password.{AuthCommand, AuthResponse, authorize_pw, validate_pw}
use go_tpm.Tpm2.Session.Hmac.{authorize, validate}
use go_tpm.Tpm2.Session.Policy.{authorize_policy, validate_policy}
use go_tpm.Tpm2.Session.Options.{AuthSession, view, put_back}
use go_tpm.Tpm2.Session.Salt.{Platform}
use go_tpm.Tpm2.Session.Open.{init, cleanup_failure, new_nonce_caller}
use go_tpm.Tpm2.Session.Derive.{encrypt, decrypt}

pub record World (T : Type 0) : Type 0 where
  pub tpm : T
  pub objects : List (AuthSession T)

-- A value of the interface: a password session, or a pointer to an object.
pub data Reference : Type 0 where
  password : (auth : List ℕ) → Reference
  object : (i : ℕ) → Reference

module _ {T A : Type 0} where
  abbrev pub write_back : ℕ → World T → (AuthSession T × T) × Res A → World T × Res A
  write_back i w ((s, t), r) = (record { tpm = t; objects = set w.objects i s }, r)

  abbrev pub at_object : ℕ → Option (AuthSession T) → Step (AuthSession T × T) A → Step (World T) A
  at_object i none m w = (w, panic)
  at_object i (some s) m w = write_back i w (m (s, w.tpm))

  -- A method of the object that a pointer stands for.
  unfoldable pub at : ℕ → Step (AuthSession T × T) A → Step (World T) A
  at i m w = at_object i (get_elem? w.objects i) m w

module _ {T : Type 0} (p : Platform T) where
  abbrev pub authorize_object :
      ℕ → List ℕ → List ℕ → List (List ℕ) → ℕ → Step (AuthSession T × T) AuthCommand
  authorize_object cc parms add_nonces names i (s, t) = (
    (s, t),
    if s.is_policy
        then authorize_policy p.crypto (view s) cc parms add_nonces names
        else authorize p.crypto (view s) cc parms add_nonces names i,
  )

  abbrev pub validate_object :
      ℕ → ℕ → List ℕ → List (List ℕ) → ℕ → AuthResponse → Step (AuthSession T × T) (Unit {0})
  validate_object rc cc parms names i auth (s, t) =
      let (v, r) =
        if s.is_policy
        then validate_policy p.crypto (view s) rc cc parms auth
        else validate p.crypto (view s) rc cc parms names i auth in
      ((put_back s v, t), r)

  abbrev pub encrypt_object : List ℕ → Step (AuthSession T × T) (List ℕ)
  encrypt_object b (s, t) = ((s, t), encrypt p s b)

  abbrev pub decrypt_object : List ℕ → Step (AuthSession T × T) (List ℕ)
  decrypt_object b (s, t) = ((s, t), decrypt p s b)

  abbrev pub is_set : (AuthSession T → Bool) → Option (AuthSession T) → Bool
  is_set f none = false
  is_set f (some s) = f s

  -- The nonce is not nil once the session is initialised, as it is where it is asked for.
  abbrev pub nonce_of : Option (AuthSession T) → Option (List ℕ)
  nonce_of none = none
  nonce_of (some s) = some s.nonce_tpm

  abbrev pub on_reference : {A : Type 0} → Reference → (List ℕ → A) → (ℕ → A) → A
  on_reference (password auth) f g = f auth
  on_reference (object i) f g = g i

  abbrev pub auth_sessions : Sessions (World T)
  auth_sessions = record {
    Session = Reference;
    password_auth = password [];
    init = λ s. on_reference s (λ a. lift (ok tt)) (λ i. at i (init p));
    cleanup_failure = λ s. on_reference s (λ a. lift (ok tt)) (λ i. at i (cleanup_failure p));
    new_nonce_caller = λ s. on_reference s (λ a. lift (ok tt)) (λ i. at i (new_nonce_caller p));
    nonce_tpm = λ w s. on_reference s (λ a. none) (λ i. nonce_of (get_elem? w.objects i));
    is_encryption = λ w s.
        on_reference s (λ a. false)
          (λ i. is_set (λ o. o.options.attrs.encrypt) (get_elem? w.objects i));
    is_decryption = λ w s.
        on_reference s (λ a. false)
          (λ i. is_set (λ o. o.options.attrs.decrypt) (get_elem? w.objects i));
    authorize = λ s cc parms add_nonces names auth_index.
        on_reference s (λ a. lift (ok (authorize_pw a)))
          (λ i. at i (authorize_object cc parms add_nonces names auth_index));
    validate = λ s rc cc parms names auth_index auth.
        on_reference s (λ a. lift (validate_pw auth))
          (λ i. at i (validate_object rc cc parms names auth_index auth));
    encrypt = λ s b. on_reference s (λ a. lift (ok b)) (λ i. at i (encrypt_object b));
    decrypt = λ s b. on_reference s (λ a. lift (ok b)) (λ i. at i (decrypt_object b));
  }
