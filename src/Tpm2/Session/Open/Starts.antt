-- ===== src/Tpm2/Session/Open/Starts.antt =====
-- Init: what a session holds once it is started, and what it does when it is called again.
use go_tpm.Base.{
  ℕ, ◌<◌, ◌≤◌, ◌^◌, All, ◌*◌, ◌≡◌, ◌≢◌, refl, ap, ◌∙◌, true, not, ◌||◌, List, ◌++◌, ◌==◌, ==_iff,
  ==_ne, if◌then◌else◌, length, Bool-cases, inl, inr, some, Option,
}
use go_tpm.Base.Outcome.{ok, err}
use go_tpm.Tpm2.Fault.{Fault}
use go_tpm.Tpm2.Kdf.{kdfa_hash}
use go_tpm.Tpm2.Execute.Step.{Step, ◌>>=◌}
use go_tpm.Tpm2.Session.Crypto.{Hash, hash_of}
use go_tpm.Tpm2.Session.Password.{rh_null}
use go_tpm.Tpm2.Session.Options.{AuthSession}
use go_tpm.Tpm2.Session.Salt.{Platform, from_kdf}
use go_tpm.Tpm2.Session.Open.{with_tpm, start_auth_session, salt_for, call_back, open_session, init}
use go_tpm.Tpm2.Session.Open.Exchange.{start_command, start_answer, start_auth_session-answered}
use go_tpm.Tpm2.Reflect.Marshal.{marshal}
use go_tpm.Tpm2.Reflect.Unmarshal.{max_list_length}
use go_tpm.Tpm2.Structures.Symmetric.{tpmt_sym_def}
use go_tpm.Base.Bytes.{IsByte}
use go_tpm.Tpm2.Session.Derive.{ath_label, has_key, derive_key, check_hash}

-- A step of the TPM that returns a value is followed by the rest.
with_tpm-ok :
    {T A B : Type 0} (m : Step T A) (f : A → Step (AuthSession T × T) B) (s : AuthSession T)
    (t t' : T) (a : A)
    → m t ≡ (t', ok a)
    → (with_tpm m >>= f) (s, t) ≡ f a (s, t')
with_tpm-ok m f s t t' a e = rw e

failed :
    {T : Type 0} (c : Option (ℕ → List ℕ → Step T (Unit {0}))) (f : ℕ → List ℕ → Step T (Unit {0}))
    (h : ℕ) (nonce : List ℕ) (s : AuthSession T) (t t' : T) (e : Fault)
    → c ≡ some f
    → f h nonce t ≡ (t', err e)
    → with_tpm (call_back c h nonce) (s, t) ≡ ((s, t'), err e)
failed c f h nonce s t t' e by fails = rw (by, fails)

module _ {T : Type 0} (p : Platform T) where
  -- A session with a handle is left alone.
  init-started : (s : AuthSession T) (t : T) → s.handle ≢ rh_null → init p (s, t) ≡ ((s, t), ok tt)
  unfolding init
  init-started s t h = rw (==_ne s.handle rh_null h)

  abbrev pub renewed : AuthSession T → List ℕ → AuthSession T
  renewed s n = record s { nonce_caller = n }

  abbrev pub opened : AuthSession T → List ℕ → ℕ → List ℕ → List ℕ → AuthSession T
  opened s n h nonce key = record s {
    handle = h;
    session_key = key;
    nonce_caller = n;
    nonce_tpm = nonce;
  }

  -- The session key of the specification, from the bind object's auth value and the salt.
  abbrev pub session_key_of : AuthSession T → Hash → (salt nonce n : List ℕ) → Option (List ℕ)
  session_key_of s ha salt nonce n =
      if not (s.options.bind_handle == rh_null) || not (length salt == 0)
      then kdfa_hash p.crypto ha (s.options.bind_auth ++ salt) ath_label nonce n
          (p.crypto.size ha * 8)
      else some s.session_key

  from_kdf-some : {o : Option (List ℕ)} {b : List ℕ} → o ≡ some b → from_kdf o ≡ ok b
  from_kdf-some e = rw e

  derive_key-session_key_of :
      (s : AuthSession T) (ha : Hash) (h : ℕ) (salt nonce n key : List ℕ)
      → hash_of s.hash ≡ ok ha
      → session_key_of s ha salt nonce n ≡ some key
      → derive_key p (record s { handle = h; nonce_caller = n; nonce_tpm = nonce }) salt ≡ ok key
  unfolding derive_key
  derive_key-session_key_of s ha h salt nonce n key supported k =
      elim (Bool-cases (has_key p s salt)) [
        | inl e ↦ (let k' = rw e at k in rw (e, supported) (from_kdf-some k'))
        | inr e ↦ (let k' = rw e at k in rw e (let same : s.session_key ≡ key = cc in ap ok same))
      ]

  check_hash-ok : (s : AuthSession T) (ha : Hash) → hash_of s.hash ≡ ok ha → check_hash p s ≡ ok tt
  check_hash-ok s ha supported = elim (Bool-cases s.is_policy) [
    | inl e ↦ rw e
    | inr e ↦ rw (e, supported)
  ]

  -- Init of a session without a handle, by what its steps return.
  init-steps :
      (s : AuthSession T) (ha : Hash) (t t₁ t₂ t₃ : T) (n enc salt nonce key : List ℕ) (h : ℕ)
      → s.handle ≡ rh_null
      → hash_of s.hash ≡ ok ha
      → p.random s.nonce_size t ≡ (t₁, ok n)
      → salt_for p (renewed s n) t₁ ≡ (t₂, ok (enc, salt))
      → start_auth_session p (renewed s n) enc t₂ ≡ (t₃, ok (h, nonce))
      → session_key_of s ha salt nonce n ≡ some key
      → init p (s, t) ≡ with_tpm (call_back s.callback h nonce) (opened s n h nonce key, t₃)
  unfolding init open_session
  init-steps s ha t t₁ t₂ t₃ n enc salt nonce key h null supported random salted start derived =
      let fresh : s.handle == rh_null ≡ true = (==_iff s.handle rh_null).1 null in
      rw fresh (
        with_tpm-ok (p.random s.nonce_size) _ _ t t₁ n random
        ∙ with_tpm-ok (salt_for p (renewed s n)) _ _ t₁ t₂ (enc, salt) salted
        ∙ with_tpm-ok (start_auth_session p (renewed s n) enc) _ _ t₂ t₃ (h, nonce) start
        ∙ rw
            (
              check_hash-ok (record s { handle = h; nonce_caller = n; nonce_tpm = nonce }) ha
                  supported,
              derive_key-session_key_of s ha h salt nonce n key supported derived,
            )
            refl)

  -- Init of a session without a handle, with a supported hash, when random numbers and the salt
  -- succeed: the next command that is sent is StartAuthSession, with the handles of the salt key and
  -- of the bind object, the new nonce, the encrypted salt, the type of session, and the symmetric and
  -- the hash algorithm. When the TPM answers with a handle and a nonce, the session takes them and
  -- the session key that KDFa derives from the bind object's auth value and the salt, where there is
  -- a bind object or a salt, and the callback, if there is one, is run last, on the opened session.
  -- The nonces and the encrypted salt are bytes, and the TPM's nonce has at most 4096 of them.
  pub init-opened :
      (s : AuthSession T) (ha : Hash) (t t₁ t₂ t₃ : T) (n enc salt symmetric nonce key : List ℕ)
      (tag size h : ℕ)
      → s.handle ≡ rh_null
      → hash_of s.hash ≡ ok ha
      → p.random s.nonce_size t ≡ (t₁, ok n)
      → salt_for p (renewed s n) t₁ ≡ (t₂, ok (enc, salt))
      → All IsByte n
      → All IsByte enc
      → marshal tpmt_sym_def s.options.symmetric ≡ ok symmetric
      → p.send (start_command s n enc symmetric) t₂ ≡ (t₃, ok (start_answer tag size h nonce))
      → tag < 2 ^ 16
      → size < 2 ^ 32
      → h < 2 ^ 32
      → All IsByte nonce
      → length nonce ≤ max_list_length
      → session_key_of s ha salt nonce n ≡ some key
      → init p (s, t) ≡ with_tpm (call_back s.callback h nonce) (opened s n h nonce key, t₃)
  init-opened s ha t t₁ t₂ t₃ n enc salt symmetric nonce key tag size h null supported random salted
        caller secret chosen sent short₁ short₂ short₃ new few derived =
      init-steps s ha t t₁ t₂ t₃ n enc salt nonce key h null supported random salted
        (start_auth_session-answered p (renewed s n) enc symmetric nonce tag size h t₂ t₃ caller
          secret chosen sent short₁ short₂ short₃ new few)
        derived

  -- The callback of a policy session has failed: the session keeps the handle of the session that
  -- it has started, so that Init has nothing to do when it is called again, and the policy is not run.
  pub init-call_back_failed :
      (s : AuthSession T) (ha : Hash) (t t₁ t₂ t₃ t₄ : T) (n enc salt nonce key : List ℕ) (h : ℕ)
      (f : ℕ → List ℕ → Step T (Unit {0})) (e : Fault)
      → s.handle ≡ rh_null
      → hash_of s.hash ≡ ok ha
      → p.random s.nonce_size t ≡ (t₁, ok n)
      → salt_for p (renewed s n) t₁ ≡ (t₂, ok (enc, salt))
      → start_auth_session p (renewed s n) enc t₂ ≡ (t₃, ok (h, nonce))
      → session_key_of s ha salt nonce n ≡ some key
      → s.callback ≡ some f
      → f h nonce t₃ ≡ (t₄, err e)
      → h ≢ rh_null
      → (init p (s, t) ≡ ((opened s n h nonce key, t₄), err e))
        × (init p (opened s n h nonce key, t₄) ≡ ((opened s n h nonce key, t₄), ok tt))
  init-call_back_failed s ha t t₁ t₂ t₃ t₄ n enc salt nonce key h f e null supported random salted
        start derived by fails has =
      (
        init-steps s ha t t₁ t₂ t₃ n enc salt nonce key h null supported random salted start derived
            ∙ failed s.callback f h nonce (opened s n h nonce key) t₃ t₄ e by fails,
        init-started (opened s n h nonce key) t₄ has,
      )
