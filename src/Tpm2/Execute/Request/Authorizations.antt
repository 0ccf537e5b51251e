-- ===== src/Tpm2/Execute/Request/Authorizations.antt =====
-- tpm2/reflect.go: the sessions' area of a command, described without the loops of cmdSessions.
use go_tpm.Base.{
  ℕ, suc, ◌≡◌, refl, ap, sym, ◌∙◌, List, [], ◌∷◌, ◌++◌, Option, none, some, if◌then◌else◌, length,
  inl, inr, Bool-cases, append-nil,
}
use go_tpm.Base.Bytes.{put_be}
use go_tpm.Base.Outcome.{ok, err}
use go_tpm.Tpm2.Fault.{Fault, Res, too_many_encrypt, too_many_decrypt}
use mathlib.Core.Path.{subst}
use go_tpm.Tpm2.Reflect.Marshal.{marshal}
use go_tpm.Tpm2.Structures.Auth.{tpms_auth_command}
use go_tpm.Tpm2.Session.Password.{AuthCommand}
use go_tpm.Tpm2.Execute.Steps.{continue-eq-ok, continue-lift, value_eq}
use go_tpm.Tpm2.Execute.Sessions.{Sessions, auth_value}
use go_tpm.Tpm2.Execute.Request.{bytes_of, extra_nonces, nonces_for, authorize_all, session_area}

-- A slot that must be unset, and what follows.
only_unset :
    {A B : Type 0} (o : Option A) (e : Fault) (m : Res B) (r : B)
    → elim o [ some n ↦ err e | none ↦ m ] ≡ ok r
    → (o ≡ none) × (m ≡ ok r)
only_unset none e m r h = (refl, h)
only_unset (some n) e m r h = cc

module _ {W : Type 0} (ops : Sessions W) where
  open ops use {Session}

  -- The nonces of the TPM of the sessions that encrypt.
  abbrev pub encryption_nonces : W → List Session → List ℕ
  encryption_nonces w [] = []
  encryption_nonces w (s ∷ ss) =
      (if ops.is_encryption w s then bytes_of (ops.nonce_tpm w s) else []) ++ encryption_nonces w ss

  -- Those of the sessions that decrypt and do not encrypt.
  abbrev pub decryption_nonces : W → List Session → List ℕ
  decryption_nonces w [] = []
  decryption_nonces w (s ∷ ss) =
      (if ops.is_encryption w s
        then []
        else if ops.is_decryption w s
        then bytes_of (ops.nonce_tpm w s)
        else [])
      ++ decryption_nonces w ss

  -- The sessions' parts of the area, in their order: each session authorizes the command with its
  -- index; `add_nonces` are for the session with the index 0.
  abbrev pub AreAuthorizations :
      (cc : ℕ) (parms add_nonces : List ℕ) (names : List (List ℕ)) (i : ℕ)
      → List Session
      → W
      → List ℕ
      → W
      → Type 0
  AreAuthorizations cc parms add_nonces names i [] w auths w' = (auths ≡ []) × (w ≡ w')
  AreAuthorizations cc parms add_nonces names i (s ∷ ss) w auths w' =
      (w₁ : W) × (a : AuthCommand) × (b : List ℕ) × (rest : List ℕ) × (ops.authorize s cc parms
          add_nonces names i w
        ≡ (w₁, ok a))
      × (marshal tpms_auth_command (auth_value a) ≡ ok b)
      × AreAuthorizations cc parms [] names (suc i) ss w₁ rest w'
      × (auths ≡ b ++ rest)

  -- The area of at least one session: its size in four bytes and the sessions' parts; the first
  -- session includes the nonces of the others that decrypt and that encrypt.
  abbrev pub IsSessionArea :
      (cc : ℕ) (parms : List ℕ) (names : List (List ℕ))
      → Session
      → List Session
      → W
      → List ℕ
      → W
      → Type 0
  IsSessionArea cc parms names s others w area w' =
      (auths : List ℕ) × AreAuthorizations cc parms
        (decryption_nonces w others ++ encryption_nonces w others) names 0 (s ∷ others) w auths w'
      × (area ≡ put_be 4 (length auths) ++ auths)

  abbrev Collected :
      W → List Session → (enc dec : Option (List ℕ)) → Option (List ℕ) × Option (List ℕ) → Type 0
  Collected w ss enc dec (e, d) =
      (bytes_of e ≡ bytes_of enc ++ encryption_nonces w ss)
      × (bytes_of d ≡ bytes_of dec ++ decryption_nonces w ss)

  extra_nonces-Collected :
      (w : W) (ss : List Session) (enc dec : Option (List ℕ))
      (r : Option (List ℕ) × Option (List ℕ))
      → extra_nonces ops w ss enc dec ≡ ok r
      → Collected w ss enc dec r
  unfolding extra_nonces
  extra_nonces-Collected w [] enc dec r h =
      let none_more : (enc, dec) ≡ r = cc in
      subst (Collected w [] enc dec) none_more
        (sym (append-nil (bytes_of enc)), sym (append-nil (bytes_of dec)))
  extra_nonces-Collected w (s ∷ ss) enc dec r h = elim (Bool-cases (ops.is_encryption w s)) [
    | inl encrypts ↦
        (let h' = rw encrypts at h in
          let (unset, rest) = only_unset enc too_many_encrypt _ r h' in
          let (e, d) = extra_nonces-Collected w ss (ops.nonce_tpm w s) dec r rest in
          rw (encrypts, unset) (e, d))
    | inr other ↦
        (let h' = rw other at h in
          elim (Bool-cases (ops.is_decryption w s)) [
            | inl decrypts ↦
                (let h'' = rw decrypts at h' in
                  let (unset, rest) = only_unset dec too_many_decrypt _ r h'' in
                  let (e, d) = extra_nonces-Collected w ss enc (ops.nonce_tpm w s) r rest in
                  rw (other, decrypts, unset) (e, d))
            | inr neither ↦
                (let h'' = rw neither at h' in
                  let (e, d) = extra_nonces-Collected w ss enc dec r h'' in
                  rw (other, neither) (e, d))
          ])
  ]

  authorize_all-AreAuthorizations :
      (cc : ℕ) (parms : List ℕ) (nonces : Option (List ℕ) × Option (List ℕ)) (names : List (List ℕ))
      (i : ℕ) (ss : List Session) (w w' : W) (auths : List ℕ)
      → authorize_all ops cc parms nonces names i ss w ≡ (w', ok auths)
      → AreAuthorizations cc parms (nonces_for ops i nonces) names i ss w auths w'
  unfolding authorize_all
  authorize_all-AreAuthorizations code parms nonces names i [] w w' auths h = (cc, cc)
  authorize_all-AreAuthorizations code parms nonces names i (s ∷ ss) w w' auths h =
      let (w₁, a, e, f) =
        continue-eq-ok (ops.authorize s code parms (nonces_for ops i nonces) names i w) _ h in
      let (b, m, g) = continue-lift w₁ (marshal tpms_auth_command (auth_value a)) _ f in
      let (w₂, rest, k, l) =
        continue-eq-ok (authorize_all ops code parms nonces names (suc i) ss w₁) _ g in
      let same : w₂ ≡ w' = ap (λ x. x.0) l in
      let behind =
        authorize_all-AreAuthorizations code parms nonces names (suc i) ss w₁ w' rest
          (k ∙ ap (λ v. (v, ok rest)) same) in
      (w₁, a, b, rest, e, m, behind, sym (value_eq w₂ w' (b ++ rest) auths l))

  pub session_area-IsSessionArea :
      (cc : ℕ) (names : List (List ℕ)) (parms : List ℕ) (s : Session) (others : List Session)
      (w w' : W) (area : List ℕ)
      → session_area ops cc names parms (s ∷ others) others w ≡ (w', ok area)
      → IsSessionArea cc parms names s others w area w'
  session_area-IsSessionArea code names parms s others w w' area h =
      let ((e, d), collected, f) = continue-lift w (extra_nonces ops w others none none) _ h in
      let (w₁, auths, g, k) =
        continue-eq-ok (authorize_all ops code parms (e, d) names 0 (s ∷ others) w) _ f in
      let same : w₁ ≡ w' = ap (λ x. x.0) k in
      let (encs, decs) = extra_nonces-Collected w others none none (e, d) collected in
      let nonces =
        ap (λ x. x ++ bytes_of e) decs ∙ ap (λ y. decryption_nonces w others ++ y) encs in
      (
        auths,
        subst (λ n. AreAuthorizations code parms n names 0 (s ∷ others) w auths w') nonces
            (authorize_all-AreAuthorizations code parms (e, d) names 0 (s ∷ others) w w' auths
              (g ∙ ap (λ v. (v, ok auths)) same)),
        sym (value_eq w₁ w' (put_be 4 (length auths) ++ auths) area k),
      )
