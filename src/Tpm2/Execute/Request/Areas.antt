-- ===== src/Tpm2/Execute/Request/Areas.antt =====
-- tpm2/reflect.go: the parameters area of a command, described without the loops of cmdParameters.
use go_tpm.Base.{
  ℕ, ◌≡◌, refl, ap, sym, ◌∙◌, true, false, List, [], ◌∷◌, ◌++◌, ltb, length, take, drop, inl, inr,
  Bool-cases, ◌⊎◌,
}
use go_tpm.Base.Outcome.{ok}
use go_tpm.Tpm2.Command.Arguments.{
  Argument, marshal_argument, marshal_parameter, marshal_parameters,
}
use go_tpm.Tpm2.Command.Order.{
  handles_first, marks, parms_of, marshal_each, marshal_parameters-each, marshal_parameter-first,
  length-parms_of,
}
use go_tpm.Tpm2.Execute.Steps.{continue-eq-ok, continue-lift, value_eq}
use go_tpm.Tpm2.Execute.Sessions.{Sessions}
use go_tpm.Tpm2.Execute.Request.{encrypt_payload, encrypt_first, write_parameters, cmd_parameters}

module _ {W : Type 0} (ops : Sessions W) where
  open ops use {Session}

  -- The first parameter `b` is sent as `q`: the contents of its TPM2B are encrypted by the first
  -- session that decrypts, if there is one.
  abbrev pub SentFirst : List Session → (w : W) (b q : List ℕ) (w' : W) → Type 0
  SentFirst [] w b q w' = (q ≡ b) × (w ≡ w')
  SentFirst (s ∷ ss) w b q w' =
      ((ops.is_decryption w s ≡ true)
        × (p : List ℕ) × (ops.encrypt s (drop 2 b) w ≡ (w', ok p))
        × (q ≡ take 2 b ++ p))
      ⊎ ((ops.is_decryption w s ≡ false) × SentFirst ss w b q w')

  -- The parameters area holds the parameters, the first one as it is sent.
  abbrev pub AreParameters : List (Argument Session) → List Session → W → List ℕ → W → Type 0
  AreParameters [] sess w area w' = (area ≡ []) × (w ≡ w')
  AreParameters (p ∷ ps) sess w area w' =
      (b : List ℕ) × (q : List ℕ) × (rest : List ℕ) × (marshal_argument p ≡ ok b)
      × SentFirst sess w b q w'
      × (marshal_each ps ≡ ok rest)
      × (area ≡ q ++ rest)

  -- Behind a session that decrypts there is no other.
  encrypt_first-rest :
      (ss : List Session) (b q : List ℕ) (w w' : W)
      → encrypt_first ops ss true b w ≡ (w', ok q)
      → (q ≡ b) × (w ≡ w')
  unfolding encrypt_first
  encrypt_first-rest [] b q w w' h = (cc, cc)
  encrypt_first-rest (s ∷ ss) b q w w' h = elim (Bool-cases (ops.is_decryption w s)) [
    | inl here ↦ (let h' = rw here at h in cc)
    | inr other ↦ (let h' = rw other at h in encrypt_first-rest ss b q w w' h')
  ]

  encrypt_payload-eq-ok :
      (s : Session) (b q : List ℕ) (w w' : W)
      → encrypt_payload ops s b w ≡ (w', ok q)
      → (p : List ℕ) × (ops.encrypt s (drop 2 b) w ≡ (w', ok p)) × (q ≡ take 2 b ++ p)
  encrypt_payload-eq-ok s b q w w' h =
      let (w₁, p, e, f) = continue-eq-ok (ops.encrypt s (drop 2 b) w) _ h in
      let same : w₁ ≡ w' = ap (λ x. x.0) f in
      (p, e ∙ ap (λ v. (v, ok p)) same, sym (value_eq w₁ w' (take 2 b ++ p) q f))

  encrypt_first-SentFirst :
      (ss : List Session) (b q : List ℕ) (w w' : W)
      → encrypt_first ops ss false b w ≡ (w', ok q)
      → SentFirst ss w b q w'
  unfolding encrypt_first
  encrypt_first-SentFirst [] b q w w' h = (cc, cc)
  encrypt_first-SentFirst (s ∷ ss) b q w w' h = elim (Bool-cases (ops.is_decryption w s)) [
    | inr other ↦ (let h' = rw other at h in inr (other, encrypt_first-SentFirst ss b q w w' h'))
    | inl here ↦
        (let h' = rw here at h in
          elim (Bool-cases (ltb (length b) 2)) [
            | inl short ↦ (let h'' = rw short at h' in cc)
            | inr long ↦
                (let h'' = rw long at h' in
                  let (w₁, b₁, e, f) = continue-eq-ok (encrypt_payload ops s b w) _ h'' in
                  let (same_bytes, same_state) = encrypt_first-rest ss b₁ q w₁ w' f in
                  let (p, g, k) = encrypt_payload-eq-ok s b b₁ w w₁ e in
                  inl (here, p, g ∙ ap (λ v. (v, ok p)) same_state, same_bytes ∙ k))
          ])
  ]

  write_parameters-AreParameters :
      (args : List (Argument Session)) (sess : List Session) (ps : List (Argument Session))
      (w w' : W) (area : List ℕ)
      → handles_first (marks args) ≡ true
      → parms_of args ≡ ps
      → write_parameters ops args sess (length ps) w ≡ (w', ok area)
      → AreParameters ps sess w area w'
  unfolding write_parameters
  write_parameters-AreParameters args sess [] w w' area first e h = (cc, cc)
  write_parameters-AreParameters args sess (p ∷ ps) w w' area first e h =
      let (b, m, f) = continue-lift w (marshal_parameter args 0) _ h in
      let (w₁, q, sent, g) = continue-eq-ok (encrypt_first ops sess false b w) _ f in
      let (rest, r, k) = continue-lift w₁ (marshal_parameters args 1 (length ps)) _ g in
      let same : w₁ ≡ w' = ap (λ x. x.0) k in
      (
        b,
        q,
        rest,
        sym (marshal_parameter-first args p ps first e) ∙ m,
        encrypt_first-SentFirst sess b q w w' (sent ∙ ap (λ v. (v, ok q)) same),
        sym (marshal_parameters-each args (p ∷ []) ps first e) ∙ r,
        sym (value_eq w₁ w' (q ++ rest) area k),
      )

  pub cmd_parameters-AreParameters :
      (args : List (Argument Session)) (sess : List Session) (w w' : W) (area : List ℕ)
      → handles_first (marks args) ≡ true
      → cmd_parameters ops args sess w ≡ (w', ok area)
      → AreParameters (parms_of args) sess w area w'
  unfolding cmd_parameters
  cmd_parameters-AreParameters args sess w w' area first h =
      write_parameters-AreParameters args sess (parms_of args) w w' area first refl
        (ap (λ n. write_parameters ops args sess n w) (length-parms_of args) ∙ h)
