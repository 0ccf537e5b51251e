-- ===== src/Tpm2/Execute/Request/Parameters.antt =====
-- cmdParameters of tpm2/reflect.go: what is written, and what is encrypted.
use go_tpm.Base.{
  ℕ, suc, ◌+◌, ◌≤◌, ◌≡◌, refl, ap, ◌∙◌, sym, arith, Bool, true, false, List, [], ◌∷◌, ◌++◌, ltb,
  if◌then◌else◌, length, drop, inl, inr, Bool-cases, All,
}
use go_tpm.Base.Outcome.{ok, err, panic, ◌>>=◌ as ◌then◌}
use go_tpm.Tpm2.Fault.{Res}
use go_tpm.Tpm2.Command.Arguments.{Argument, parameter_count, marshal_parameter, marshal_argument}
use go_tpm.Tpm2.Command.Order.{
  handles_first, marks, parms_of, marshal_each, marshal_parameters-each, marshal_parameter-first,
  length-parms_of,
}
use go_tpm.Tpm2.Execute.Step.{lift, continue, ◌>>=◌}
use go_tpm.Tpm2.Execute.Steps.{continue-eq-ok, continue-lift}
use go_tpm.Tpm2.Execute.Sessions.{Sessions}
use go_tpm.Tpm2.Execute.Request.{encrypt_payload, encrypt_first, write_parameters, cmd_parameters}

module _ {W : Type 0} (ops : Sessions W) where
  open ops use {Session}

  -- None of the sessions decrypts.
  abbrev pub NoDecryption : W → List Session → Type 0
  NoDecryption w = All (λ s. ops.is_decryption w s ≡ false)

  pub encrypt_first-none :
      (ss : List Session) (e : Bool) (b : List ℕ) (w : W)
      → NoDecryption w ss
      → encrypt_first ops ss e b w ≡ (w, ok b)
  unfolding encrypt_first
  encrypt_first-none [] e b w h = refl
  encrypt_first-none (s ∷ ss) e b w (h, hs) = rw (h, encrypt_first-none ss e b w hs)

  -- The number of sessions that decrypt.
  abbrev pub decryptions : W → List Session → ℕ
  decryptions w [] = 0
  decryptions w (s ∷ ss) = (if ops.is_decryption w s then 1 else 0) + decryptions w ss

  -- Encrypting with a session leaves every session's use as it is.
  abbrev pub KeepsUse : Type 0
  KeepsUse =
      (s t : Session) (b : List ℕ) (w : W)
      → ops.is_decryption ((ops.encrypt s b w).0) t ≡ ops.is_decryption w t

  decryptions-encrypt :
      KeepsUse
      → (s : Session) (b : List ℕ) (w : W) (ss : List Session)
      → decryptions ((ops.encrypt s b w).0) ss ≡ decryptions w ss
  decryptions-encrypt keeps s b w [] = refl
  decryptions-encrypt keeps s b w (t ∷ ss) = rw (keeps s t b w, decryptions-encrypt keeps s b w ss)

  encrypt_first-used :
      KeepsUse
      → (ss : List Session) (b : List ℕ) (w w' : W) (q : List ℕ)
      → encrypt_first ops ss true b w ≡ (w', ok q)
      → decryptions w ss ≡ 0
  unfolding encrypt_first
  encrypt_first-used keeps [] b w w' q h = refl
  encrypt_first-used keeps (s ∷ ss) b w w' q h = elim (Bool-cases (ops.is_decryption w s)) [
    | inl here ↦ (let h' = rw here at h in cc)
    | inr other ↦ (let h' = rw other at h in rw (other, encrypt_first-used keeps ss b w w' q h'))
  ]

  -- The state after a first parameter is encrypted.
  encrypt_payload-state :
      (s : Session) (b : List ℕ) (w w' : W) (q : List ℕ)
      → encrypt_payload ops s b w ≡ (w', ok q)
      → (ops.encrypt s (drop 2 b) w).0 ≡ w'
  encrypt_payload-state s b w w' q h =
      let (w₁, p, e, f) = continue-eq-ok (ops.encrypt s (drop 2 b) w) _ h in
      ap (λ x. x.0) e ∙ ap (λ x. x.0) f

  encrypt_first-unused :
      KeepsUse
      → (ss : List Session) (b : List ℕ) (w w' : W) (q : List ℕ)
      → encrypt_first ops ss false b w ≡ (w', ok q)
      → decryptions w ss ≤ 1
  unfolding encrypt_first
  encrypt_first-unused keeps [] b w w' q h = omega arith
  encrypt_first-unused keeps (s ∷ ss) b w w' q h = elim (Bool-cases (ops.is_decryption w s)) [
    | inr other ↦
        (let h' = rw other at h in
          let rest = encrypt_first-unused keeps ss b w w' q h' in rw other (omega (arith, rest)))
    | inl here ↦
        (let h' = rw here at h in
          elim (Bool-cases (ltb (length b) 2)) [
            | inl short ↦ (let h'' = rw short at h' in cc)
            | inr long ↦
                (let h'' = rw long at h' in
                  let (w₁, b₁, e, f) = continue-eq-ok (encrypt_payload ops s b w) _ h'' in
                  let z : decryptions w₁ ss ≡ 0 = encrypt_first-used keeps ss b₁ w₁ w' q f in
                  let k : decryptions w ss ≡ decryptions w₁ ss =
                    sym (decryptions-encrypt keeps s (drop 2 b) w ss)
                    ∙ ap (λ v. decryptions v ss) (encrypt_payload-state s b w w₁ b₁ e) in
                  rw (here, k, z) (omega arith))
          ])
  ]

  -- The parameters from the results of marshalling the first one and the others.
  write_first :
      (sess : List Session) (w : W) (m r : Res (List ℕ))
      → NoDecryption w sess
      → continue {W = W}
          (w, m)
          (λ b. encrypt_first ops sess false b >>= λ first.
            lift r >>= λ rest. lift (ok (first ++ rest)))
        ≡ (w, m then λ b. r then λ rest. ok (b ++ rest))
  write_first sess w (ok b) (ok r) k = rw (encrypt_first-none sess false b w k)
  write_first sess w (ok b) (err e) k = rw (encrypt_first-none sess false b w k)
  write_first sess w (ok b) panic k = rw (encrypt_first-none sess false b w k)
  write_first sess w (err e) r k = refl
  write_first sess w panic r k = refl

  write_parameters-each :
      (args : List (Argument Session)) (sess : List Session) (w : W) (ps : List (Argument Session))
      → handles_first (marks args) ≡ true
      → NoDecryption w sess
      → parms_of args ≡ ps
      → write_parameters ops args sess (length ps) w ≡ (w, marshal_each ps)
  unfolding write_parameters
  write_parameters-each args sess w [] h k e = refl
  write_parameters-each args sess w (p ∷ ps) h k e =
      rw (marshal_parameter-first args p ps h e, marshal_parameters-each args (p ∷ []) ps h e)
        (write_first sess w (marshal_argument p) (marshal_each ps) k)

  -- Where the handles come first and no session decrypts, the parameters area is each parameter
  -- marshalled, in their order, and neither the TPM nor a session is changed.
  pub cmd_parameters-plain :
      (args : List (Argument Session)) (sess : List Session) (w : W)
      → handles_first (marks args) ≡ true
      → NoDecryption w sess
      → cmd_parameters ops args sess w ≡ (w, marshal_each (parms_of args))
  unfolding cmd_parameters
  cmd_parameters-plain args sess w h k =
      ap (λ n. write_parameters ops args sess n w) (sym (length-parms_of args))
      ∙ write_parameters-each args sess w (parms_of args) h k refl

  -- Where the parameters area of a command with parameters is made, at most one session decrypts,
  -- provided that encrypting changes no session's use.
  pub cmd_parameters-one_decryption :
      (args : List (Argument Session)) (sess : List Session) (w w' : W) (b : List ℕ) (n : ℕ)
      → KeepsUse
      → parameter_count args ≡ suc n
      → cmd_parameters ops args sess w ≡ (w', ok b)
      → decryptions w sess ≤ 1
  unfolding cmd_parameters write_parameters
  cmd_parameters-one_decryption args sess w w' b n keeps e h =
      let h' = rw e at h in
      let (p, m, f) = continue-lift w (marshal_parameter args 0) _ h' in
      let (w₁, q, g, rest) = continue-eq-ok (encrypt_first ops sess false p w) _ f in
      encrypt_first-unused keeps sess p w w₁ q g
