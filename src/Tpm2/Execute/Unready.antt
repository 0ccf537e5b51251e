-- ===== src/Tpm2/Execute/Unready.antt =====
-- execute of tpm2/reflect.go when a session cannot be initialised.
use go_tpm.Base.{ℕ, ◌≡◌, refl, false, List, [], ◌∷◌, ◌++◌, ltb, length}
use go_tpm.Base.Outcome.{ok, err}
use go_tpm.Tpm2.Fault.{Fault}
use go_tpm.Tpm2.Command.{ResponseField}
use go_tpm.Tpm2.Command.Arguments.{Argument}
use go_tpm.Tpm2.Execute.Step.{Step}
use go_tpm.Tpm2.Execute.Sessions.{Sessions}
use go_tpm.Tpm2.Execute.Steps.{continue-eq-ok}
use go_tpm.Tpm2.Execute.Run.{init_all, request, execute_with}

module _ {W : Type 0} (ops : Sessions W) where
  open ops use {Session}

  init_all-failed :
      (ss rest : List Session) (s : Session) (w w₁ w₂ : W) (e : Fault)
      → init_all ops ss w ≡ (w₁, ok tt)
      → ops.init s w₁ ≡ (w₂, err e)
      → init_all ops (ss ++ s ∷ rest) w ≡ (w₂, err e)
  unfolding init_all
  init_all-failed [] rest s w w₁ w₂ e ready fails = let same : w ≡ w₁ = cc in rw (same, fails) refl
  init_all-failed (s' ∷ ss) rest s w w₁ w₂ e ready fails =
      let (w', started, e₁, f₁) = continue-eq-ok (ops.init s' w) _ ready in
      let (w'', renewed, e₂, f₂) = continue-eq-ok (ops.new_nonce_caller s' w') _ f₁ in
      rw (e₁, e₂) (init_all-failed ss rest s w'' w₁ w₂ e f₂ fails)

  -- When the sessions before it are initialised and a session is not, execute returns that session's
  -- error at once, in the state that the session's Init leaves: no command is sent, and no session
  -- is cleaned up, those that have been started for this command neither.
  pub execute_with-init_failed :
      (send : List ℕ → Step W (List ℕ)) (cc : ℕ) (args : List (Argument Session))
      (fields : List ResponseField) (ss rest : List Session) (s : Session) (w w₁ w₂ : W) (e : Fault)
      → ltb 3 (length (ss ++ s ∷ rest)) ≡ false
      → init_all ops ss w ≡ (w₁, ok tt)
      → ops.init s w₁ ≡ (w₂, err e)
      → execute_with ops send cc args fields (ss ++ s ∷ rest) w ≡ (w₂, err e)
  unfolding execute_with request
  execute_with-init_failed send cc args fields ss rest s w w₁ w₂ e few ready fails =
      rw (few, init_all-failed ss rest s w w₁ w₂ e ready fails) refl
