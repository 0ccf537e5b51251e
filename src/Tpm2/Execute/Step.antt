-- ===== src/Tpm2/Execute/Step.antt =====
-- Steps of an execution: they change the TPM and the sessions, and return a value and an error.
use go_tpm.Base.Outcome.{ok, err, panic}
use go_tpm.Tpm2.Fault.{Res}

-- `W` is the state of the TPM and of the session objects.
abbrev pub Step : Type 0 → Type 0 → Type 0
Step W A = W → W × Res A

module _ {W A : Type 0} where
  abbrev pub lift : Res A → Step W A
  lift r w = (w, r)

  abbrev pub continue : {B : Type 0} → W × Res A → (A → Step W B) → W × Res B
  continue (w, ok a) next = next a w
  continue (w, err e) next = (w, err e)
  continue (w, panic) next = (w, panic)

  infixl 5 ◌>>=◌
  abbrev pub ◌>>=◌ : {B : Type 0} → Step W A → (A → Step W B) → Step W B
  (first >>= next) w = continue (first w) next
