-- ===== src/Tpm2/Execute/Steps.antt =====
-- What a chain of steps that ends in a value went through.
use go_tpm.Base.{◌≡◌, refl}
use go_tpm.Base.Outcome.{ok, err, panic}
use go_tpm.Tpm2.Fault.{Res}
use go_tpm.Tpm2.Execute.Step.{Step, continue, lift}

module _ {W A B : Type 0} where
  pub continue-eq-ok :
      (p : W × Res A) (next : A → Step W B) {w' : W} {b : B}
      → continue p next ≡ (w', ok b)
      → (w₁ : W) × (a : A) × (p ≡ (w₁, ok a)) × (next a w₁ ≡ (w', ok b))
  continue-eq-ok (w₁, ok a) next h = (w₁, a, refl, h)
  continue-eq-ok (w₁, err e) next h = cc
  continue-eq-ok (w₁, panic) next h = cc

  -- A step that changes nothing leaves its value to the next.
  pub continue-lift :
      (w : W) (r : Res A) (next : A → Step W B) {w' : W} {b : B}
      → continue (lift r w) next ≡ (w', ok b)
      → (a : A) × (r ≡ ok a) × (next a w ≡ (w', ok b))
  continue-lift w (ok a) next h = (a, refl, h)
  continue-lift w (err e) next h = cc
  continue-lift w panic next h = cc

module _ {W A : Type 0} where
  pub value_eq : (w w' : W) (a b : A) → lift (ok a) w ≡ (w', ok b) → a ≡ b
  value_eq w w' a b h = cc
