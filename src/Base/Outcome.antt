-- ===== src/Base/Outcome.antt =====
-- The outcome of a Go function that returns a value and an error, or panics.
use mathlib.Core.Path.{◌≡◌, refl}

pub data Result {ℓ} (E A : Type ℓ) : Type ℓ where
  ok : A → Result E A
  err : E → Result E A
  panic : Result E A

-- The next step runs on a value; an error or a panic is passed on.
infixl 5 ◌>>=◌ ◌>>◌
abbrev pub ◌>>=◌ {ℓ} : {E A B : Type ℓ} (first : Result E A) (next : A → Result E B) → Result E B
panic >>= next = panic
err fault >>= next = err fault
ok value >>= next = next value

abbrev pub ◌>>◌ {ℓ} : {E A B : Type ℓ} (first : Result E A) (next : Result E B) → Result E B
first >> next = first >>= λ value. next

-- Steps that end in a value begin with one.
pub >>=-eq-ok {ℓ} :
    {E A B : Type ℓ} (first : Result E A) (next : A → Result E B) {result : B}
    → (first >>= next) ≡ ok result
    → (value : A) × (first ≡ ok value) × (next value ≡ ok result)
>>=-eq-ok panic next ended = cc
>>=-eq-ok (err fault) next ended = cc
>>=-eq-ok (ok value) next ended = (value, refl, ended)

-- A chain of two steps and a third is one chain.
pub >>=_assoc {ℓ} :
    {E A B C D : Type ℓ} (m : Result E A) (n : Result E B) (f : A → B → Result E C)
    (g : C → Result E D)
    → ((m >>= λ a. n >>= f a) >>= g) ≡ (m >>= λ a. n >>= λ b. f a b >>= g)
>>=_assoc (ok a) (ok b) f g = refl
>>=_assoc (ok a) (err e) f g = refl
>>=_assoc (ok a) panic f g = refl
>>=_assoc (err e) n f g = refl
>>=_assoc panic n f g = refl
