-- ===== src/Base/Search.antt =====
-- Tests on the members of a list.
use Prim.Native.Nat.{ℕ, zero, suc}
use mathlib.Core.Bool.{Bool, true, false, not, ◌&&◌}
use mathlib.Core.Option.{some}
use mathlib.Core.Path.{◌≡◌}
use native.Mathlib.Omega.{arith}
use mathlib.Core.List.{List, [], ◌∷◌}
use go_tpm.Base.Lists.{get_elem?}
use go_tpm.Base.Tests.{◌==◌, if◌then◌else◌}

abbrev pub is_among : ℕ → List ℕ → Bool
is_among x [] = false
is_among x (y ∷ ys) = if x == y then true else is_among x ys

abbrev pub all_distinct : List ℕ → Bool
all_distinct [] = true
all_distinct (x ∷ xs) = not (is_among x xs) && all_distinct xs

abbrev pub all_hold : {A : Type 0} → (A → Bool) → List A → Bool
all_hold p [] = true
all_hold p (x ∷ xs) = p x && all_hold p xs

pub all_hold-get_elem? :
    {A : Type 0} (p : A → Bool) (xs : List A) (i : ℕ) {x : A}
    → all_hold p xs ≡ true
    → get_elem? xs i ≡ some x
    → p x ≡ true
all_hold-get_elem? p [] i h e = absurd (cc)
all_hold-get_elem? p (y ∷ xs) zero h e = ground arith
all_hold-get_elem? p (y ∷ xs) (suc i) h e = all_hold-get_elem? p xs i (ground (arith, h)) e
