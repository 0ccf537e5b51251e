-- ===== src/Tpm2/Reflect/RoundTrip/Names.antt =====
-- The selectors that `marshalStruct` sees are those that `unmarshalStruct` has read.
use go_tpm.Base.{
  ℕ, ◌≡◌, not, refl, sym, ◌∙◌, inl, inr, String, Bool, true, ◌∷◌, Option, arith, Bool-cases,
}
use text.Mathlib.Text.{◌==◌ as str_eq}
use text.Mathlib.TextEquality.{eq_iff}
use go_tpm.Tpm2.Reflect.Types.{
  Tags, Ty, Fields, El, Els, w8, w16, w32, w64, boolean, num, bytes, slice, array, ptr, struct,
  bits, sized_2b, no_fields, field, union,
}
use go_tpm.Tpm2.Reflect.Selectors.{Selectors, selectors, selector_value, lookup, int64_value}
use go_tpm.Tpm2.Reflect.Unmarshal.{add_selector}
use go_tpm.Tpm2.Reflect.Valid.{Fresh, Distinct, Known, knows, add_known, null_or, settle}

-- Each number of the fields is found in the map under its name.
abbrev pub Found : Selectors → (fs : Fields) → Els fs → Type 0
Found env no_fields vs = Unit
Found env (field x tags (num w) fs) (v, vs) =
    (lookup x env ≡ selector_value tags v) × Found env fs vs
Found env (field x tags boolean fs) (v, vs) = Found env fs vs
Found env (field x tags bytes fs) (v, vs) = Found env fs vs
Found env (field x tags (slice t) fs) (v, vs) = Found env fs vs
Found env (field x tags (array n t) fs) (v, vs) = Found env fs vs
Found env (field x tags (ptr t) fs) (v, vs) = Found env fs vs
Found env (field x tags (struct gs) fs) (v, vs) = Found env fs vs
Found env (field x tags (bits n bs) fs) (v, vs) = Found env fs vs
Found env (field x tags (sized_2b t) fs) (v, vs) = Found env fs vs
Found env (union tag ms fs) (c, vs) = Found env fs vs

Found-Fresh :
    (y : String) (o : Option ℕ) (env : Selectors) (fs : Fields) (vs : Els fs)
    → Fresh y fs
    → Found env fs vs
    → Found ((y, o) ∷ env) fs vs
unfolding lookup
Found-Fresh y o env no_fields vs f h = tt
Found-Fresh y o env (field x tags (num w) fs) (v, vs) (f, fr) (h, hs) =
    (rw f h, Found-Fresh y o env fs vs fr hs)
Found-Fresh y o env (field x tags boolean fs) (v, vs) f h = Found-Fresh y o env fs vs f.1 h
Found-Fresh y o env (field x tags bytes fs) (v, vs) f h = Found-Fresh y o env fs vs f.1 h
Found-Fresh y o env (field x tags (slice t) fs) (v, vs) f h = Found-Fresh y o env fs vs f.1 h
Found-Fresh y o env (field x tags (array n t) fs) (v, vs) f h = Found-Fresh y o env fs vs f.1 h
Found-Fresh y o env (field x tags (ptr t) fs) (v, vs) f h = Found-Fresh y o env fs vs f.1 h
Found-Fresh y o env (field x tags (struct gs) fs) (v, vs) f h = Found-Fresh y o env fs vs f.1 h
Found-Fresh y o env (field x tags (bits n bs) fs) (v, vs) f h = Found-Fresh y o env fs vs f.1 h
Found-Fresh y o env (field x tags (sized_2b t) fs) (v, vs) f h = Found-Fresh y o env fs vs f.1 h
Found-Fresh y o env (union tag ms fs) (c, vs) f h = Found-Fresh y o env fs vs f h

pub selectors-Found : (fs : Fields) (vs : Els fs) → Distinct fs → Found (selectors fs vs) fs vs
unfolding lookup selectors
selectors-Found no_fields vs d = tt
selectors-Found (field x tags (num w) fs) (v, vs) (f, d) = (
  rw ((eq_iff x x).1 refl),
  Found-Fresh x (selector_value tags v) (selectors fs vs) fs vs f (selectors-Found fs vs d),
)
selectors-Found (field x tags boolean fs) (v, vs) d = selectors-Found fs vs d.1
selectors-Found (field x tags _ fs) (v, vs) d = selectors-Found fs vs d.1
selectors-Found (union tag ms fs) (c, vs) d = selectors-Found fs vs d

-- The two maps agree on the known names.
abbrev pub SameOn : Known → Selectors → Selectors → Type 0
SameOn ks env seen = (x : String) → knows x ks ≡ true → lookup x seen ≡ lookup x env

-- What is read back selects what the field selected.
same_value16 :
    (tags : Tags) (v : ℕ) → int64_value (null_or tags (num w16) v) ≡ selector_value tags v
same_value16 tags v = ground arith

same_value :
    (tags : Tags) (v : ℕ) → not tags.nullable ≡ true → int64_value v ≡ selector_value tags v
same_value tags v n = ground arith

same_value32 :
    (tags : Tags) (v : ℕ)
    → not tags.nullable ≡ true
    → int64_value (null_or tags (num w32) v) ≡ selector_value tags v
same_value32 tags v n = ground arith

-- One more entry in front of two maps that agree.
SameOn-cons :
    (x : String) (b : Bool) (o : Option ℕ) (ks : Known) (env seen : Selectors)
    → (b ≡ true → o ≡ lookup x env)
    → SameOn ks env seen
    → SameOn ((x, b) ∷ ks) env ((x, o) ∷ seen)
unfolding lookup
SameOn-cons x b o ks env seen h s y k = elim (Bool-cases (str_eq x y)) [
  | inl e ↦ rw (e, ← (eq_iff x y).0 e) (h (rw e at k))
  | inr e ↦ rw e (s y (rw e at k))
]

-- Reading a field keeps the agreement.
pub SameOn-add :
    (x : String) (tags : Tags) (t : Ty) (fs : Fields) (v : El t) (vs : Els fs) (ks : Known)
    (env seen : Selectors)
    → Found env (field x tags t fs) (v, vs)
    → SameOn ks env seen
    → SameOn (add_known x tags t ks) env (add_selector x t (null_or tags t (settle t v)) seen)
unfolding settle
SameOn-add x tags (num w16) fs v vs ks env seen f s =
    SameOn-cons x true _ ks env seen (λ _. same_value16 tags v ∙ sym f.0) s
SameOn-add x tags (num w8) fs v vs ks env seen f s =
    SameOn-cons x (not tags.nullable) _ ks env seen (λ n. same_value tags v n ∙ sym f.0) s
SameOn-add x tags (num w64) fs v vs ks env seen f s =
    SameOn-cons x (not tags.nullable) _ ks env seen (λ n. same_value tags v n ∙ sym f.0) s
SameOn-add x tags (num w32) fs v vs ks env seen f s =
    SameOn-cons x (not tags.nullable) _ ks env seen (λ n. same_value32 tags v n ∙ sym f.0) s
SameOn-add x tags _ fs v vs ks env seen f s = s

pub Found-tail :
    (env : Selectors) (x : String) (tags : Tags) (t : Ty) (fs : Fields) (v : El t) (vs : Els fs)
    → Found env (field x tags t fs) (v, vs)
    → Found env fs vs
Found-tail env x tags (num w) fs v vs f = f.1
Found-tail env x tags boolean fs v vs f = f
Found-tail env x tags _ fs v vs f = f
