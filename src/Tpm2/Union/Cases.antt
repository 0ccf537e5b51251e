-- ===== src/Tpm2/Union/Cases.antt =====
-- `create` and `get` of every union have the same cases.
use text.Mathlib.Text.{◌==◌ as str_eq}
use mathlib.Core.Path.{subst}
use mathlib.Core.Bool.{false≢true}
use go_tpm.Base.{
  ◌⊎◌, ℕ, String, ◌≡◌, ◌≢◌, refl, ap, ◌∙◌, sym, Bool, true, false, not, ◌&&◌, List, [], ◌∷◌, some,
  ◌==◌, ==_iff, ==_refl, ==_ne, if◌then◌else◌, get_elem?, all_hold, all_hold-get_elem?, arith,
  Bool-cases, Option-cases, inl, inr,
}
use go_tpm.Base.Outcome.{ok, err, panic}
use go_tpm.Tpm2.Fault.{incorrect_union_tag}
use go_tpm.Tpm2.Union.{UnionType, UnionValue, find_case, create, get, accepts}
use go_tpm.Tpm2.Union.Accessors.{set_contents-ok}
use go_tpm.Tpm2.Union.Tables.{unions}

-- The type read for a selector is the type created for it.
abbrev got_as : List (ℕ × String) → ℕ × String → Bool
got_as cases (h, t) = accepts t (find_case h cases)

cases_agree : UnionType → Bool
cases_agree u = all_hold (got_as u.got) u.created

all_agree : all_hold cases_agree unions ≡ true
unfolding cases_agree
all_agree = refl

and_true : (a b : Bool) → (a && b) ≡ true → (a ≡ true) × (b ≡ true)
and_true true b h = (refl, h)
and_true false b h = absurd (ground (arith, h))

find_case-holds :
    (p : ℕ × String → Bool) (hint : ℕ) (t : String) (cases : List (ℕ × String))
    → all_hold p cases ≡ true
    → find_case hint cases ≡ some t
    → p (hint, t) ≡ true
find_case-holds p hint t [] h e = absurd (cc)
find_case-holds p hint t ((h', t') ∷ cases) h e = elim (Bool-cases (hint == h')) [
  | inl same ↦
      let here : some t' ≡ some t =
        ap (λ b. if b then some t' else find_case hint cases) (sym same) ∙ e in
      let types : t' ≡ t = cc in
      subst (λ s. p (hint, s) ≡ true) types
        (subst (λ i. p (i, t') ≡ true) (sym ((==_iff hint h').0 same)) (and_true _ _ h).0)
  | inr other ↦
      find_case-holds p hint t cases (and_true _ _ h).1
        (ap (λ b. if b then some t' else find_case hint cases) (sym other) ∙ e)
]

module _ {A : Type 0} (zero a : A) where
  get-set_contents :
      (u : UnionType) (hint : ℕ) (t : String)
      → accepts t (find_case hint u.got) ≡ true
      → get u zero (record { selector = hint; contents = some (t, a) }) hint ≡ ok a
  unfolding get
  get-set_contents u hint t h = elim (Option-cases (find_case hint u.got)) [
    | inl e ↦ absurd (ground (arith, h, ap (accepts t) e))
    | inr (t', e) ↦
        let same : str_eq t t' ≡ true = ap (accepts t) (sym e) ∙ h in
        rw (e, ==_refl hint) (closing (hint == 0) (str_eq t t') same)
  ]
    where
      closing :
          (b c : Bool)
          → c ≡ true
          → (if not b && false then err incorrect_union_tag else (if c then ok a else panic)) ≡ ok a
      closing true c e = rw e
      closing false c e = rw e

  other_tag :
      (u : UnionType) (hint : ℕ) (t : String) (other : ℕ)
      → other ≢ hint
      → hint ≢ 0
      → get u zero (record { selector = hint; contents = some (t, a) }) other
        ≡ err incorrect_union_tag
  unfolding get
  other_tag u hint t other ne nonzero = rw (==_ne hint 0 nonzero, ==_ne other hint ne)

-- A union of any type that has been unmarshalled for a selector gives its contents back when it is
-- marshalled for that selector, and is an incorrect tag for any other selector, if it has not been
-- unmarshalled for the selector 0.
pub get-create :
    {A : Type 0} (k hint other : ℕ) (u : UnionType) (zero a : A) (v : UnionValue A)
    → get_elem? unions k ≡ some u
    → create u hint a ≡ ok v
    → (other ≡ hint) ⊎ (hint ≢ 0)
    → get u zero v other ≡ (if other == hint then ok a else err incorrect_union_tag)
unfolding create cases_agree
get-create k hint other u zero a v known made asked =
    let (t, found, new) = set_contents-ok hint a (find_case hint u.created) v made in
    let agreed = all_hold-get_elem? cases_agree unions k all_agree known in
    let same = find_case-holds (got_as u.got) hint t u.created agreed found in
    subst (λ w. get u zero w other ≡ (if other == hint then ok a else err incorrect_union_tag)) new
      (elim (Bool-cases (other == hint)) [
        | inl e ↦ rw e (
            subst (λ o. get u zero (record { selector = hint; contents = some (t, a) }) o ≡ ok a)
              (sym ((==_iff other hint).0 e)) (get-set_contents zero a u hint t same))
        | inr e ↦ rw e (other_tag zero a u hint t other (ne e) (nonzero e asked))
      ])
  where
    ne : other == hint ≡ false → other ≢ hint
    ne e h = false≢true (sym e ∙ (==_iff other hint).1 h)

    nonzero : other == hint ≡ false → (other ≡ hint) ⊎ (hint ≢ 0) → hint ≢ 0
    nonzero e (inl h) = absurd (ne e h)
    nonzero e (inr h) = h
