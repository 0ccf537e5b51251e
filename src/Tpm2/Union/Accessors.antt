-- ===== src/Tpm2/Union/Accessors.antt =====
-- Which accessors return the contents of a union that has been unmarshalled.
use text.Mathlib.Text.{◌==◌ as str_eq}
use go_tpm.Base.{
  ℕ, String, ◌≡◌, ◌≢◌, refl, ap, ◌∙◌, sym, arith, Bool, true, false, not, List, [], ◌∷◌, Option,
  none, some, ◌==◌, ==_iff, if◌then◌else◌, get_elem?, all_hold, all_hold-get_elem?, Bool-cases, inl,
  inr,
}
use mathlib.Core.Path.{subst}
use go_tpm.Base.Outcome.{ok, err, panic}
use go_tpm.Tpm2.Fault.{Res, wrong_union_member}
use go_tpm.Tpm2.Union.{
  UnionType, UnionValue, Accessor, find_case, set_contents, create, access, made_as,
}
use go_tpm.Tpm2.Union.Tables.{unions}

-- The accessors that ask for the selector of another member, or of another union.
abbrev pub wrong_accessors : List (String × String)
wrong_accessors =
    ("TPMUCapabilities", "ACTData")
    ∷ ("TPMUKDFScheme", "KDF1SP80056A")
    ∷ ("TPMUKDFScheme", "KDF2")
    ∷ ("TPMUKDFScheme", "KDF1SP800108")
    ∷ ("TPMUKDFScheme", "RSA")
    ∷ ("TPMUKDFScheme", "ECC")
    ∷ ("TPMUKDFScheme", "Bits")
    ∷ ("TPMUKDFScheme", "Sym")
    ∷ ("TPMUAsymScheme", "ECDH")
    ∷ []

abbrev pub is_listed : String → String → List (String × String) → Bool
is_listed u a [] = false
is_listed u a ((u', a') ∷ xs) =
    if str_eq u u' then (if str_eq a a' then true else is_listed u a xs) else is_listed u a xs

abbrev pub is_wrong : UnionType → Accessor → Bool
is_wrong u acc = is_listed u.name acc.name wrong_accessors

-- The case of the tested selector has the asserted type.
abbrev is_sound : UnionType → Accessor → Bool
is_sound u acc = made_as acc.asserted (find_case acc.tested u.created)

abbrev same : Bool → Bool → Bool
same true b = b
same false b = not b

agrees : UnionType → Accessor → Bool
agrees u acc = same (is_wrong u acc) (not (is_sound u acc))

all_agree : all_hold (λ u. all_hold (agrees u) u.accessors) unions ≡ true
unfolding agrees
all_agree = refl

pub set_contents-ok :
    {A : Type 0} (hint : ℕ) (a : A) (o : Option String) (v : UnionValue A)
    → set_contents hint a o ≡ ok v
    → (t : String) × (o ≡ some t) × (record { selector = hint; contents = some (t, a) } ≡ v)
set_contents-ok hint a none v made = absurd (cc)
set_contents-ok hint a (some t) v made = (t, refl, cc)

module _ {A : Type 0} (acc : Accessor) (hint : ℕ) (a : A) where
  -- What an accessor returns on contents of a type.
  abbrev read_as : String → Res A
  read_as t =
      if hint == acc.tested
      then (if str_eq t acc.asserted then ok a else panic)
      else err wrong_union_member

  access-set_contents :
      (o : Option String) (v : UnionValue A)
      → set_contents hint a o ≡ ok v
      → (t : String) × (o ≡ some t) × (access acc v ≡ read_as t)
  unfolding access
  access-set_contents o v made =
      let (t, found, new) = set_contents-ok hint a o v made in
      (t, found, subst (λ w. access acc w ≡ read_as t) new refl)

table_agrees :
    (k i : ℕ) (u : UnionType) (acc : Accessor)
    → get_elem? unions k ≡ some u
    → get_elem? u.accessors i ≡ some acc
    → same (is_wrong u acc) (not (is_sound u acc)) ≡ true
unfolding agrees
table_agrees k i u acc known has =
    all_hold-get_elem? (agrees u) u.accessors i
      (all_hold-get_elem? (λ w. all_hold (agrees w) w.accessors) unions k all_agree known) has

both_false : (a b : Bool) → same a (not b) ≡ true → a ≡ false → b ≡ true
both_false a b h e = ground (arith, h, e)

both_true : (a b : Bool) → same a (not b) ≡ true → a ≡ true → b ≡ false
both_true a b h e = ground (arith, h, e)

-- The type of the case that is read, by the test of the accessor's type.
type_read :
    (u : UnionType) (acc : Accessor) (hint : ℕ) (t : String) (b : Bool)
    → find_case hint u.created ≡ some t
    → is_sound u acc ≡ b
    → (hint == acc.tested) ≡ true
    → str_eq t acc.asserted ≡ b
type_read u acc hint t b found sound e =
    let here : find_case acc.tested u.created ≡ some t =
      ap (λ h. find_case h u.created) (sym ((==_iff hint acc.tested).0 e)) ∙ found in
    sym (ap (made_as acc.asserted) here) ∙ sound

-- Every accessor of every union but the wrong ones returns, on a union that has been unmarshalled
-- for a selector, the contents if it asks for this selector, and an error otherwise: it never
-- panics.
pub access-create :
    {A : Type 0} (k i hint : ℕ) (u : UnionType) (acc : Accessor) (a : A) (v : UnionValue A)
    → get_elem? unions k ≡ some u
    → get_elem? u.accessors i ≡ some acc
    → is_wrong u acc ≡ false
    → create u hint a ≡ ok v
    → access acc v ≡ (if hint == acc.tested then ok a else err wrong_union_member)
unfolding create
access-create k i hint u acc a v known has right made =
    let (t, found, reads) = access-set_contents acc hint a (find_case hint u.created) v made in
    let sound = both_false _ (is_sound u acc) (table_agrees k i u acc known has) right in
    elim (Bool-cases (hint == acc.tested)) [
      | inl e ↦ reads ∙ rw (e, type_read u acc hint t true found sound e)
      | inr e ↦ reads ∙ rw e
    ]

-- Each wrong accessor returns the contents of no union that has been unmarshalled.
pub access-wrong :
    {A : Type 0} (k i hint : ℕ) (u : UnionType) (acc : Accessor) (a b : A) (v : UnionValue A)
    → get_elem? unions k ≡ some u
    → get_elem? u.accessors i ≡ some acc
    → is_wrong u acc ≡ true
    → create u hint a ≡ ok v
    → access acc v ≢ ok b
unfolding create
access-wrong k i hint u acc a b v known has wrong made got =
    let (t, found, reads) = access-set_contents acc hint a (find_case hint u.created) v made in
    let unsound = both_true _ (is_sound u acc) (table_agrees k i u acc known has) wrong in
    elim (Bool-cases (hint == acc.tested)) [
      | inl e ↦ never_panic (sym got ∙ reads ∙ rw (e, type_read u acc hint t false found unsound e))
      | inr e ↦ never_err (sym got ∙ reads ∙ rw e)
    ]
  where
    never_panic : {A : Type 0} {b : A} → ◌≡◌ {A = Res A} (ok b) panic → ⊥
    never_panic e = cc

    never_err : {A : Type 0} {b : A} → ◌≡◌ {A = Res A} (ok b) (err wrong_union_member) → ⊥
    never_err e = cc
