-- ===== src/Tpm2/Union.antt =====
-- tpm2/structures.go: the types of unions, with `create`, `get`, the constructor NewTPMU… and the
-- accessors. `A` stands for the contents, behind a pointer of the named type.
pub mod Tables
pub mod Accessors
pub mod Cases
use text.Mathlib.Text.{◌==◌ as str_eq}
use go_tpm.Base.{
  ℕ, String, Bool, true, false, not, ◌&&◌, List, [], ◌∷◌, Option, none, some, ◌==◌, if◌then◌else◌,
}
use go_tpm.Base.Outcome.{ok, err, panic, ◌>>=◌}
use go_tpm.Tpm2.Fault.{Res, incorrect_union_tag, no_union_member, wrong_union_member}

-- The contents are an interface: nil, or a pointer with its type.
pub record UnionValue (A : Type 0) : Type 0 where
  pub selector : ℕ
  pub contents : Option (String × A)

-- A method that asks for a selector and asserts a type.
pub record Accessor : Type 0 where
  pub name : String
  pub tested : ℕ
  pub asserted : String

-- The cases of `create` and of `get`, by their selectors, and the type that the constructor builds.
pub record UnionType : Type 0 where
  pub name : String
  pub created : List (ℕ × String)
  pub got : List (ℕ × String)
  pub accessors : List Accessor
  pub built : String

abbrev pub find_case : ℕ → List (ℕ × String) → Option String
find_case hint [] = none
find_case hint ((h, t) ∷ cases) = if hint == h then some t else find_case hint cases

-- A value of the type `t` is taken where the case has a type, and the other way round.
abbrev pub accepts : String → Option String → Bool
accepts t none = false
accepts t (some t') = str_eq t t'

abbrev pub made_as : String → Option String → Bool
made_as t none = false
made_as t (some t') = str_eq t' t

module _ {A : Type 0} where
  abbrev pub set_contents : ℕ → A → Option String → Res (UnionValue A)
  set_contents hint a none = err no_union_member
  set_contents hint a (some t) = ok (record { selector = hint; contents = some (t, a) })

  -- `create`, and what the caller then unmarshals into the new contents.
  unfoldable pub create : UnionType → ℕ → A → Res (UnionValue A)
  create u hint a = set_contents hint a (find_case hint u.created)

  -- A type assertion with one result panics on another type, and on nil.
  abbrev pub assert_type : String → Option (String × A) → Res A
  assert_type t none = panic
  assert_type t (some (t', a)) = if str_eq t' t then ok a else panic

  abbrev pub get_contents : Option String → A → Option (String × A) → Res A
  get_contents none zero c = err no_union_member
  get_contents (some t) zero none = ok zero
  get_contents (some t) zero (some c) = assert_type t (some c)

  -- `get`; `zero` is the zero value of the contents, for a union that is not set.
  unfoldable pub get : UnionType → A → UnionValue A → ℕ → Res A
  get u zero v hint =
      if not (v.selector == 0) && not (hint == v.selector)
      then err incorrect_union_tag
      else get_contents (find_case hint u.got) zero v.contents

  -- An accessor.
  unfoldable pub access : Accessor → UnionValue A → Res A
  access acc v =
      if v.selector == acc.tested
      then assert_type acc.asserted v.contents
      else err wrong_union_member

  -- NewTPMU…: neither the selector nor the type is checked.
  abbrev pub new_union : ℕ → String → A → UnionValue A
  new_union selector t a = record { selector = selector; contents = some (t, a) }
