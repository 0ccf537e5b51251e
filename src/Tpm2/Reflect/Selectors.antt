-- ===== src/Tpm2/Reflect/Selectors.antt =====
-- The map `possibleSelectors` from the names of a struct's numeric fields to their values.
use text.Mathlib.Text.{◌==◌ as str_eq}
use go_tpm.Base.{ℕ, ◌^◌, ◌-◌, String, ◌&&◌, List, [], ◌∷◌, Option, none, some}
use go_tpm.Base.{◌==◌, leb, if◌then◌else◌}
use go_tpm.Tpm2.Reflect.Types.{
  Tags, Fields, Els, boolean, num, bytes, slice, array, ptr, struct, bits, sized_2b, no_fields,
  field, union,
}

abbrev pub alg_null : ℕ
alg_null = 0x0010

abbrev pub rh_null : ℕ
rh_null = 0x40000007

abbrev pub max_int64 : ℕ
max_int64 = 2 ^ 63 - 1

-- An entry of `none` is a field that is in the struct and not in the map.
abbrev pub Selectors : Type 0
Selectors = List (String × Option ℕ)

unfoldable pub lookup : String → Selectors → Option ℕ
lookup x [] = none
lookup x ((y, o) ∷ env) = if str_eq y x then o else lookup x env

-- A value above MaxInt64 cannot be a selector.
abbrev pub int64_value : ℕ → Option ℕ
int64_value n = if leb n max_int64 then some n else none

-- A zero-valued nullable field selects TPM_ALG_NULL. No union is selected by a field that is not a
-- number, so a nullable field of another kind is left out.
abbrev pub selector_value : Tags → ℕ → Option ℕ
selector_value tags n = if n == 0 && tags.nullable then some alg_null else int64_value n

-- The pass of `marshalStruct` over all fields.
unfoldable pub selectors : (fs : Fields) → Els fs → Selectors
selectors no_fields vs = []
selectors (field x tags (num w) fs) (v, vs) = (x, selector_value tags v) ∷ selectors fs vs
selectors (field x tags boolean fs) (v, vs) = selectors fs vs
selectors (field x tags bytes fs) (v, vs) = selectors fs vs
selectors (field x tags (slice t) fs) (v, vs) = selectors fs vs
selectors (field x tags (array n t) fs) (v, vs) = selectors fs vs
selectors (field x tags (ptr t) fs) (v, vs) = selectors fs vs
selectors (field x tags (struct gs) fs) (v, vs) = selectors fs vs
selectors (field x tags (bits n bs) fs) (v, vs) = selectors fs vs
selectors (field x tags (sized_2b t) fs) (v, vs) = selectors fs vs
selectors (union tag ms fs) (c, vs) = selectors fs vs
