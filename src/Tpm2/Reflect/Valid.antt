-- ===== src/Tpm2/Reflect/Valid.antt =====
-- The values of a described type that survive the wire, and what they come back as.
use text.Mathlib.Text.{◌==◌ as str_eq}
use go_tpm.Base.{
  ℕ, ◌+◌, ◌-◌, ◌*◌, ◌^◌, ◌≤◌, ◌<◌, ◌≡◌, ◌≢◌, ◌⊎◌, inl, inr, String, Bool, true, false, not, ◌&&◌,
  ◌||◌, leb, List, [], ◌∷◌, Option, none, some, map, ◌==◌, if◌then◌else◌, length, All,
}
use go_tpm.Base.Bits.{bit}
use go_tpm.Base.Bytes.{IsByte}
use go_tpm.Base.Outcome.{ok}
use go_tpm.Tpm2.Fault.{Res}
use go_tpm.Tpm2.Reflect.Types.{
  Tags, BitField, BitStruct, Ty, Fields, Members, El, Els, Choice, w16, w32, size_of, boolean, num,
  bytes, slice, array, ptr, struct, bits, sized_2b, no_fields, field, union, no_members, member,
}
use go_tpm.Tpm2.Reflect.Selectors.{Selectors, selectors, lookup, alg_null, rh_null}
use go_tpm.Tpm2.Reflect.Marshal.{bytes_2b, marshal}
use go_tpm.Tpm2.Reflect.Unmarshal.{max_list_length}

-- No field of the struct has this name.
abbrev pub Fresh : String → Fields → Type 0
Fresh x no_fields = Unit
Fresh x (field y tags t fs) = (str_eq x y ≡ false) × Fresh x fs
Fresh x (union tag ms fs) = Fresh x fs

-- The fields have different names.
abbrev pub Distinct : Fields → Type 0
Distinct no_fields = Unit
Distinct (field x tags t fs) = Fresh x fs × Distinct fs
Distinct (union tag ms fs) = Distinct fs

-- The numbers that have been read, latest first, and whether a union may be tagged with each. A
-- nullable number of other than 16 bits selects TPM_ALG_NULL and is read back as something else.
abbrev pub Known : Type 0
Known = List (String × Bool)

abbrev pub knows : String → Known → Bool
knows x [] = false
knows x ((y, b) ∷ ks) = if str_eq y x then b else knows x ks

abbrev pub add_known : String → Tags → Ty → Known → Known
add_known x tags (num w16) ks = (x, true) ∷ ks
add_known x tags (num w) ks = (x, not tags.nullable) ∷ ks
add_known x tags _ ks = ks

-- A list in a struct has its length in front, or, a list of bytes, its size.
abbrev pub ByteField : Tags → (t : Ty) → El t → Type 0
ByteField tags bytes xs =
    (tags.list ≡ false)
    × (((tags.sized ≡ true) × (tags.sized8 ≡ false) × (length xs ≤ max_list_length))
        ⊎ ((tags.sized ≡ false) × (tags.sized8 ≡ true) × (length xs < 256)))
    × All IsByte xs
ByteField tags _ v = ⊥

abbrev pub not_sized : Tags → Bool
not_sized tags = not tags.sized && not tags.sized8

abbrev pub in_range : Tags → Bool
in_range tags = not tags.skip && not tags.optional

-- How many bits of a field's value are written.
abbrev pub field_bits : BitField → ℕ
field_bits f = elim f.width [ none ↦ 1 | some w ↦ 8 * size_of w ]

abbrev pub in_fields : List BitField → ℕ → Bool
in_fields [] p = false
in_fields (f ∷ fs) p = (leb f.low p && leb p f.high) || in_fields fs p

-- The fields ascend from bit `from` to below bit `n`, and each value fits in its field.
abbrev pub FieldsFit : ℕ → ℕ → List BitField → List ℕ → Type 0
FieldsFit n from [] [] = Unit
FieldsFit n from (f ∷ fs) (v ∷ vs) =
    (from ≤ f.low)
    × (f.low ≤ f.high)
    × (f.high < n)
    × (f.high - f.low + 1 ≤ field_bits f)
    × (v < 2 ^ (f.high - f.low + 1))
    × FieldsFit n (f.high + 1) fs vs
FieldsFit n from _ _ = ⊥

-- No reserved bit is set where a field is.
abbrev pub ValidBits : ℕ → List BitField → BitStruct → Type 0
ValidBits n fs v =
    FieldsFit (8 * n) 0 fs v.fields
    × (v.reserved < 2 ^ (8 * n))
    × ((p : ℕ) → in_fields fs p ≡ true → bit p v.reserved ≡ 0)

-- The selector is TPM_ALG_NULL, or the one of the member that the union is set to.
abbrev pub ValidUnion : {A : Type 0} → Option ℕ → Option A → (ℕ → A → Type 0) → Type 0
ValidUnion none c P = ⊥
ValidUnion (some h) none P = h ≡ alg_null
ValidUnion (some h) (some c) P = (h ≡ alg_null) ⊎ ((h ≢ alg_null) × P h c)

abbrev mutual
  pub Valid : (t : Ty) → El t → Type 0
  Valid boolean b = Unit
  Valid (num w) n = n < 256 ^ size_of w
  Valid bytes xs = ⊥
  Valid (slice t) xs = ⊥
  Valid (array n t) xs = (length xs ≡ n) × All (Valid t) xs
  Valid (ptr t) v = ⊥
  Valid (struct fs) vs = Distinct fs × ValidFields fs (selectors fs vs) [] vs
  Valid (bits n bs) v = ValidBits n bs v
  Valid (sized_2b t) v = (b : List ℕ) × (bytes_2b (marshal t) v ≡ ok b) × (length b < 2 ^ 16)

  -- `known` holds the names of the numbers that have been read.
  pub ValidFields : (fs : Fields) → Selectors → Known → Els fs → Type 0
  ValidFields no_fields env known vs = Unit
  ValidFields (field x tags t fs) env known (v, vs) =
      (in_range tags ≡ true)
      × (((tags.list ≡ false) × (not_sized tags ≡ true) × Valid t v)
          ⊎ ByteField tags t v
          ⊎ ValidList tags t v)
      × ValidFields fs env (add_known x tags t known) vs
  ValidFields (union tag ms fs) env known (c, vs) =
      (knows tag known ≡ true)
      × ValidUnion (lookup tag env) c (ValidChoice ms)
      × ValidFields fs env known vs

  pub ValidList : Tags → (t : Ty) → El t → Type 0
  ValidList tags (slice t) xs =
      (tags.list ≡ true)
      × (not_sized tags ≡ true)
      × (length xs ≤ max_list_length)
      × All (Valid t) xs
  ValidList tags boolean v = ⊥
  ValidList tags (num w) v = ⊥
  ValidList tags bytes v = ⊥
  ValidList tags (array n t) v = ⊥
  ValidList tags (ptr t) v = ⊥
  ValidList tags (struct fs) v = ⊥
  ValidList tags (bits n bs) v = ⊥
  ValidList tags (sized_2b t) v = ⊥

  pub ValidChoice : (ms : Members) → ℕ → Choice ms → Type 0
  ValidChoice no_members h c = ⊥
  ValidChoice (member k t ms) h (inl v) = (h ≡ k) × Valid t v
  ValidChoice (member k t ms) h (inr c) = (h ≢ k) × ValidChoice ms h c

-- The bytes of a successful write.
abbrev pub written : Res (List ℕ) → List ℕ
written (ok b) = b
written _ = []

-- A zero-valued nullable number comes back as TPM_RH_NULL or TPM_ALG_NULL.
abbrev pub null_or : Tags → (t : Ty) → El t → El t
null_or tags (num w32) v = if v == 0 && tags.nullable then rh_null else v
null_or tags (num w16) v = if v == 0 && tags.nullable then alg_null else v
null_or tags _ v = v

-- A union whose selector is TPM_ALG_NULL comes back unset.
abbrev pub selected : {A : Type 0} → Option ℕ → Option A → Option A
selected none c = c
selected (some h) c = if h == alg_null then none else c

abbrev pub map_option : {A B : Type 0} → (A → B) → Option A → Option B
map_option f none = none
map_option f (some a) = some (f a)

-- The value that comes back: a TPM2B comes back as its bytes.
unfoldable mutual
  pub settle : (t : Ty) → El t → El t
  settle boolean b = b
  settle (num w) n = n
  settle bytes xs = xs
  settle (slice t) xs = map (settle t) xs
  settle (array n t) xs = map (settle t) xs
  settle (ptr t) v = v
  settle (struct fs) vs = settle_fields fs (selectors fs vs) vs
  settle (bits n bs) v = v
  settle (sized_2b t) v = record {
    contents = none;
    buffer = some (written (bytes_2b (marshal t) v));
  }

  pub settle_fields : (fs : Fields) → Selectors → Els fs → Els fs
  settle_fields no_fields env vs = tt
  settle_fields (field x tags t fs) env (v, vs) =
      (null_or tags t (settle t v), settle_fields fs env vs)
  settle_fields (union tag ms fs) env (c, vs) =
      (selected (lookup tag env) (map_option (settle_choice ms) c), settle_fields fs env vs)

  pub settle_choice : (ms : Members) → Choice ms → Choice ms
  settle_choice no_members c = c
  settle_choice (member k t ms) (inl v) = inl (settle t v)
  settle_choice (member k t ms) (inr c) = inr (settle_choice ms c)
