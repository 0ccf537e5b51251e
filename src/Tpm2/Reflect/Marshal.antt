-- ===== src/Tpm2/Reflect/Marshal.antt =====
-- `marshal` and the functions that it calls. What is written to the buffer is returned.
use go_tpm.Base.{
  ℕ, Bool, true, false, ◌&&◌, List, [], ◌∷◌, ◌++◌, Option, none, some, inl, inr, ◌==◌,
  if◌then◌else◌, length, replicate,
}
use go_tpm.Base.Bytes.{put_be}
use go_tpm.Base.Outcome.{ok, err, panic, ◌>>=◌}
use go_tpm.Tpm2.Fault.{Res, tag_not_numeric, incorrect_union_tag, no_union_member}
use go_tpm.Tpm2.Reflect.Types.{
  Tags, Ty, Fields, Members, El, Els, Choice, Sized2B, w8, w16, w32, w64, size_of, boolean, num,
  bytes, slice, array, ptr, struct, bits, sized_2b, no_fields, field, union, no_members, member,
}
use go_tpm.Tpm2.Reflect.Selectors.{Selectors, selectors, lookup, alg_null, rh_null}
use go_tpm.Tpm2.Reflect.Bitwise.{marshal_bitwise}

-- Go's zero value of a type.
unfoldable mutual
  pub zero_value : (t : Ty) → El t
  zero_value boolean = false
  zero_value (num w) = 0
  zero_value bytes = []
  zero_value (slice t) = []
  zero_value (array n t) = replicate n (zero_value t)
  zero_value (ptr t) = none
  zero_value (struct fs) = zero_values fs
  zero_value (bits n bs) = record { fields = replicate (length bs) 0; reserved = 0 }
  zero_value (sized_2b t) = record { contents = none; buffer = none }

  pub zero_values : (fs : Fields) → Els fs
  zero_values no_fields = tt
  zero_values (field x tags t fs) = (zero_value t, zero_values fs)
  zero_values (union tag ms fs) = (none, zero_values fs)

-- `Marshal`: an error is a panic.
abbrev pub must : Res (List ℕ) → Res (List ℕ)
must (ok b) = ok b
must (err e) = panic
must panic = panic

module _ {A : Type 0} where
  unfoldable pub marshal_array : (A → Res (List ℕ)) → List A → Res (List ℕ)
  marshal_array f [] = ok []
  marshal_array f (x ∷ xs) = do b ← f x; bs ← marshal_array f xs; ok (b ++ bs)

  -- `TPM2B.Bytes`
  unfoldable pub bytes_2b : (A → Res (List ℕ)) → Sized2B A → Res (List ℕ)
  bytes_2b f v = elim v.buffer [
    | some b ↦ ok b
    | none ↦ elim v.contents [ none ↦ ok [] | some c ↦ must (f c) ]
  ]

-- `TPM2B.marshal`
abbrev pub with_size16 : List ℕ → List ℕ
with_size16 b = put_be 2 (length b) ++ b

-- The 4 bytes of a `list` field. `Len` panics on a value that is no list.
abbrev pub list_prefix : Tags → (t : Ty) → El t → Res (List ℕ)
list_prefix tags bytes xs = ok (if tags.list then put_be 4 (length xs) else [])
list_prefix tags (slice t) xs = ok (if tags.list then put_be 4 (length xs) else [])
list_prefix tags (array n t) xs = ok (if tags.list then put_be 4 (length xs) else [])
list_prefix tags _ v = if tags.list then panic else ok []

-- A zero-valued nullable field of 32 or 16 bits is written as TPM_RH_NULL or TPM_ALG_NULL.
unfoldable pub nullable_form : Tags → (t : Ty) → El t → Option (List ℕ)
nullable_form tags (num w32) v = if v == 0 && tags.nullable then some (put_be 4 rh_null) else none
nullable_form tags (num w16) v = if v == 0 && tags.nullable then some (put_be 2 alg_null) else none
nullable_form tags (num w8) v = none
nullable_form tags (num w64) v = none
nullable_form tags _ v = none

abbrev pub is_nil : (t : Ty) → El t → Bool
is_nil (ptr t) none = true
is_nil (ptr t) (some v) = false
is_nil _ v = false

-- The size in front of a field's bytes, cut to its width.
abbrev pub add_sizes : Tags → List ℕ → List ℕ
add_sizes tags res =
    (if tags.sized then put_be 2 (length res) else [])
    ++ ((if tags.sized8 then put_be 1 (length res) else []) ++ res)

-- The value of a field; `body` is what `marshal` does with it.
abbrev pub marshal_body : Tags → (t : Ty) → El t → Res (List ℕ) → Res (List ℕ)
marshal_body tags t v body = elim (nullable_form tags t v) [
  | some b ↦ ok b
  | none ↦ if tags.optional && is_nil t v then ok (0 ∷ 0 ∷ []) else body
]

-- One field: the list's length, the value and the sizes in front.
abbrev pub marshal_field : Tags → (t : Ty) → El t → Res (List ℕ) → Res (List ℕ)
marshal_field tags t v body = do
  p ← list_prefix tags t v
  res ← marshal_body tags t v body
  ok (add_sizes tags (p ++ res))

-- A union's part of `marshalStruct`, by its selector: nothing is written for TPM_ALG_NULL.
abbrev pub marshal_tagged : Option ℕ → (ℕ → Res (List ℕ)) → Res (List ℕ)
marshal_tagged none write = err tag_not_numeric
marshal_tagged (some h) write = if h == alg_null then ok [] else write h

unfoldable mutual
  pub marshal : (t : Ty) → El t → Res (List ℕ)
  marshal boolean b = ok ((if b then 1 else 0) ∷ [])
  marshal (num w) n = ok (put_be (size_of w) n)
  marshal bytes xs = marshal_array (λ b. ok (put_be 1 b)) xs
  marshal (slice t) xs = marshal_array (marshal t) xs
  marshal (array n t) xs = marshal_array (marshal t) xs
  marshal (ptr t) none = panic
  marshal (ptr t) (some v) = marshal t v
  marshal (struct fs) vs = marshal_fields fs (selectors fs vs) vs
  marshal (bits n bs) v = marshal_bitwise n bs v
  marshal (sized_2b t) v = do b ← bytes_2b (marshal t) v; ok (with_size16 b)

  pub marshal_fields : (fs : Fields) → Selectors → Els fs → Res (List ℕ)
  marshal_fields no_fields env vs = ok []
  marshal_fields (field x tags t fs) env (v, vs) = do
    b ← if tags.skip then ok [] else marshal_field tags t v (marshal t v)
    bs ← marshal_fields fs env vs
    ok (b ++ bs)
  marshal_fields (union tag ms fs) env (c, vs) = do
    b ← marshal_tagged (lookup tag env) (λ h. marshal_choice ms h c)
    bs ← marshal_fields fs env vs
    ok (b ++ bs)

  -- A union's `get`, and the marshalling of the member that it returns. An unset union gives the
  -- member's zero value; a set one only the member of its own selector.
  pub marshal_choice : (ms : Members) → ℕ → Option (Choice ms) → Res (List ℕ)
  marshal_choice no_members h c = err no_union_member
  marshal_choice (member k t ms) h none =
      if h == k then marshal t (zero_value t) else marshal_choice ms h none
  marshal_choice (member k t ms) h (some (inl v)) =
      if h == k then marshal t v else err incorrect_union_tag
  marshal_choice (member k t ms) h (some (inr c)) =
      if h == k then err incorrect_union_tag else marshal_choice ms h (some c)
