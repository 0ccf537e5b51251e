-- ===== src/Tpm2/Reflect/Unmarshal.antt =====
-- `unmarshal` and the functions that it calls, into a zero value. The rest of the buffer is returned.
use go_tpm.Base.{
  ℕ, zero, suc, ◌%◌, ◌^◌, ◌-◌, String, Bool, true, false, not, ◌&&◌, ◌||◌, List, [], ◌∷◌, Option,
  none, some, inl, inr, ◌==◌, ltb, if◌then◌else◌, length, take, drop,
}
use go_tpm.Base.Bytes.{get_be}
use go_tpm.Base.Outcome.{ok, err, panic, ◌>>=◌, ◌>>◌}
use go_tpm.Tpm2.Fault.{
  Res, eof, unexpected_eof, tag_not_numeric, no_union_member, slice_too_long, ran_out_of_sized,
  extra_in_sized, list_not_slice, slice_not_list,
}
use go_tpm.Tpm2.Reflect.Types.{
  Tags, Ty, Fields, Members, El, Els, Choice, size_of, boolean, num, bytes, slice, array, ptr,
  struct, bits, sized_2b, no_fields, field, union, no_members, member,
}
use go_tpm.Tpm2.Reflect.Selectors.{Selectors, lookup, int64_value, alg_null}
use go_tpm.Tpm2.Reflect.Marshal.{zero_value}
use go_tpm.Tpm2.Reflect.Bitwise.{unmarshal_bitwise}

abbrev pub max_list_length : ℕ
max_list_length = 4096

-- `binary.Read` of a number of `w` bytes.
unfoldable pub read_num : ℕ → List ℕ → Res (ℕ × List ℕ)
read_num w b =
    if ltb (length b) w
    then (if length b == 0 then err eof else err unexpected_eof)
    else ok (get_be (take w b), drop w b)

-- `binary.Read` of a size with its error dropped: what there is of the size is used up.
unfoldable pub read_size : ℕ → List ℕ → ℕ × List ℕ
read_size w b = if ltb (length b) w then (0, []) else (get_be (take w b), drop w b)

-- The bytes of a sized field, and what follows them.
unfoldable pub read_sized : ℕ → List ℕ → Res (List ℕ × List ℕ)
unfolding read_size
read_sized w b =
    let (n, rest) = read_size w b in
    if ltb (length rest) n then err ran_out_of_sized else ok (take n rest, drop n rest)

-- `TPM2B.unmarshal`: the size's error is dropped, and `ReadAtLeast` fails on too few bytes.
unfoldable pub read_2b : List ℕ → Res (List ℕ × List ℕ)
unfolding read_size
read_2b b =
    let (n, rest) = read_size 2 b in
    if ltb (length rest) n
    then (if length rest == 0 then err eof else err unexpected_eof)
    else ok (take n rest, drop n rest)

module _ {A : Type 0} where
  unfoldable pub unmarshal_array : ℕ → (List ℕ → Res (A × List ℕ)) → List ℕ → Res (List A × List ℕ)
  unmarshal_array zero f b = ok ([], b)
  unmarshal_array (suc n) f b = do (x, b₁) ← f b; (xs, b₂) ← unmarshal_array n f b₁; ok (x ∷ xs, b₂)

-- The length of a slice is checked before the slice is made.
abbrev pub too_long : ℕ → Bool
too_long n = ltb (2 ^ 31 - 1) n || ltb max_list_length n

abbrev pub is_slice : Ty → Bool
is_slice bytes = true
is_slice (slice t) = true
is_slice _ = false

-- A slice with no `list` tag has bytes for elements.
abbrev pub unlisted_slice : Ty → Bool
unlisted_slice (slice t) = true
unlisted_slice _ = false

-- The checks on a field's tags before anything is read.
abbrev pub check_tags : Tags → Ty → List ℕ → Res (Unit {0})
check_tags tags t b =
    if tags.list && not (is_slice t)
    then err list_not_slice
    else if not tags.list && unlisted_slice t
    then err slice_not_list
    else if tags.optional && ltb (length b) 2
    then panic
    else ok tt

-- The part of the buffer that a field is read from, and what follows that part.
abbrev pub open_sized : Tags → List ℕ → Res (List ℕ × List ℕ)
open_sized tags b = do
  (p, b₁) ← if tags.sized then read_sized 2 b else ok (b, b)
  if tags.sized8 then read_sized 1 b₁ else ok (p, b₁)

-- `left` is what reading the field left of its part.
abbrev pub close_sized : Tags → List ℕ → List ℕ → Res (List ℕ)
close_sized tags left after =
    if tags.sized || tags.sized8
    then (if length left == 0 then ok after else err extra_in_sized)
    else ok left

abbrev pub unmarshal_field :
    {A : Type 0} → Tags → Ty → (List ℕ → Res (A × List ℕ)) → List ℕ → Res (A × List ℕ)
unmarshal_field tags t read b = do
  check_tags tags t b
  (part, after) ← open_sized tags b
  (v, left) ← read part
  rest ← close_sized tags left after
  ok (v, rest)

-- A field read so far joins the map of selectors if it is a number.
abbrev pub add_selector : String → (t : Ty) → El t → Selectors → Selectors
add_selector x (num w) v seen = (x, int64_value v) ∷ seen
add_selector x _ v seen = seen

-- The map before anything is read: all numbers are 0.
unfoldable pub zero_selectors : Fields → Selectors
zero_selectors no_fields = []
zero_selectors (field x tags (num w) fs) = (x, some 0) ∷ zero_selectors fs
zero_selectors (field x tags boolean fs) = zero_selectors fs
zero_selectors (field x tags bytes fs) = zero_selectors fs
zero_selectors (field x tags (slice t) fs) = zero_selectors fs
zero_selectors (field x tags (array n t) fs) = zero_selectors fs
zero_selectors (field x tags (ptr t) fs) = zero_selectors fs
zero_selectors (field x tags (struct gs) fs) = zero_selectors fs
zero_selectors (field x tags (bits n bs) fs) = zero_selectors fs
zero_selectors (field x tags (sized_2b t) fs) = zero_selectors fs
zero_selectors (union tag ms fs) = zero_selectors fs

-- A union's part of `unmarshalStruct`: it stays unset for TPM_ALG_NULL.
abbrev pub unmarshal_tagged :
    {A : Type 0} → Option ℕ → (ℕ → List ℕ → Res (A × List ℕ)) → List ℕ → Res (Option A × List ℕ)
unmarshal_tagged none read b = err tag_not_numeric
unmarshal_tagged (some h) read b =
    if h == alg_null then ok (none, b) else (do (c, rest) ← read h b; ok (some c, rest))

unfoldable mutual
  pub unmarshal : (t : Ty) → List ℕ → Res (El t × List ℕ)
  unmarshal boolean b = do (n, rest) ← read_num 1 b; ok (not (n == 0), rest)
  unmarshal (num w) b = read_num (size_of w) b
  unmarshal bytes b =
      let n = length b % 2 ^ 32 in
      if too_long n then err slice_too_long else unmarshal_array n (read_num 1) b
  unmarshal (slice t) b = do
    (n, rest) ← read_num 4 b
    if too_long n then err slice_too_long else unmarshal_array n (unmarshal t) rest
  unmarshal (array n t) b = unmarshal_array n (unmarshal t) b
  -- the pointer of a zero value is nil
  unmarshal (ptr t) b = panic
  unmarshal (struct fs) b = unmarshal_fields fs (zero_selectors fs) b
  unmarshal (bits n bs) b = unmarshal_bitwise n bs b
  unmarshal (sized_2b t) b = do
    (buffer, rest) ← read_2b b
    ok (record { contents = none; buffer = some buffer }, rest)

  pub unmarshal_fields : (fs : Fields) → Selectors → List ℕ → Res (Els fs × List ℕ)
  unmarshal_fields no_fields seen b = ok (tt, b)
  unmarshal_fields (field x tags t fs) seen b = do
    (v, b₁) ← if tags.skip then ok (zero_value t, b) else unmarshal_field tags t (unmarshal t) b
    (vs, b₂) ← unmarshal_fields fs (add_selector x t v seen) b₁
    ok ((v, vs), b₂)
  unmarshal_fields (union tag ms fs) seen b = do
    (c, b₁) ← unmarshal_tagged (lookup tag seen) (unmarshal_choice ms) b
    (vs, b₂) ← unmarshal_fields fs seen b₁
    ok ((c, vs), b₂)

  -- A union's `create`, and the unmarshalling of the member that it makes.
  pub unmarshal_choice : (ms : Members) → ℕ → List ℕ → Res (Choice ms × List ℕ)
  unmarshal_choice no_members h b = err no_union_member
  unmarshal_choice (member k t ms) h b =
      if h == k
      then (do (v, rest) ← unmarshal t b; ok (inl v, rest))
      else (do (c, rest) ← unmarshal_choice ms h b; ok (inr c, rest))
