-- ===== src/Tpm2/Reflect/RoundTrip/Fields.antt =====
-- The fields of a struct: sizes, list lengths and nullable numbers.
use go_tpm.Base.{
  ℕ, ◌/◌, ◌%◌, ◌^◌, ◌≤◌, ◌≡◌, refl, inl, inr, Bool, true, false, ◌&&◌, List, [], ◌∷◌, ◌++◌,
  append_assoc, append-nil, none, some, ◌==◌, if◌then◌else◌, length, All, arith,
}
use go_tpm.Base.Bytes.{IsByte, put_be}
use go_tpm.Base.Outcome.{ok}
use go_tpm.Tpm2.Fault.{Res}
use go_tpm.Tpm2.Reflect.Types.{Tags, Ty, El, w16, w32, num, bytes, slice, ptr}
use go_tpm.Tpm2.Reflect.Selectors.{alg_null, rh_null}
use go_tpm.Tpm2.Reflect.Marshal.{
  marshal, marshal_array, nullable_form, marshal_body, marshal_field, list_prefix,
}
use go_tpm.Tpm2.Reflect.Unmarshal.{
  read_num, unmarshal_array, unmarshal, unmarshal_field, unlisted_slice, too_long, max_list_length,
}
use go_tpm.Tpm2.Reflect.Valid.{in_range, not_sized, null_or, settle, ByteField}
use go_tpm.Tpm2.Reflect.RoundTrip.Parts.{
  Agree, num-Agree, read_num-put_be, bytes-Agree, read_sized-put_be,
}

-- A nullable number: its null form, or what `marshal` wrote.
either :
    {A : Type 0} (c o x : Bool) (form : List ℕ) (body : Res (List ℕ))
    (read : List ℕ → Res (A × List ℕ)) (k n : A)
    → o ≡ false
    → Agree (ok form) read k
    → Agree body read n
    → Agree
        (elim (if c then some form else none) [
          | some b ↦ ok b
          | none ↦ if o && x then ok (0 ∷ 0 ∷ []) else body
        ])
        read
        (if c then k else n)
either true o x form body read k n e a b = a
either false true x form body read k n e a b = cc
either false false x form body read k n e a b = b

no_option :
    {A : Type 0} (o x : Bool) (body : Res (List ℕ)) {read : List ℕ → Res (A × List ℕ)} {n : A}
    → o ≡ false
    → Agree body read n
    → Agree (if o && x then ok (0 ∷ 0 ∷ []) else body) read n
no_option true x body e b = cc
no_option false x body e b = b

module _ (tags : Tags) (used : in_range tags ≡ true) where
  not_optional : tags.optional ≡ false
  not_optional = ground arith

  pub body-Agree :
      (t : Ty) (v : El t)
      → Agree (marshal t v) (unmarshal t) (settle t v)
      → Agree (marshal_body tags t v (marshal t v)) (unmarshal t) (null_or tags t (settle t v))
  unfolding nullable_form marshal unmarshal settle
  body-Agree (num w32) v a =
      either (v == 0 && tags.nullable) tags.optional false (put_be 4 rh_null) (ok (put_be 4 v))
        (read_num 4) rh_null v not_optional (num-Agree 4 rh_null (omega arith)) a
  body-Agree (num w16) v a =
      either (v == 0 && tags.nullable) tags.optional false (put_be 2 alg_null) (ok (put_be 2 v))
        (read_num 2) alg_null v not_optional (num-Agree 2 alg_null (omega arith)) a
  body-Agree (ptr t) none a = no_option tags.optional true _ not_optional a
  body-Agree (ptr t) (some v) a = no_option tags.optional false _ not_optional a
  body-Agree _ v a = no_option tags.optional false _ not_optional a

module _ (tags : Tags) (l : tags.list ≡ false) where
  no_prefix : (t : Ty) (v : El t) → list_prefix tags t v ≡ ok []
  no_prefix bytes v = simp l
  no_prefix _ v = simp l

short_enough : (n : ℕ) → n ≤ max_list_length → too_long n ≡ false
short_enough n h = ground arith

module _ (tags : Tags) (used : in_range tags ≡ true) (plain : not_sized tags ≡ true) where
  unsized : tags.sized ≡ false
  unsized = ground arith

  unsized8 : tags.sized8 ≡ false
  unsized8 = ground arith

  pub plain-Agree :
      (t : Ty) (v : El t) (body : Res (List ℕ)) (v' : El t)
      → tags.list ≡ false
      → unlisted_slice t ≡ false
      → Agree (marshal_body tags t v body) (unmarshal t) v'
      → Agree (marshal_field tags t v body) (unmarshal_field tags t (unmarshal t)) v'
  plain-Agree t v body v' l u a = record {
    bytes = a.bytes;
    writes = simp (no_prefix tags l t v, a.writes, unsized, unsized8);
    reads = λ rest. simp (l, u, not_optional tags used, unsized, unsized8, a.reads rest);
  }

  pub list-Agree :
      (t : Ty) (xs ys : List (El t)) (body : Res (List ℕ))
      → tags.list ≡ true
      → length xs ≤ max_list_length
      → Agree body (unmarshal_array (length xs) (unmarshal t)) ys
      → Agree
          (marshal_field tags (slice t) xs body)
          (unmarshal_field tags (slice t) (unmarshal (slice t)))
          ys
  unfolding nullable_form unmarshal
  list-Agree t xs ys body l short a = record {
    bytes = put_be 4 (length xs) ++ a.bytes;
    writes = simp (l, not_optional tags used, a.writes, unsized, unsized8);
    reads = λ rest.
        simp (l, not_optional tags used, unsized, unsized8, append_assoc)
          (rw (
            read_num-put_be 4 (length xs) (a.bytes ++ rest) (omega arith),
            short_enough _ short,
            a.reads rest,
          ));
  }

-- A list of bytes is written as it is, and all of a buffer is read.
pub bytes_written : (xs : List ℕ) → All IsByte xs → marshal_array (λ b. ok (put_be 1 b)) xs ≡ ok xs
unfolding marshal_array put_be
bytes_written [] p = refl
bytes_written (x ∷ xs) (p, ps) =
    let e : x / 1 % 256 ≡ x = omega arith in rw (bytes_written xs ps, e)

bytes_read :
    (xs : List ℕ) → All IsByte xs → unmarshal_array (length xs) (read_num 1) xs ≡ ok (xs, [])
bytes_read xs p =
    let a = bytes-Agree xs p in
    let e : a.bytes ≡ xs = cc (a.writes, bytes_written xs p) in rw (append-nil, e) at (a.reads [])

pub unmarshal_bytes :
    (xs : List ℕ) → length xs ≤ max_list_length → All IsByte xs → unmarshal bytes xs ≡ ok (xs, [])
unfolding unmarshal
unmarshal_bytes xs short p =
    let e : length xs % 2 ^ 32 ≡ length xs = omega arith in
    rw (e, short_enough _ short, bytes_read xs p)

module _ (tags : Tags) (used : in_range tags ≡ true) where
  pub sized-Agree :
      (xs : List ℕ)
      → ByteField tags bytes xs
      → Agree
          (marshal_field tags bytes xs (marshal bytes xs))
          (unmarshal_field tags bytes (unmarshal bytes))
          xs
  unfolding nullable_form marshal
  sized-Agree xs (l, inl (s, s8, short), p) = record {
    bytes = put_be 2 (length xs) ++ xs;
    writes = simp (l, not_optional tags used, bytes_written xs p, s, s8);
    reads = λ rest.
        simp (l, not_optional tags used, s, s8, append_assoc)
          (rw (read_sized-put_be 2 xs rest (omega arith), unmarshal_bytes xs short p));
  }
  sized-Agree xs (l, inr (s, s8, short), p) = record {
    bytes = put_be 1 (length xs) ++ xs;
    writes = simp (l, not_optional tags used, bytes_written xs p, s, s8);
    reads = λ rest.
        simp (l, not_optional tags used, s, s8, append_assoc)
          (rw (read_sized-put_be 1 xs rest (omega arith), unmarshal_bytes xs (omega arith) p));
  }
