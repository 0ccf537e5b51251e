-- ===== src/Tpm2/Reflect/RoundTrip/Steps.antt =====
-- One step of the round trip: a field, a union, an array or a TPM2B, given the round trip of its parts.
use go_tpm.Base.{
  ℕ, ◌≡◌, refl, ◌⊎◌, inl, inr, Bool, true, false, List, [], ◌∷◌, ◌++◌, append_assoc, Option, none,
  some, if◌then◌else◌, length, arith, ==_iff, ==_ne,
}
use go_tpm.Base.Bytes.{put_be}
use go_tpm.Base.Outcome.{ok, ◌>>=◌}
use go_tpm.Tpm2.Fault.{Res}
use go_tpm.Tpm2.Reflect.Types.{
  Tags, Ty, Members, El, Choice, Sized2B, boolean, bytes, slice, array, sized_2b, member,
}
use go_tpm.Tpm2.Reflect.Selectors.{alg_null}
use go_tpm.Tpm2.Reflect.Marshal.{marshal, marshal_choice, marshal_field, marshal_tagged}
use go_tpm.Tpm2.Reflect.Unmarshal.{
  unmarshal, unmarshal_choice, unmarshal_field, unmarshal_tagged, unlisted_slice,
}
use go_tpm.Tpm2.Reflect.Valid.{
  Valid, ValidChoice, ValidList, ValidUnion, ByteField, in_range, not_sized, null_or, settle,
  settle_choice, selected, map_option,
}
use go_tpm.Tpm2.Reflect.RoundTrip.Parts.{Agree, read_num-put_be, array-Agree, read_2b-put_be}
use go_tpm.Tpm2.Reflect.RoundTrip.Fields.{body-Agree, plain-Agree, list-Agree, sized-Agree}

Valid-unlisted : (t : Ty) (v : El t) → Valid t v → unlisted_slice t ≡ false
Valid-unlisted (slice t) v h = elim h [ ]
Valid-unlisted _ v h = refl

pub null_selected :
    {A : Type 0} (h : ℕ) (c : Option A) (write : ℕ → Res (List ℕ))
    (read : ℕ → List ℕ → Res (A × List ℕ)) (f : A → A)
    → h ≡ alg_null
    → Agree
        (marshal_tagged (some h) write)
        (unmarshal_tagged (some h) read)
        (selected (some h) (map_option f c))
null_selected h c write read f e =
    let this = (==_iff h alg_null).1 e in
    record { bytes = []; writes = rw this; reads = λ rest. rw this }

pub tagged-Agree :
    {A : Type 0} (P : ℕ → A → Type 0) (o : Option ℕ) (c : Option A) (write : ℕ → Res (List ℕ))
    (read : ℕ → List ℕ → Res (A × List ℕ)) (f : A → A)
    → ((h : ℕ) (a : A) → c ≡ some a → P h a → Agree (write h) (read h) (f a))
    → ValidUnion o c P
    → Agree (marshal_tagged o write) (unmarshal_tagged o read) (selected o (map_option f c))
tagged-Agree P none c write read f one v = elim v [ ]
tagged-Agree P (some h) none write read f one v = null_selected h none write read f v
tagged-Agree P (some h) (some a) write read f one (inl e) = null_selected h (some a) write read f e
tagged-Agree P (some h) (some a) write read f one (inr (ne, p)) =
    let m = one h a refl p in
    let other = ==_ne h alg_null ne in
    record { bytes = m.bytes; writes = rw other m.writes; reads = λ rest. rw (other, m.reads rest) }

pub ByteField-Agree :
    (tags : Tags)
    → in_range tags ≡ true
    → (t : Ty) (v : El t) → ByteField tags t v
    → Agree
        (marshal_field tags t v (marshal t v))
        (unmarshal_field tags t (unmarshal t))
        (null_or tags t (settle t v))
unfolding settle
ByteField-Agree tags r bytes xs h = sized-Agree tags r xs h
ByteField-Agree tags r _ v h = elim h [ ]

-- The parts of the induction, over the induction hypotheses.
module _ (t : Ty)
    (value : (v : El t) → Valid t v → Agree (marshal t v) (unmarshal t) (settle t v)) where
  pub member-Agree :
      (k : ℕ) (ms : Members)
      → ((h : ℕ) (c : Choice ms)
          → ValidChoice ms h c
          → Agree (marshal_choice ms h (some c)) (unmarshal_choice ms h) (settle_choice ms c))
      → (h : ℕ) (c : Choice (member k t ms)) → ValidChoice (member k t ms) h c
      → Agree
          (marshal_choice (member k t ms) h (some c))
          (unmarshal_choice (member k t ms) h)
          (settle_choice (member k t ms) c)
  unfolding marshal unmarshal settle
  member-Agree k ms other h (inl v) (e, p) =
      let m = value v p in
      let this = (==_iff h k).1 e in
      record { bytes = m.bytes; writes = rw this m.writes; reads = λ rest. rw (this, m.reads rest) }
  member-Agree k ms other h (inr c) (ne, p) =
      let m = other h c p in
      let that = ==_ne h k ne in
      record { bytes = m.bytes; writes = rw that m.writes; reads = λ rest. rw (that, m.reads rest) }

  -- A field, in each of the forms that `ValidFields` allows.
  pub field-Agree :
      (tags : Tags) (v : El t)
      → in_range tags ≡ true
      → ((tags.list ≡ false) × (not_sized tags ≡ true) × Valid t v)
        ⊎ ByteField tags t v
        ⊎ ValidList tags t v
      → (ValidList tags t v
          → Agree
              (marshal_field tags t v (marshal t v))
              (unmarshal_field tags t (unmarshal t))
              (null_or tags t (settle t v)))
      → Agree
          (marshal_field tags t v (marshal t v))
          (unmarshal_field tags t (unmarshal t))
          (null_or tags t (settle t v))
  field-Agree tags v r (inl (l, plain, p)) listed =
      plain-Agree tags r plain t v (marshal t v) _ l (Valid-unlisted t v p)
        (body-Agree tags r t v (value v p))
  field-Agree tags v r (inr (inl h)) listed = ByteField-Agree tags r t v h
  field-Agree tags v r (inr (inr h)) listed = listed h

  pub list_field-Agree :
      (tags : Tags) (xs : List (El t))
      → in_range tags ≡ true
      → ValidList tags (slice t) xs
      → Agree
          (marshal_field tags (slice t) xs (marshal (slice t) xs))
          (unmarshal_field tags (slice t) (unmarshal (slice t)))
          (settle (slice t) xs)
  unfolding marshal settle
  list_field-Agree tags xs r (l, plain, short, p) =
      list-Agree tags r plain t xs _ _ l short
        (array-Agree (marshal t) (unmarshal t) (settle t) value xs p)

  pub array_value-Agree :
      (n : ℕ) (xs : List (El t))
      → Valid (array n t) xs
      → Agree (marshal (array n t) xs) (unmarshal (array n t)) (settle (array n t) xs)
  unfolding marshal unmarshal settle
  array_value-Agree n xs (e, p) =
      rw (← e) (array-Agree (marshal t) (unmarshal t) (settle t) value xs p)

-- A field or a union in front of the fields that follow it.
pub join-Agree :
    {A B : Type 0} (w₁ w₂ : Res (List ℕ)) (read : List ℕ → Res (A × List ℕ))
    (read_rest : A → List ℕ → Res (B × List ℕ)) (a : A) (b : B)
    → Agree w₁ read a
    → Agree w₂ (read_rest a) b
    → Agree {A = A × B}
        (do x ← w₁; y ← w₂; ok (x ++ y))
        (λ s. do (v, s₁) ← read s; (vs, s₂) ← read_rest v s₁; ok ((v, vs), s₂))
        (a, b)
join-Agree w₁ w₂ read read_rest a b m n = record {
  bytes = m.bytes ++ n.bytes;
  writes = rw (m.writes, n.writes);
  reads = λ rest. rw (append_assoc m.bytes n.bytes rest, m.reads (n.bytes ++ rest), n.reads rest);
}

pub kept-Agree :
    {A : Type 0} (skip : Bool) (w : Res (List ℕ)) (read : List ℕ → Res (A × List ℕ)) (z a : A)
    → skip ≡ false
    → Agree w read a
    → Agree (if skip then ok [] else w) (λ b. if skip then ok (z, b) else read b) a
kept-Agree true w read z a e m = cc
kept-Agree false w read z a e m = m

pub not_skipped : (tags : Tags) → in_range tags ≡ true → tags.skip ≡ false
not_skipped tags r = ground arith

pub sized_2b-Agree :
    (t : Ty) (v : Sized2B (El t))
    → Valid (sized_2b t) v
    → Agree (marshal (sized_2b t) v) (unmarshal (sized_2b t)) (settle (sized_2b t) v)
unfolding marshal unmarshal settle
sized_2b-Agree t v (b, e, short) = record {
  bytes = put_be 2 (length b) ++ b;
  writes = rw e;
  reads = λ rest. rw (e, append_assoc (put_be 2 (length b)) b rest, read_2b-put_be b rest short);
}

pub boolean-Agree : (b : Bool) → Agree (marshal boolean b) (unmarshal boolean) (settle boolean b)
unfolding marshal unmarshal settle put_be
boolean-Agree true = record {
  bytes = 1 ∷ [];
  writes = refl;
  reads = λ rest. rw (read_num-put_be 1 1 rest (omega arith));
}
boolean-Agree false = record {
  bytes = 0 ∷ [];
  writes = refl;
  reads = λ rest. rw (read_num-put_be 1 0 rest (omega arith));
}
