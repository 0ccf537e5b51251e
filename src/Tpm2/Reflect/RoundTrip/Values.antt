-- ===== src/Tpm2/Reflect/RoundTrip/Values.antt =====
-- The induction over a type: a valid value is read back as its settled form.
use go_tpm.Tpm2.Reflect.RoundTrip.Steps.{
  tagged-Agree, member-Agree, field-Agree, list_field-Agree, array_value-Agree, join-Agree,
  kept-Agree, not_skipped, sized_2b-Agree, boolean-Agree,
}
use go_tpm.Base.{ℕ, ◌≡◌, refl, sym, true, false, [], some, if◌then◌else◌}
use go_tpm.Base.Outcome.{ok}
use go_tpm.Tpm2.Reflect.Types.{
  Tags, Ty, Fields, Members, El, Els, Choice, size_of, boolean, num, bytes, slice, array, ptr,
  struct, bits, sized_2b, no_fields, field, union, no_members, member,
}
use go_tpm.Tpm2.Reflect.Selectors.{Selectors, selectors, lookup}
use mathlib.Core.Path.{subst}
use go_tpm.Tpm2.Reflect.Marshal.{zero_value, marshal, marshal_fields, marshal_choice, marshal_field}
use go_tpm.Tpm2.Reflect.Unmarshal.{
  unmarshal, unmarshal_fields, unmarshal_choice, unmarshal_field, unmarshal_tagged, unlisted_slice,
  zero_selectors, add_selector,
}
use go_tpm.Tpm2.Reflect.Valid.{
  Known, add_known, Valid, ValidFields, ValidChoice, ValidList, in_range, null_or, settle,
  settle_fields, settle_choice,
}
use go_tpm.Tpm2.Reflect.Bitwise.RoundTrip.{bits-Agree}
use go_tpm.Tpm2.Reflect.RoundTrip.Parts.{Agree, num-Agree}
use go_tpm.Tpm2.Reflect.RoundTrip.Names.{Found, Found-tail, selectors-Found, SameOn, SameOn-add}

Valid-unlisted : (t : Ty) (v : El t) → Valid t v → unlisted_slice t ≡ false
Valid-unlisted (slice t) v h = elim h [ ]
Valid-unlisted _ v h = refl

mutual
  unfolding marshal unmarshal settle

  pub value-Agree : (t : Ty) (v : El t) → Valid t v → Agree (marshal t v) (unmarshal t) (settle t v)
  value-Agree boolean b h = boolean-Agree b
  value-Agree (num w) n h = num-Agree (size_of w) n h
  value-Agree bytes xs h = elim h [ ]
  value-Agree (slice t) xs h = elim h [ ]
  value-Agree (array n t) xs h = array_value-Agree t (value-Agree t) n xs h
  value-Agree (ptr t) v h = elim h [ ]
  value-Agree (struct fs) vs h =
      fields-Agree fs (selectors fs vs) (zero_selectors fs) [] vs (selectors-Found fs vs h.0)
        (λ x k. cc) h.1
  value-Agree (bits n bs) v h = bits-Agree n bs v h
  value-Agree (sized_2b t) v h = sized_2b-Agree t v h

  fields-Agree :
      (fs : Fields) (env seen : Selectors) (ks : Known) (vs : Els fs)
      → Found env fs vs
      → SameOn ks env seen
      → ValidFields fs env ks vs
      → Agree (marshal_fields fs env vs) (unmarshal_fields fs seen) (settle_fields fs env vs)
  fields-Agree no_fields env seen ks vs f s h = record {
    bytes = [];
    writes = refl;
    reads = λ rest. refl;
  }
  fields-Agree (field x tags t fs) env seen ks vs f s h =
      let v' = null_or tags t (settle t vs.0) in
      join-Agree _ _
        (λ b. if tags.skip then ok (zero_value t, b) else unmarshal_field tags t (unmarshal t) b)
        (λ v. unmarshal_fields fs (add_selector x t v seen)) v' (settle_fields fs env vs.1)
        (kept-Agree tags.skip _ _ _ v' (not_skipped tags h.0)
          (field-Agree t (value-Agree t) tags vs.0 h.0 h.1 (listed-Agree t tags vs.0 h.0)))
        (fields-Agree fs env _ (add_known x tags t ks) vs.1 (Found-tail env x tags t fs vs.0 vs.1 f)
          (SameOn-add x tags t fs vs.0 vs.1 ks env seen f s) h.2)
  fields-Agree (union tag ms fs) env seen ks vs f s h =
      join-Agree _ _ (unmarshal_tagged (lookup tag seen) (unmarshal_choice ms))
        (λ c. unmarshal_fields fs seen) _ (settle_fields fs env vs.1)
        (rw (s tag h.0) (
          tagged-Agree (ValidChoice ms) (lookup tag env) vs.0 (λ k. marshal_choice ms k vs.0)
            (unmarshal_choice ms) (settle_choice ms)
            (λ k a e p.
              subst
                (λ c. Agree (marshal_choice ms k c) (unmarshal_choice ms k) (settle_choice ms a))
                (sym e) (choice-Agree ms k a p))
            h.1))
        (fields-Agree fs env seen ks vs.1 f s h.2)

  listed-Agree :
      (t : Ty) (tags : Tags) (v : El t)
      → in_range tags ≡ true
      → ValidList tags t v
      → Agree
          (marshal_field tags t v (marshal t v))
          (unmarshal_field tags t (unmarshal t))
          (null_or tags t (settle t v))
  listed-Agree (slice t) tags xs r h = list_field-Agree t (value-Agree t) tags xs r h
  listed-Agree boolean tags v r h = elim h [ ]
  listed-Agree (num w) tags v r h = elim h [ ]
  listed-Agree bytes tags v r h = elim h [ ]
  listed-Agree (array n t) tags v r h = elim h [ ]
  listed-Agree (ptr t) tags v r h = elim h [ ]
  listed-Agree (struct fs) tags v r h = elim h [ ]
  listed-Agree (bits n bs) tags v r h = elim h [ ]
  listed-Agree (sized_2b t) tags v r h = elim h [ ]

  choice-Agree :
      (ms : Members) (h : ℕ) (c : Choice ms)
      → ValidChoice ms h c
      → Agree (marshal_choice ms h (some c)) (unmarshal_choice ms h) (settle_choice ms c)
  choice-Agree no_members h c p = elim p [ ]
  choice-Agree (member k t ms) h c p = member-Agree t (value-Agree t) k ms (choice-Agree ms) h c p
