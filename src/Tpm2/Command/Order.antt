-- ===== src/Tpm2/Command/Order.antt =====
-- cmdNames and marshalParameter of tpm2/reflect.go find a field by its position. Where the handles
-- come first, that is the field they mean.
use go_tpm.Base.{
  ℕ, suc, ◌+◌, ◌≡◌, refl, ap, ◌∙◌, sym, arith, Bool, true, false, List, [], ◌∷◌, ◌++◌, some, length,
  get_elem?, append_assoc, if◌then◌else◌,
}
use go_tpm.Base.Outcome.{ok, ◌>>=◌}
use go_tpm.Tpm2.Fault.{Res}
use go_tpm.Tpm2.Command.{is_handle_field}
use go_tpm.Tpm2.Command.Handles.{Handle, tpm_handle, known_name}
use go_tpm.Tpm2.Command.Arguments.{
  Argument, handle_arg, number_arg, parm_arg, sensitive_arg, field_of, handles_of, must_name,
  names_from, cmd_names, marshal_argument, marshal_parameter, marshal_parameters, parameter_count,
}

abbrev pub none_of : List Bool → Bool
none_of [] = true
none_of (true ∷ bs) = false
none_of (false ∷ bs) = none_of bs

-- Whether all that hold come before all that do not.
abbrev pub handles_first : List Bool → Bool
handles_first [] = true
handles_first (true ∷ bs) = handles_first bs
handles_first (false ∷ bs) = none_of bs

abbrev pub count_true : List Bool → ℕ
count_true [] = 0
count_true (true ∷ bs) = suc (count_true bs)
count_true (false ∷ bs) = count_true bs

module _ {S : Type 0} where
  abbrev pub marks : List (Argument S) → List Bool
  marks [] = []
  marks (arg ∷ args) = is_handle_field (field_of arg) ∷ marks args

  -- The handle arguments' names, but for those that are tagged `anon` themselves.
  abbrev pub names_of : List (Argument S) → Res (List (List ℕ))
  names_of [] = ok []
  names_of (handle_arg x auth anon h ∷ args) = do
    here ← if anon then ok [] else (do name ← must_name (known_name h); ok (name ∷ []))
    rest ← names_of args
    ok (here ++ rest)
  names_of (number_arg x h ∷ args) = do
    here ← (do name ← must_name (known_name {S = S} (tpm_handle h)); ok (name ∷ []))
    rest ← names_of args
    ok (here ++ rest)
  names_of (parm_arg x tags t v ∷ args) = names_of args
  names_of (sensitive_arg x v ∷ args) = names_of args

  -- The arguments that are no handles.
  abbrev pub parms_of : List (Argument S) → List (Argument S)
  parms_of [] = []
  parms_of (handle_arg x auth anon h ∷ args) = parms_of args
  parms_of (number_arg x h ∷ args) = parms_of args
  parms_of (parm_arg x tags t v ∷ args) = parm_arg x tags t v ∷ parms_of args
  parms_of (sensitive_arg x v ∷ args) = sensitive_arg x v ∷ parms_of args

  abbrev pub marshal_each : List (Argument S) → Res (List ℕ)
  marshal_each [] = ok []
  marshal_each (arg ∷ args) = do b ← marshal_argument arg; rest ← marshal_each args; ok (b ++ rest)

  handles_of-none : (args : List (Argument S)) → none_of (marks args) ≡ true → handles_of args ≡ []
  handles_of-none [] h = refl
  handles_of-none (handle_arg x auth anon k ∷ args) h = cc
  handles_of-none (number_arg x k ∷ args) h = cc
  handles_of-none (parm_arg x tags t v ∷ args) h = handles_of-none args h
  handles_of-none (sensitive_arg x v ∷ args) h = handles_of-none args h

  names_of-none : (args : List (Argument S)) → none_of (marks args) ≡ true → names_of args ≡ ok []
  names_of-none [] h = refl
  names_of-none (handle_arg x auth anon k ∷ args) h = cc
  names_of-none (number_arg x k ∷ args) h = cc
  names_of-none (parm_arg x tags t v ∷ args) h = names_of-none args h
  names_of-none (sensitive_arg x v ∷ args) h = names_of-none args h

  parms_of-none : (args : List (Argument S)) → none_of (marks args) ≡ true → parms_of args ≡ args
  parms_of-none [] h = refl
  parms_of-none (handle_arg x auth anon k ∷ args) h = cc
  parms_of-none (number_arg x k ∷ args) h = cc
  parms_of-none (parm_arg x tags t v ∷ args) h =
      ap (λ rest. parm_arg x tags t v ∷ rest) (parms_of-none args h)
  parms_of-none (sensitive_arg x v ∷ args) h =
      ap (λ rest. sensitive_arg x v ∷ rest) (parms_of-none args h)

  get_elem?-length :
      (before : List (Argument S)) (arg : Argument S) (args : List (Argument S))
      → get_elem? (before ++ arg ∷ args) (length before) ≡ some arg
  get_elem?-length [] arg args = refl
  get_elem?-length (x ∷ before) arg args = get_elem?-length before arg args

  length-snoc :
      (before : List (Argument S)) (arg : Argument S)
      → length (before ++ arg ∷ []) ≡ suc (length before)
  length-snoc [] arg = refl
  length-snoc (x ∷ before) arg = ap suc (length-snoc before arg)

  -- One more argument behind the handle.
  names_from-snoc :
      (before : List (Argument S)) (arg : Argument S) (args : List (Argument S))
      (hs : List (Handle S))
      → names_from (before ++ arg ∷ args) (suc (length before)) hs
        ≡ names_from ((before ++ arg ∷ []) ++ args) (length (before ++ arg ∷ [])) hs
  names_from-snoc before arg args hs =
      sym (λ i. names_from (append_assoc before (arg ∷ []) args i) (length-snoc before arg i) hs)

  names_from-names_of :
      (before args : List (Argument S))
      → handles_first (marks args) ≡ true
      → names_from (before ++ args) (length before) (handles_of args) ≡ names_of args
  unfolding names_from
  names_from-names_of before [] h = refl
  names_from-names_of before (handle_arg x auth anon k ∷ args) h =
      let arg = handle_arg x auth anon k in
      rw (
        get_elem?-length before arg args,
        names_from-snoc before arg args (handles_of args),
        names_from-names_of (before ++ arg ∷ []) args h,
      )
  names_from-names_of before (number_arg x k ∷ args) h =
      let arg = number_arg x k in
      rw (
        get_elem?-length before arg args,
        names_from-snoc before arg args (handles_of args),
        names_from-names_of (before ++ arg ∷ []) args h,
      )
  names_from-names_of before (parm_arg x tags t v ∷ args) h =
      rw (handles_of-none args h, names_of-none args h)
  names_from-names_of before (sensitive_arg x v ∷ args) h =
      rw (handles_of-none args h, names_of-none args h)

  -- Where the handles come first, cmdNames gives the names of the handles that are not themselves
  -- tagged `anon`, in their order, and the error of the first one whose name is not known.
  pub cmd_names-names_of :
      (args : List (Argument S))
      → handles_first (marks args) ≡ true
      → cmd_names args ≡ names_of args
  unfolding cmd_names
  cmd_names-names_of args h = names_from-names_of [] args h

  suc_index :
      (arg : Argument S) (args : List (Argument S)) (n i : ℕ)
      → get_elem? (arg ∷ args) (suc n + i) ≡ get_elem? args (n + i)
  suc_index arg args n i = let e : suc n + i ≡ suc (n + i) = omega arith in rw e

  no_handle_index :
      (arg : Argument S) (args : List (Argument S)) (i : ℕ)
      → none_of (marks args) ≡ true
      → get_elem? (arg ∷ args) (length (handles_of args) + i) ≡ get_elem? (arg ∷ parms_of args) i
  no_handle_index arg args i h =
      let none_before : 0 + i ≡ i = omega arith in
      rw (handles_of-none args h, none_before)
        (ap (λ rest. get_elem? (arg ∷ rest) i) (sym (parms_of-none args h)))

  pub get_elem?-parms_of :
      (args : List (Argument S)) (i : ℕ)
      → handles_first (marks args) ≡ true
      → get_elem? args (length (handles_of args) + i) ≡ get_elem? (parms_of args) i
  get_elem?-parms_of [] i h = refl
  get_elem?-parms_of (handle_arg x auth anon k ∷ args) i h =
      suc_index (handle_arg x auth anon k) args (length (handles_of args)) i
      ∙ get_elem?-parms_of args i h
  get_elem?-parms_of (number_arg x k ∷ args) i h =
      suc_index (number_arg x k) args (length (handles_of args)) i ∙ get_elem?-parms_of args i h
  get_elem?-parms_of (parm_arg x tags t v ∷ args) i h =
      no_handle_index (parm_arg x tags t v) args i h
  get_elem?-parms_of (sensitive_arg x v ∷ args) i h = no_handle_index (sensitive_arg x v) args i h

  pub length-parms_of : (args : List (Argument S)) → length (parms_of args) ≡ parameter_count args
  length-parms_of [] = refl
  length-parms_of (handle_arg x auth anon k ∷ args) = length-parms_of args
  length-parms_of (number_arg x k ∷ args) = length-parms_of args
  length-parms_of (parm_arg x tags t v ∷ args) = ap suc (length-parms_of args)
  length-parms_of (sensitive_arg x v ∷ args) = ap suc (length-parms_of args)

  pub marshal_parameters-each :
      (args before ps : List (Argument S))
      → handles_first (marks args) ≡ true
      → parms_of args ≡ before ++ ps
      → marshal_parameters args (length before) (length ps) ≡ marshal_each ps
  unfolding marshal_parameters marshal_parameter
  marshal_parameters-each args before [] h e = refl
  marshal_parameters-each args before (p ∷ ps) h e =
      let next : marshal_parameters args (suc (length before)) (length ps) ≡ marshal_each ps =
        ap (λ n. marshal_parameters args n (length ps)) (sym (length-snoc before p))
        ∙ marshal_parameters-each args (before ++ p ∷ []) ps h
            (e ∙ sym (append_assoc before (p ∷ []) ps)) in
      rw (get_elem?-parms_of args (length before) h, e, get_elem?-length before p ps, next)

  pub marshal_parameter-first :
      (args : List (Argument S)) (p : Argument S) (ps : List (Argument S))
      → handles_first (marks args) ≡ true
      → parms_of args ≡ p ∷ ps
      → marshal_parameter args 0 ≡ marshal_argument p
  unfolding marshal_parameter
  marshal_parameter-first args p ps h e = rw (get_elem?-parms_of args 0 h, e)
