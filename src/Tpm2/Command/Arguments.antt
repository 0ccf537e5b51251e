-- ===== src/Tpm2/Command/Arguments.antt =====
-- tpm2/reflect.go: the handles, the names and the parameters of a command's struct.
use go_tpm.Base.{
  ℕ, zero, suc, ◌+◌, String, Bool, true, false, List, [], ◌∷◌, ◌++◌, Option, none, some,
  if◌then◌else◌, length, get_elem?,
}
use go_tpm.Base.Bytes.{put_be}
use go_tpm.Base.Outcome.{ok, err, panic, ◌>>=◌}
use go_tpm.Tpm2.Fault.{Res, missing_auth, missing_name, cannot_marshal, invalid_parameter_index}
use go_tpm.Tpm2.Reflect.Types.{Tags, Ty, El}
use go_tpm.Tpm2.Reflect.Marshal.{marshal, is_nil, nullable_form}
use go_tpm.Tpm2.Command.{CommandField, handle_field, number_handle, parm_field, sensitive_field}
use go_tpm.Tpm2.Command.Handles.{
  Handle, nil_handle, tpm_handle, named_handle, auth_handle, handle_value, known_name,
}
use go_tpm.Tpm2.Command.Sensitive.{SensitiveCreate, marshal_sensitive_create}

-- A field of a command's struct with its value.
pub data Argument (S : Type 0) : Type 0 where
  handle_arg : (name : String) (auth anon : Bool) (h : Handle S) → Argument S
  number_arg : (name : String) (h : ℕ) → Argument S
  parm_arg : (name : String) (tags : Tags) (t : Ty) (v : El t) → Argument S
  sensitive_arg : (name : String) (v : Option SensitiveCreate) → Argument S

abbrev pub must_name : Option (List ℕ) → Res (List ℕ)
must_name none = err missing_name
must_name (some name) = ok name

module _ {S : Type 0} where
  abbrev pub field_of : Argument S → CommandField
  field_of (handle_arg x auth anon h) = handle_field x auth anon
  field_of (number_arg x h) = number_handle x
  field_of (parm_arg x tags t v) = parm_field x tags t
  field_of (sensitive_arg x v) = sensitive_field x

  -- `taggedMembers` for the tag `handle`, with `asHandle` of each.
  abbrev pub handles_of : List (Argument S) → List (Handle S)
  handles_of [] = []
  handles_of (handle_arg x auth anon h ∷ args) = h ∷ handles_of args
  handles_of (number_arg x h ∷ args) = tpm_handle h ∷ handles_of args
  handles_of (parm_arg x tags t v ∷ args) = handles_of args
  handles_of (sensitive_arg x v ∷ args) = handles_of args

  -- `len(taggedMembers(v, "handle", true))`
  abbrev pub parameter_count : List (Argument S) → ℕ
  parameter_count [] = 0
  parameter_count (handle_arg x auth anon h ∷ args) = parameter_count args
  parameter_count (number_arg x h ∷ args) = parameter_count args
  parameter_count (parm_arg x tags t v ∷ args) = suc (parameter_count args)
  parameter_count (sensitive_arg x v ∷ args) = suc (parameter_count args)

  -- The session of a field tagged `auth`; `pw` is `PasswordAuth(nil)`.
  abbrev pub auth_of : S → Handle S → Res S
  auth_of pw (auth_handle h name none) = err missing_auth
  auth_of pw (auth_handle h name (some s)) = ok s
  auth_of pw nil_handle = ok pw
  auth_of pw (tpm_handle h) = ok pw
  auth_of pw (named_handle h name) = ok pw

  -- `cmdAuths`
  unfoldable pub cmd_auths : S → List (Argument S) → Res (List S)
  cmd_auths pw [] = ok []
  cmd_auths pw (handle_arg x true anon h ∷ args) = do
    s ← auth_of pw h
    rest ← cmd_auths pw args
    ok (s ∷ rest)
  cmd_auths pw (handle_arg x false anon h ∷ args) = cmd_auths pw args
  cmd_auths pw (number_arg x h ∷ args) = cmd_auths pw args
  cmd_auths pw (parm_arg x tags t v ∷ args) = cmd_auths pw args
  cmd_auths pw (sensitive_arg x v ∷ args) = cmd_auths pw args

  abbrev pub put_handles : List (Handle S) → List ℕ
  put_handles [] = []
  put_handles (h ∷ hs) = put_be 4 (handle_value h) ++ put_handles hs

  -- `cmdHandles`
  unfoldable pub cmd_handles : List (Argument S) → List ℕ
  cmd_handles args = put_handles (handles_of args)

  -- `hasTag(Field(i), "anon")`; `Field` panics out of range.
  abbrev pub is_anon : Option (Argument S) → Res Bool
  is_anon none = panic
  is_anon (some (handle_arg x auth anon h)) = ok anon
  is_anon (some (number_arg x h)) = ok false
  is_anon (some (parm_arg x tags t v)) = ok false
  is_anon (some (sensitive_arg x v)) = ok false

  -- The loop of `cmdNames` over the handles, from the `i`th on; `args` are all fields.
  unfoldable pub names_from : List (Argument S) → ℕ → List (Handle S) → Res (List (List ℕ))
  names_from args i [] = ok []
  names_from args i (h ∷ hs) = do
    anon ← is_anon (get_elem? args i)
    here ← if anon then ok [] else (do name ← must_name (known_name h); ok (name ∷ []))
    rest ← names_from args (suc i) hs
    ok (here ++ rest)

  -- `cmdNames`
  unfoldable pub cmd_names : List (Argument S) → Res (List (List ℕ))
  cmd_names args = names_from args 0 (handles_of args)

  -- What `marshalParameter` writes for a field. A value of the interface type cannot be marshalled.
  unfoldable pub marshal_argument : Argument S → Res (List ℕ)
  marshal_argument (handle_arg x auth anon h) = err cannot_marshal
  marshal_argument (number_arg x h) = ok (put_be 4 h)
  marshal_argument (parm_arg x tags t v) =
      if tags.optional
      then (if is_nil t v then ok (0 ∷ 0 ∷ []) else marshal t v)
      else elim (nullable_form tags t v) [ some b ↦ ok b | none ↦ marshal t v ]
  marshal_argument (sensitive_arg x v) = marshal_sensitive_create v

  abbrev pub marshal_found : Option (Argument S) → Res (List ℕ)
  marshal_found none = err invalid_parameter_index
  marshal_found (some arg) = marshal_argument arg

  -- `marshalParameter`
  unfoldable pub marshal_parameter : List (Argument S) → ℕ → Res (List ℕ)
  marshal_parameter args i = marshal_found (get_elem? args (length (handles_of args) + i))

  -- The parameters from the `i`th on, `left` of them.
  unfoldable pub marshal_parameters : List (Argument S) → ℕ → ℕ → Res (List ℕ)
  marshal_parameters args i zero = ok []
  marshal_parameters args i (suc left) = do
    b ← marshal_parameter args i
    rest ← marshal_parameters args (suc i) left
    ok (b ++ rest)
