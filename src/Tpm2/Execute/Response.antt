-- ===== src/Tpm2/Execute/Response.antt =====
-- tpm2/reflect.go: rspHandles, rspSessions and rspParameters.
pub mod RoundTrip
use go_tpm.Base.{
  ℕ, zero, suc, ◌+◌, ◌-◌, ◌%◌, ◌^◌, Bool, true, false, ◌&&◌, List, [], ◌∷◌, ◌++◌, ◌==◌, leb, ltb,
  if◌then◌else◌, length, take, drop,
}
use go_tpm.Base.Bytes.{get_be}
use go_tpm.Base.Outcome.{Result, ok, err, panic, ◌>>=◌}
use go_tpm.Tpm2.Fault.{Res, unaccounted_bytes}
use go_tpm.Tpm2.Reflect.Types.{Tags, Ty, El, plain, ptr}
use go_tpm.Tpm2.Reflect.Marshal.{zero_value}
use go_tpm.Tpm2.Reflect.Unmarshal.{unmarshal}
use go_tpm.Tpm2.Structures.Auth.{tpms_auth_response}
use go_tpm.Tpm2.Command.{ResponseField, handle_out, parm_out, is_handle_out}
use go_tpm.Tpm2.Execute.Step.{Step, lift, continue, ◌>>=◌ as ◌then◌}
use go_tpm.Tpm2.Execute.Sessions.{Sessions, auth_response}

abbrev pub type_of : ResponseField → Ty
type_of (handle_out x t) = t
type_of (parm_out x tags t) = t

-- A field of a response's struct with its value.
abbrev pub Slot : Type 0
Slot = (f : ResponseField) × El (type_of f)

-- `var rsp R`
abbrev pub zero_response : List ResponseField → List Slot
zero_response [] = []
zero_response (f ∷ fs) = (f, zero_value (type_of f)) ∷ zero_response fs

abbrev pub handle_count : List Slot → ℕ
handle_count [] = 0
handle_count ((f, v) ∷ rsp) = if is_handle_out f then suc (handle_count rsp) else handle_count rsp

-- `unmarshal` into a field
unfoldable pub fill : (f : ResponseField) → List ℕ → Res (Slot × List ℕ)
fill f b = do (v, rest) ← unmarshal (type_of f) b; ok ((f, v), rest)

-- `rspHandles`
unfoldable pub rsp_handles : List Slot → List ℕ → Res (List Slot × List ℕ)
rsp_handles [] b = ok ([], b)
rsp_handles ((f, v) ∷ rsp) b = do
  (slot, b₁) ← if is_handle_out f then fill f b else ok ((f, v), b)
  (slots, b₂) ← rsp_handles rsp b₁
  ok (slot ∷ slots, b₂)

abbrev pub is_pointer : Ty → Bool
is_pointer (ptr t) = true
is_pointer _ = false

-- Whether the field is a pointer with the tag `optional`.
abbrev pub is_optional : ResponseField → Bool
is_optional (handle_out x t) = false
is_optional (parm_out x tags t) = is_pointer t && tags.optional

-- One field of the loop of `rspParameters`; `Uint16` panics on fewer than two bytes.
unfoldable pub fill_parameter : Slot → List ℕ → Res (Slot × List ℕ)
fill_parameter (f, v) b =
    if is_optional f
    then (if ltb (length b) 2
        then panic
        else if get_be (take 2 b) == 0
        then ok ((f, v), drop 2 b)
        else fill f b)
    else fill f b

unfoldable pub fill_parameters : List Slot → List ℕ → Res (List Slot × List ℕ)
fill_parameters [] b = ok ([], b)
fill_parameters (slot ∷ rsp) b = do
  (slot', b₁) ← fill_parameter slot b
  (slots, b₂) ← fill_parameters rsp b₁
  ok (slot' ∷ slots, b₂)

-- The fields from the number of handles on are filled; bytes that are left are dropped.
unfoldable pub fill_from : ℕ → List Slot → List ℕ → Res (List Slot)
fill_from n rsp parms = do
  (slots, rest) ← fill_parameters (drop n rsp) parms
  ok (take n rsp ++ slots)

module _ {W : Type 0} (ops : Sessions W) where
  open ops use {Session}

  -- `s.Decrypt(parms[2 : 2+length])`, where `2+length` has 16 bits.
  abbrev pub decrypt_payload : ℕ → Session → List ℕ → Step W (List ℕ)
  decrypt_payload n s parms =
      let end = (2 + n) % 2 ^ 16 in
      if ltb end 2
      then lift panic
      else ops.decrypt s (take (end - 2) (drop 2 parms)) then λ q.
          lift (ok (take 2 parms ++ (q ++ drop end parms)))

  -- The loop of `rspParameters` over the sessions; `n` is the first parameter's size.
  unfoldable pub decrypt_first : ℕ → List Session → List ℕ → Step W (List ℕ)
  decrypt_first n [] parms w = (w, ok parms)
  decrypt_first n (s ∷ ss) parms w =
      let skipped = decrypt_first n ss parms w in
      let chosen = continue (decrypt_payload n s parms w) (decrypt_first n ss) in
      if ops.is_encryption w s then chosen else skipped

  -- `rspParameters`
  unfoldable pub rsp_parameters : List ℕ → List Session → List Slot → Step W (List Slot)
  rsp_parameters parms sess rsp =
      if ltb (length parms) 2
      then lift (ok rsp)
      else let n = get_be (take 2 parms) in
        (if leb (n + 2) (length parms) then decrypt_first n sess parms else lift (ok parms))
        then λ parms'. lift (fill_from (handle_count rsp) rsp parms')

  -- The loop of `rspSessions`, from the `i`th session on; what is left of the buffer is returned.
  unfoldable pub validate_all :
      ℕ → ℕ → List (List ℕ) → List ℕ → ℕ → List Session → List ℕ → Step W (List ℕ)
  validate_all rc cc names parms i [] b = lift (ok b)
  validate_all rc cc names parms i (s ∷ ss) b =
      lift (unmarshal tpms_auth_response b) then λ (auth, rest).
      ops.validate s rc cc parms names i (auth_response auth) then λ done.
      validate_all rc cc names parms (suc i) ss rest

  -- `rspSessions`
  unfoldable pub rsp_sessions :
      List ℕ → ℕ → ℕ → List (List ℕ) → List ℕ → List Session → Step W (Unit {0})
  rsp_sessions b rc cc names parms sess = validate_all rc cc names parms 0 sess b then λ rest.
      lift (if length rest == 0 then ok tt else err unaccounted_bytes)
