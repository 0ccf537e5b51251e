-- ===== src/Tpm2/Command.antt =====
-- tpm2/tpm2.go: what package reflect shows of the structs of a command and of its response, and
-- the values of a command's fields.
use go_tpm.Base.{ℕ, String, Bool, true, false, List, Option}
use go_tpm.Tpm2.Reflect.Types.{Tags, Ty, El, Sized2B, sized_2b, bytes}
pub mod Handles
pub mod Sensitive
pub mod Arguments
pub mod Order

-- A field of a command; `auth` and `anon` are words of its gotpm tag.
pub data CommandField : Type 0 where
  -- a field of the interface type `handle`, tagged `handle`
  handle_field : (name : String) (auth anon : Bool) → CommandField
  -- a field of a type over TPMHandle, tagged `handle` and nothing else
  number_handle : (name : String) → CommandField
  parm_field : (name : String) (tags : Tags) (t : Ty) → CommandField
  -- a field of the type TPM2BSensitiveCreate
  sensitive_field : (name : String) → CommandField

pub data ResponseField : Type 0 where
  handle_out : (name : String) (t : Ty) → ResponseField
  parm_out : (name : String) (tags : Tags) (t : Ty) → ResponseField

-- A command's struct, its `Command`, and the response that its `Execute` makes and fills.
pub record Command : Type 0 where
  pub code : ℕ
  pub fields : List CommandField
  pub response : List ResponseField

abbrev pub is_handle_field : CommandField → Bool
is_handle_field (handle_field x auth anon) = true
is_handle_field (number_handle x) = true
is_handle_field (parm_field x tags t) = false
is_handle_field (sensitive_field x) = false

abbrev pub is_handle_out : ResponseField → Bool
is_handle_out (handle_out x t) = true
is_handle_out (parm_out x tags t) = false
