-- ===== src/Tpm2/Command/Handles.antt =====
-- tpm2/tpm2.go and tpm2/structures.go: handles, their numbers and their names.
use go_tpm.Base.{ℕ, ◌/◌, ◌^◌, Bool, ◌||◌, List, Option, none, some, ◌==◌, if◌then◌else◌, length}
use go_tpm.Base.Bytes.{put_be}
use go_tpm.Tpm2.Reflect.Selectors.{rh_null}

-- A value of the interface `handle`, for sessions of the type `S`. Of a TPM2BName it is the buffer
-- that counts.
pub data Handle (S : Type 0) : Type 0 where
  -- the nil interface
  nil_handle : Handle S
  -- TPMHandle
  tpm_handle : (h : ℕ) → Handle S
  -- NamedHandle
  named_handle : (h : ℕ) (name : List ℕ) → Handle S
  -- AuthHandle, whose `Auth` may be nil
  auth_handle : (h : ℕ) (name : List ℕ) (auth : Option S) → Handle S

-- TPMHT: PCR, HMAC session, policy session and permanent.
abbrev pub has_constant_name : ℕ → Bool
has_constant_name ht = ht == 0x00 || ht == 0x02 || ht == 0x03 || ht == 0x40

-- `TPMHandle.KnownName`
unfoldable pub tpm_known_name : ℕ → Option (List ℕ)
tpm_known_name h = if has_constant_name (h / 2 ^ 24) then some (put_be 4 h) else none

module _ {S : Type 0} where
  -- `asHandle` and `HandleValue`: a nil interface is TPM_RH_NULL.
  abbrev pub handle_value : Handle S → ℕ
  handle_value nil_handle = rh_null
  handle_value (tpm_handle h) = h
  handle_value (named_handle h name) = h
  handle_value (auth_handle h name auth) = h

  -- `asHandle` and `KnownName`
  unfoldable pub known_name : Handle S → Option (List ℕ)
  known_name nil_handle = tpm_known_name rh_null
  known_name (tpm_handle h) = tpm_known_name h
  known_name (named_handle h name) = some name
  known_name (auth_handle h name auth) = if length name == 0 then tpm_known_name h else some name
