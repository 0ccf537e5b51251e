-- ===== src/Legacy/Nv.antt =====
-- The reading of NV indices in legacy/tpm2/tpm2.go.
pub mod Encodings
pub mod Blocks
use go_tpm.Base.{
  ℕ, zero, suc, ◌-◌, ◌%◌, ◌^◌, Bool, not, List, [], ◌∷◌, ◌++◌, Option, none, some, ◌==◌, ltb,
  if◌then◌else◌, length,
}
use go_tpm.Base.Outcome.{ok, err}
use go_tpm.Tpm2.Reflect.Types.{w16, w32}
use go_tpm.Tpmutil.Encoding.{value, no_values, num, raw_bytes}
use go_tpm.Legacy.Wire.{Res, unknown_buffer_size, unexpected_type}
use go_tpm.Legacy.Tpm.{
  Tpm, Step, continue, lift, run, tag_no_sessions, tag_sessions, password_auth, encode_auth_area,
  CapabilityItem, property, capability_tpm_properties, decode_get_capability,
}
use go_tpm.Legacy.Nv.Encodings.{encode_nv_read, decode_nv_read, NvPublic, decode_nv_read_public}

infixl 5 ◌>>=◌
abbrev pub ◌>>=◌ : {T A B : Type 0} (first : Step T A) (next : A → Step T B) → Step T B
(first >>= next) t = continue (first t) next

module _ {T : Type 0} (tpm : Tpm T) where
  -- `GetCapability`
  unfoldable pub get_capability : (capability count start : ℕ) → Step T (List CapabilityItem × Bool)
  get_capability capability count start = do
    resp ←
        run tpm tag_no_sessions 0x17a
          (value (num w32 capability) (value (num w32 start) (value (num w32 count) no_values)))
    lift (decode_get_capability resp)

  -- `NVReadPublic`
  unfoldable pub nv_read_public : ℕ → Step T NvPublic
  nv_read_public index = do
    resp ← run tpm tag_no_sessions 0x169 (value (num w32 index) no_values)
    lift (decode_nv_read_public resp)

  -- One turn of the loop of `NVReadEx`.
  unfoldable pub read_block :
      (index auth_handle : ℕ) (password : List ℕ) (cursor size : ℕ) → Step T (List ℕ)
  read_block index auth_handle password cursor size = do
    cmd ← lift (encode_nv_read index auth_handle password (cursor % 2 ^ 16) (size % 2 ^ 16))
    resp ← run tpm tag_sessions 0x14e (value (raw_bytes cmd) no_values)
    lift (decode_nv_read resp)

  abbrev pub read_size : (block_size left : ℕ) → ℕ
  read_size block_size left = if ltb left block_size then left else block_size

  -- The loop; without fuel it is not known to end.
  unfoldable pub read_blocks :
      (fuel index auth_handle : ℕ) (password : List ℕ) (block_size data_size : ℕ)
      → List ℕ
      → Step T (Option (List ℕ))
  read_blocks zero index auth_handle password block_size data_size out =
      lift (ok (if ltb (length out) data_size then none else some out))
  read_blocks (suc fuel) index auth_handle password block_size data_size out =
      let turn = (do
        block ←
            read_block index auth_handle password (length out)
              (read_size block_size (data_size - length out))
        read_blocks fuel index auth_handle password block_size data_size (out ++ block)) in
      if ltb (length out) data_size then turn else lift (ok (some out))

  -- The size of the TPM's buffer, where none is given.
  abbrev pub only_property : List CapabilityItem → Res ℕ
  only_property (property tag number ∷ []) = ok number
  only_property (_ ∷ []) = err unexpected_type
  only_property _ = err unknown_buffer_size

  unfoldable pub block_size_or : ℕ → Step T ℕ
  unfolding get_capability
  block_size_or block_size = if not (block_size == 0) then lift (ok block_size) else (do
    (items, more) ← get_capability capability_tpm_properties 1 0x12c
    lift (only_property items))

  -- `NVReadEx`; the fuel is for the loop.
  unfoldable pub nv_read_ex :
      (fuel index auth_handle : ℕ) (password : List ℕ) (block_size : ℕ) → Step T (Option (List ℕ))
  unfolding nv_read_public read_block read_blocks block_size_or
  nv_read_ex fuel index auth_handle password block_size = do
    size ← block_size_or block_size
    p ← nv_read_public index
    read_blocks fuel index auth_handle password size p.data_size []
