-- ===== src/Tpm2/Policy/Commands.antt =====
-- tpm2/tpm2.go: the Update methods of the policy commands.
use go_tpm.Base.{ℕ, Bool, true, false, List, [], ◌∷◌, ◌++◌, Option, none, some}
use go_tpm.Base.Bytes.{put_be}
use go_tpm.Base.Outcome.{ok, err, panic}
use go_tpm.Tpm2.Fault.{Res}
use go_tpm.Tpm2.Reflect.Types.{El, num, boolean, w32, bytes}
use go_tpm.Tpm2.Structures.Lists.{tpml_pcr_selection}
use go_tpm.Tpm2.Session.Crypto.{Crypto, Hash, hash_of}
use go_tpm.Tpm2.Command.Handles.{
  Handle, nil_handle, tpm_handle, named_handle, auth_handle, known_name,
}
use go_tpm.Tpm2.Policy.{PolicyCalculator, Datum, reset, update}

-- The policy commands with the fields that `Update` uses; a TPM2B is its buffer.
pub data PolicyCommand (S : Type 0) : Type 0 where
  policy_signed : (auth_object : Handle S) (policy_ref : List ℕ) → PolicyCommand S
  policy_secret : (auth_handle : Handle S) (policy_ref : List ℕ) → PolicyCommand S
  policy_or : (digests : List (List ℕ)) → PolicyCommand S
  policy_pcr : (pcr_digest : List ℕ) (pcrs : El tpml_pcr_selection) → PolicyCommand S
  policy_auth_value : PolicyCommand S
  policy_duplication_select :
      (object_name new_parent_name : List ℕ) (include_object : Bool) → PolicyCommand S
  policy_nv : (nv_index : Handle S) (operand_b : List ℕ) (offset operation : ℕ) → PolicyCommand S
  policy_command_code : (code : ℕ) → PolicyCommand S
  policy_cp_hash : (cp_hash : List ℕ) → PolicyCommand S
  policy_authorize : (policy_ref key_sign : List ℕ) → PolicyCommand S
  policy_nv_written : (written_set : Bool) → PolicyCommand S
  policy_authorize_nv : (nv_index : Handle S) → PolicyCommand S

-- A slice of bytes and a TPMCC as data of `Update`.
abbrev pub data_bytes : List ℕ → Datum
data_bytes b = (bytes, b)

abbrev pub data_code : ℕ → Datum
data_code cc = (num w32, cc)

abbrev pub joined : List (List ℕ) → List ℕ
joined [] = []
joined (b ∷ bs) = b ++ joined bs

-- The second of two steps, unless the first fails.
abbrev pub and_then :
    PolicyCalculator × Res (Unit {0})
    → (PolicyCalculator → PolicyCalculator × Res (Unit {0}))
    → PolicyCalculator × Res (Unit {0})
and_then (p, ok done) next = next p
and_then (p, err e) next = (p, err e)
and_then (p, panic) next = (p, panic)

-- A nil pointer panics.
abbrev pub with_name :
    PolicyCalculator
    → Option (List ℕ)
    → (List ℕ → PolicyCalculator × Res (Unit {0}))
    → PolicyCalculator × Res (Unit {0})
with_name p none next = (p, panic)
with_name p (some name) next = next name

module _ {S : Type 0} where
  -- `h.KnownName().Buffer`: a nil interface, and a name that is not known, is a nil pointer.
  abbrev pub direct_name : Handle S → Option (List ℕ)
  direct_name nil_handle = none
  direct_name (tpm_handle h) = known_name {S = S} (tpm_handle h)
  direct_name (named_handle h name) = known_name {S = S} (named_handle h name)
  direct_name (auth_handle h name auth) = known_name (auth_handle h name auth)

module _ (crypto : Crypto) where
  -- `policyUpdate`
  unfoldable pub policy_update :
      PolicyCalculator → ℕ → List ℕ → List ℕ → PolicyCalculator × Res (Unit {0})
  policy_update p cc arg2 arg3 =
      and_then (update crypto p (data_code cc ∷ data_bytes arg2 ∷ []))
        (λ q. update crypto q (data_bytes arg3 ∷ []))

  -- `PolicyNV.Update` once the hash function is known.
  abbrev pub policy_nv_update :
      PolicyCalculator → Option (List ℕ) → List ℕ → Res Hash → PolicyCalculator × Res (Unit {0})
  policy_nv_update p name args (ok h) = with_name p name (λ known.
      update crypto p (data_code 0x149 ∷ data_bytes (crypto.sum h args) ∷ data_bytes known ∷ []))
  policy_nv_update p name args (err e) = (p, err e)
  policy_nv_update p name args panic = (p, panic)

  -- The `Update` methods.
  abbrev pub update_signed :
      {S : Type 0} → Handle S → List ℕ → PolicyCalculator → PolicyCalculator × Res (Unit {0})
  update_signed h policy_ref p =
      with_name p (direct_name h) (λ name. policy_update p 0x160 name policy_ref)

  abbrev pub update_secret :
      {S : Type 0} → Handle S → List ℕ → PolicyCalculator → PolicyCalculator × Res (Unit {0})
  update_secret h policy_ref p =
      with_name p (direct_name h) (λ name. policy_update p 0x151 name policy_ref)

  abbrev pub update_or : List (List ℕ) → PolicyCalculator → PolicyCalculator × Res (Unit {0})
  update_or digests p =
      update crypto (reset crypto p) (data_code 0x171 ∷ data_bytes (joined digests) ∷ [])

  abbrev pub update_pcr :
      List ℕ → El tpml_pcr_selection → PolicyCalculator → PolicyCalculator × Res (Unit {0})
  update_pcr pcr_digest pcrs p =
      update crypto p (data_code 0x17f ∷ (tpml_pcr_selection, pcrs) ∷ data_bytes pcr_digest ∷ [])

  abbrev pub update_auth_value : PolicyCalculator → PolicyCalculator × Res (Unit {0})
  update_auth_value p = update crypto p (data_code 0x16b ∷ [])

  abbrev pub update_duplication_select :
      List ℕ → List ℕ → Bool → PolicyCalculator → PolicyCalculator × Res (Unit {0})
  update_duplication_select object_name new_parent_name true p =
      update crypto p (
        data_code 0x188
        ∷ data_bytes object_name
        ∷ data_bytes new_parent_name
        ∷ (boolean, true)
        ∷ [])
  update_duplication_select object_name new_parent_name false p =
      update crypto p (data_code 0x188 ∷ data_bytes new_parent_name ∷ (boolean, false) ∷ [])

  abbrev pub update_nv :
      {S : Type 0}
      → Handle S
      → List ℕ
      → ℕ
      → ℕ
      → PolicyCalculator
      → PolicyCalculator × Res (Unit {0})
  update_nv h operand_b offset operation p =
      policy_nv_update p (direct_name h) (operand_b ++ (put_be 2 offset ++ put_be 2 operation))
        (hash_of p.alg)

  abbrev pub update_command_code : ℕ → PolicyCalculator → PolicyCalculator × Res (Unit {0})
  update_command_code code p = update crypto p (data_code 0x16c ∷ data_code code ∷ [])

  abbrev pub update_cp_hash : List ℕ → PolicyCalculator → PolicyCalculator × Res (Unit {0})
  update_cp_hash cp_hash p = update crypto p (data_code 0x16e ∷ data_bytes cp_hash ∷ [])

  abbrev pub update_authorize :
      List ℕ → List ℕ → PolicyCalculator → PolicyCalculator × Res (Unit {0})
  update_authorize policy_ref key_sign p = policy_update p 0x16a key_sign policy_ref

  abbrev pub update_nv_written : Bool → PolicyCalculator → PolicyCalculator × Res (Unit {0})
  update_nv_written written_set p = update crypto p (data_code 0x18f ∷ (boolean, written_set) ∷ [])

  abbrev pub update_authorize_nv :
      {S : Type 0} → Handle S → PolicyCalculator → PolicyCalculator × Res (Unit {0})
  update_authorize_nv h p =
      with_name (reset crypto p) (direct_name h)
        (λ name. update crypto (reset crypto p) (data_code 0x192 ∷ data_bytes name ∷ []))

  -- `Update` of a command.
  unfoldable pub step :
      {S : Type 0} → PolicyCommand S → PolicyCalculator → PolicyCalculator × Res (Unit {0})
  step (policy_signed h policy_ref) p = update_signed h policy_ref p
  step (policy_secret h policy_ref) p = update_secret h policy_ref p
  step (policy_or digests) p = update_or digests p
  step (policy_pcr pcr_digest pcrs) p = update_pcr pcr_digest pcrs p
  step policy_auth_value p = update_auth_value p
  step (policy_duplication_select object_name new_parent_name include_object) p =
      update_duplication_select object_name new_parent_name include_object p
  step (policy_nv h operand_b offset operation) p = update_nv h operand_b offset operation p
  step (policy_command_code code) p = update_command_code code p
  step (policy_cp_hash cp_hash) p = update_cp_hash cp_hash p
  step (policy_authorize policy_ref key_sign) p = update_authorize policy_ref key_sign p
  step (policy_nv_written written_set) p = update_nv_written written_set p
  step (policy_authorize_nv h) p = update_authorize_nv h p

  -- The commands of a policy one after the other, up to the first error.
  unfoldable pub run_policy :
      {S : Type 0} → List (PolicyCommand S) → PolicyCalculator → PolicyCalculator × Res (Unit {0})
  run_policy [] p = (p, ok tt)
  run_policy (c ∷ cs) p = and_then (step c p) (run_policy cs)
