-- ===== src/Tpm2/Command/Sensitive.antt =====
-- tpm2/structures.go: TPM2BSensitiveCreate and TPMUSensitiveCreate, which marshal themselves.
use go_tpm.Base.{ℕ, List, ◌++◌, Option, none, some, ◌⊎◌, inl, inr}
use go_tpm.Base.Outcome.{ok, ◌>>=◌}
use go_tpm.Tpm2.Fault.{Res}
use go_tpm.Tpm2.Reflect.Types.{El}
use go_tpm.Tpm2.Reflect.Marshal.{marshal, must, bytes_2b, with_size16, zero_value}
use go_tpm.Tpm2.Structures.Basic.{tpm2b_auth}
use go_tpm.Tpm2.Structures.Symmetric.{tpm2b_derive, tpm2b_sensitive_data}

-- TPMUSensitiveCreate: a TPM2BDerive or a TPM2BSensitiveData, or not set.
abbrev pub SensitiveContents : Type 0
SensitiveContents = Option (El tpm2b_derive ⊎ El tpm2b_sensitive_data)

-- TPMSSensitiveCreate
pub record SensitiveCreate : Type 0 where
  pub user_auth : El tpm2b_auth
  pub contents : SensitiveContents

-- `TPMUSensitiveCreate.marshal`
unfoldable pub marshal_contents : SensitiveContents → Res (List ℕ)
marshal_contents none = must (marshal tpm2b_sensitive_data (zero_value tpm2b_sensitive_data))
marshal_contents (some (inl derive)) = must (marshal tpm2b_derive derive)
marshal_contents (some (inr sealed)) = must (marshal tpm2b_sensitive_data sealed)

-- What package reflect makes of a TPMSSensitiveCreate.
unfoldable pub marshal_sensitive : SensitiveCreate → Res (List ℕ)
marshal_sensitive s = do
  auth ← marshal tpm2b_auth s.user_auth
  contents ← marshal_contents s.contents
  ok (auth ++ contents)

-- The TPMSSensitiveCreate of a zero value.
abbrev pub default_sensitive : SensitiveCreate
default_sensitive = record {
  user_auth = zero_value tpm2b_auth;
  contents = some (inr (zero_value tpm2b_sensitive_data));
}

abbrev pub sensitive_or_default : Option SensitiveCreate → SensitiveCreate
sensitive_or_default none = default_sensitive
sensitive_or_default (some s) = s

-- `TPM2BSensitiveCreate.marshal`
unfoldable pub marshal_sensitive_create : Option SensitiveCreate → Res (List ℕ)
marshal_sensitive_create s = do
  b ←
      bytes_2b marshal_sensitive
        (record { contents = some (sensitive_or_default s); buffer = none })
  ok (with_size16 b)
