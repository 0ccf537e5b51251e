-- ===== src/Tpm2/Structures/Sensitive.antt =====
-- tpm2/structures.go: sensitive areas.
use go_tpm.Tpm2.Reflect.Types.{
  plain, Ty, Members, num, struct, sized_2b, field, union, no_fields, member, no_members, w16,
}
use go_tpm.Tpm2.Constants.{alg_ecc, alg_keyed_hash, alg_rsa, alg_sym_cipher}
use go_tpm.Tpm2.Structures.Basic.{tpm2b_auth, tpm2b_data, tpm2b_digest}
use go_tpm.Tpm2.Structures.Symmetric.{tpm2b_sensitive_data, tpm2b_sym_key}
use go_tpm.Tpm2.Structures.Asymmetric.{tpm2b_ecc_parameter, tpm2b_private_key_rsa}

abbrev pub tpmu_sensitive_composite : Members
tpmu_sensitive_composite =
    (member alg_rsa tpm2b_private_key_rsa (
      member alg_ecc tpm2b_ecc_parameter (
        member alg_keyed_hash tpm2b_sensitive_data
          (member alg_sym_cipher tpm2b_sym_key no_members))))

abbrev pub tpmt_sensitive : Ty
tpmt_sensitive = struct (
    field "SensitiveType" plain (num w16) (
      field "AuthValue" plain tpm2b_auth (
        field "SeedValue" plain tpm2b_digest
          (union "SensitiveType" tpmu_sensitive_composite no_fields))))

abbrev pub tpm2b_sensitive : Ty
tpm2b_sensitive = sized_2b tpmt_sensitive

abbrev pub tpm2b_private : Ty
tpm2b_private = tpm2b_data
