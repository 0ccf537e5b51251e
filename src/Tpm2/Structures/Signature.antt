-- ===== src/Tpm2/Structures/Signature.antt =====
-- tpm2/structures.go: signatures.
use go_tpm.Tpm2.Reflect.Types.{
  Ty, Members, num, struct, field, union, no_fields, member, no_members, w16,
}
use go_tpm.Tpm2.Structures.Tags.{nullable_tag}
use go_tpm.Tpm2.Constants.{alg_ecdaa, alg_ecdsa, alg_hmac, alg_rsapss, alg_rsassa}
use go_tpm.Tpm2.Structures.Basic.{tpm2b_data, tpmt_ha}
use go_tpm.Tpm2.Structures.Asymmetric.{tpms_signature_ecc, tpms_signature_rsa}

abbrev pub tpmu_signature : Members
tpmu_signature =
    (member alg_hmac tpmt_ha (
      member alg_rsassa tpms_signature_rsa (
        member alg_rsapss tpms_signature_rsa
          (member alg_ecdsa tpms_signature_ecc (member alg_ecdaa tpms_signature_ecc no_members)))))

abbrev pub tpmt_signature : Ty
tpmt_signature =
    struct (field "SigAlg" nullable_tag (num w16) (union "SigAlg" tpmu_signature no_fields))

abbrev pub tpm2b_encrypted_secret : Ty
tpm2b_encrypted_secret = tpm2b_data
