-- ===== src/Tpm2/Structures/Asymmetric.antt =====
-- tpm2/structures.go: asymmetric schemes and keys.
use go_tpm.Tpm2.Reflect.Types.{
  plain, Ty, Members, num, struct, sized_2b, field, union, no_fields, member, no_members, w16,
}
use go_tpm.Tpm2.Structures.Tags.{nullable_tag}
use go_tpm.Tpm2.Constants.{
  alg_ecdaa, alg_ecdh, alg_ecdsa, alg_oaep, alg_rsaes, alg_rsapss, alg_rsassa,
}
use go_tpm.Tpm2.Structures.Basic.{tpm2b_data}
use go_tpm.Tpm2.Structures.Scheme.{
  tpms_enc_scheme_oaep, tpms_enc_scheme_rsaes, tpms_key_scheme_ecdh, tpms_scheme_ecdaa,
  tpms_sig_scheme_ecdsa, tpms_sig_scheme_rsapss, tpms_sig_scheme_rsassa,
}

abbrev pub tpmu_asym_scheme : Members
tpmu_asym_scheme =
    (member alg_rsassa tpms_sig_scheme_rsassa (
      member alg_rsaes tpms_enc_scheme_rsaes (
        member alg_rsapss tpms_sig_scheme_rsapss (
          member alg_oaep tpms_enc_scheme_oaep (
            member alg_ecdsa tpms_sig_scheme_ecdsa (
              member alg_ecdh tpms_key_scheme_ecdh
                (member alg_ecdaa tpms_scheme_ecdaa no_members)))))))

abbrev pub tpmt_rsa_scheme : Ty
tpmt_rsa_scheme =
    struct (field "Scheme" nullable_tag (num w16) (union "Scheme" tpmu_asym_scheme no_fields))

abbrev pub tpmt_rsa_decrypt : Ty
tpmt_rsa_decrypt =
    struct (field "Scheme" nullable_tag (num w16) (union "Scheme" tpmu_asym_scheme no_fields))

abbrev pub tpm2b_public_key_rsa : Ty
tpm2b_public_key_rsa = tpm2b_data

abbrev pub tpm2b_private_key_rsa : Ty
tpm2b_private_key_rsa = tpm2b_data

abbrev pub tpm2b_ecc_parameter : Ty
tpm2b_ecc_parameter = tpm2b_data

abbrev pub tpms_ecc_point : Ty
tpms_ecc_point =
    struct (field "X" plain tpm2b_ecc_parameter (field "Y" plain tpm2b_ecc_parameter no_fields))

abbrev pub tpm2b_ecc_point : Ty
tpm2b_ecc_point = sized_2b tpms_ecc_point

abbrev pub tpmt_ecc_scheme : Ty
tpmt_ecc_scheme =
    struct (field "Scheme" nullable_tag (num w16) (union "Scheme" tpmu_asym_scheme no_fields))

abbrev pub tpms_signature_rsa : Ty
tpms_signature_rsa =
    struct (field "Hash" plain (num w16) (field "Sig" plain tpm2b_public_key_rsa no_fields))

abbrev pub tpms_signature_ecc : Ty
tpms_signature_ecc = struct (
    field "Hash" plain (num w16) (
      field "SignatureR" plain tpm2b_ecc_parameter
        (field "SignatureS" plain tpm2b_ecc_parameter no_fields)))
