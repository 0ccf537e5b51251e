-- ===== src/Tpm2/Structures/Public.antt =====
-- tpm2/structures.go: public areas.
use go_tpm.Tpm2.Reflect.Types.{
  plain, Ty, Members, num, struct, sized_2b, field, union, no_fields, member, no_members, w16, w32,
}
use go_tpm.Tpm2.Constants.{alg_ecc, alg_keyed_hash, alg_rsa, alg_sym_cipher}
use go_tpm.Tpm2.Structures.Attributes.{tpma_object}
use go_tpm.Tpm2.Structures.Basic.{tpm2b_data, tpm2b_digest}
use go_tpm.Tpm2.Structures.Symmetric.{tpms_derive, tpms_sym_cipher_parms, tpmt_sym_def_object}
use go_tpm.Tpm2.Structures.Scheme.{tpmt_kdf_scheme, tpmt_keyed_hash_scheme}
use go_tpm.Tpm2.Structures.Asymmetric.{
  tpm2b_public_key_rsa, tpms_ecc_point, tpmt_ecc_scheme, tpmt_rsa_scheme,
}

abbrev pub tpmu_public_id : Members
tpmu_public_id =
    (member alg_keyed_hash tpm2b_digest (
      member alg_sym_cipher tpm2b_digest
        (member alg_rsa tpm2b_public_key_rsa (member alg_ecc tpms_ecc_point no_members))))

abbrev pub tpms_keyed_hash_parms : Ty
tpms_keyed_hash_parms = struct (field "Scheme" plain tpmt_keyed_hash_scheme no_fields)

abbrev pub tpms_rsa_parms : Ty
tpms_rsa_parms = struct (
    field "Symmetric" plain tpmt_sym_def_object (
      field "Scheme" plain tpmt_rsa_scheme
        (field "KeyBits" plain (num w16) (field "Exponent" plain (num w32) no_fields))))

abbrev pub tpms_ecc_parms : Ty
tpms_ecc_parms = struct (
    field "Symmetric" plain tpmt_sym_def_object (
      field "Scheme" plain tpmt_ecc_scheme
        (field "CurveID" plain (num w16) (field "KDF" plain tpmt_kdf_scheme no_fields))))

abbrev pub tpmu_public_parms : Members
tpmu_public_parms =
    (member alg_keyed_hash tpms_keyed_hash_parms (
      member alg_sym_cipher tpms_sym_cipher_parms
        (member alg_rsa tpms_rsa_parms (member alg_ecc tpms_ecc_parms no_members))))

abbrev pub tpmt_public_parms : Ty
tpmt_public_parms = struct (field "Type" plain (num w16) (union "Type" tpmu_public_parms no_fields))

abbrev pub tpmt_public : Ty
tpmt_public = struct (
    field "Type" plain (num w16) (
      field "NameAlg" plain (num w16) (
        field "ObjectAttributes" plain tpma_object (
          field "AuthPolicy" plain tpm2b_digest
            (union "Type" tpmu_public_parms (union "Type" tpmu_public_id no_fields))))))

abbrev pub tpm2b_public : Ty
tpm2b_public = sized_2b tpmt_public

abbrev pub tpm2b_template : Ty
tpm2b_template = tpm2b_data

abbrev pub tpmt_template : Ty
tpmt_template = struct (
    field "Type" plain (num w16) (
      field "NameAlg" plain (num w16) (
        field "ObjectAttributes" plain tpma_object (
          field "AuthPolicy" plain tpm2b_digest
            (union "Type" tpmu_public_parms (field "Unique" plain tpms_derive no_fields))))))
