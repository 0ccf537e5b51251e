-- ===== src/Tpm2/Structures/Scheme.antt =====
-- tpm2/structures.go: signing, hashing and key derivation schemes.
use go_tpm.Tpm2.Reflect.Types.{
  plain, Ty, Members, num, struct, field, union, no_fields, member, no_members, w16,
}
use go_tpm.Tpm2.Structures.Tags.{nullable_tag}
use go_tpm.Tpm2.Constants.{
  alg_ecdaa, alg_ecdh, alg_ecdsa, alg_hmac, alg_kdf_1_sp_800108, alg_kdf_1_sp_80056_a, alg_kdf_2,
  alg_mgf_1, alg_rsapss, alg_rsassa, alg_xor,
}
use go_tpm.Tpm2.Structures.Basic.{tpms_empty}
use go_tpm.Tpm2.Structures.Symmetric.{tpms_scheme_hash}

abbrev pub tpms_scheme_ecdaa : Ty
tpms_scheme_ecdaa =
    struct (field "HashAlg" plain (num w16) (field "Count" plain (num w16) no_fields))

abbrev pub tpms_scheme_hmac : Ty
tpms_scheme_hmac = tpms_scheme_hash

abbrev pub tpms_scheme_xor : Ty
tpms_scheme_xor = struct (field "HashAlg" plain (num w16) (field "KDF" plain (num w16) no_fields))

abbrev pub tpmu_scheme_keyed_hash : Members
tpmu_scheme_keyed_hash =
    (member alg_hmac tpms_scheme_hmac (member alg_xor tpms_scheme_xor no_members))

abbrev pub tpmt_keyed_hash_scheme : Ty
tpmt_keyed_hash_scheme =
    struct (field "Scheme" nullable_tag (num w16) (union "Scheme" tpmu_scheme_keyed_hash no_fields))

abbrev pub tpms_sig_scheme_rsassa : Ty
tpms_sig_scheme_rsassa = tpms_scheme_hash

abbrev pub tpms_sig_scheme_rsapss : Ty
tpms_sig_scheme_rsapss = tpms_scheme_hash

abbrev pub tpms_sig_scheme_ecdsa : Ty
tpms_sig_scheme_ecdsa = tpms_scheme_hash

abbrev pub tpmu_sig_scheme : Members
tpmu_sig_scheme =
    (member alg_hmac tpms_scheme_hmac (
      member alg_rsassa tpms_scheme_hash (
        member alg_rsapss tpms_scheme_hash
          (member alg_ecdsa tpms_scheme_hash (member alg_ecdaa tpms_scheme_ecdaa no_members)))))

abbrev pub tpmt_sig_scheme : Ty
tpmt_sig_scheme =
    struct (field "Scheme" nullable_tag (num w16) (union "Scheme" tpmu_sig_scheme no_fields))

abbrev pub tpms_enc_scheme_rsaes : Ty
tpms_enc_scheme_rsaes = tpms_empty

abbrev pub tpms_enc_scheme_oaep : Ty
tpms_enc_scheme_oaep = tpms_scheme_hash

abbrev pub tpms_key_scheme_ecdh : Ty
tpms_key_scheme_ecdh = tpms_scheme_hash

abbrev pub tpms_kdf_scheme_mgf_1 : Ty
tpms_kdf_scheme_mgf_1 = tpms_scheme_hash

abbrev pub tpms_kdf_scheme_ecdh : Ty
tpms_kdf_scheme_ecdh = tpms_scheme_hash

abbrev pub tpms_kdf_scheme_kdf_1_sp_80056_a : Ty
tpms_kdf_scheme_kdf_1_sp_80056_a = tpms_scheme_hash

abbrev pub tpms_kdf_scheme_kdf_2 : Ty
tpms_kdf_scheme_kdf_2 = tpms_scheme_hash

abbrev pub tpms_kdf_scheme_kdf_1_sp_800108 : Ty
tpms_kdf_scheme_kdf_1_sp_800108 = tpms_scheme_hash

abbrev pub tpmu_kdf_scheme : Members
tpmu_kdf_scheme =
    (member alg_mgf_1 tpms_kdf_scheme_mgf_1 (
      member alg_ecdh tpms_kdf_scheme_ecdh (
        member alg_kdf_1_sp_80056_a tpms_kdf_scheme_kdf_1_sp_80056_a (
          member alg_kdf_2 tpms_kdf_scheme_kdf_2
            (member alg_kdf_1_sp_800108 tpms_kdf_scheme_kdf_1_sp_800108 no_members)))))

abbrev pub tpmt_kdf_scheme : Ty
tpmt_kdf_scheme =
    struct (field "Scheme" nullable_tag (num w16) (union "Scheme" tpmu_kdf_scheme no_fields))
