-- ===== src/Tpm2/Structures/Symmetric.antt =====
-- tpm2/structures.go: symmetric algorithms.
use go_tpm.Tpm2.Reflect.Types.{
  plain, Ty, Members, num, struct, sized_2b, field, union, no_fields, member, no_members, w16,
}
use go_tpm.Tpm2.Structures.Tags.{nullable_tag}
use go_tpm.Tpm2.Constants.{alg_aes, alg_xor}
use go_tpm.Tpm2.Structures.Basic.{tpm2b_data, tpms_empty}

abbrev pub tpmu_sym_key_bits : Members
tpmu_sym_key_bits = (member alg_aes (num w16) (member alg_xor (num w16) no_members))

abbrev pub tpmu_sym_mode : Members
tpmu_sym_mode = (member alg_aes (num w16) (member alg_xor tpms_empty no_members))

abbrev pub tpmu_sym_details : Members
tpmu_sym_details = (member alg_aes tpms_empty (member alg_xor tpms_empty no_members))

abbrev pub tpmt_sym_def : Ty
tpmt_sym_def = struct (
    field "Algorithm" nullable_tag (num w16) (
      union "Algorithm" tpmu_sym_key_bits
        (union "Algorithm" tpmu_sym_mode (union "Algorithm" tpmu_sym_details no_fields))))

abbrev pub tpmt_sym_def_object : Ty
tpmt_sym_def_object = struct (
    field "Algorithm" nullable_tag (num w16) (
      union "Algorithm" tpmu_sym_key_bits
        (union "Algorithm" tpmu_sym_mode (union "Algorithm" tpmu_sym_details no_fields))))

abbrev pub tpm2b_sym_key : Ty
tpm2b_sym_key = tpm2b_data

abbrev pub tpms_sym_cipher_parms : Ty
tpms_sym_cipher_parms = struct (field "Sym" plain tpmt_sym_def_object no_fields)

abbrev pub tpm2b_label : Ty
tpm2b_label = tpm2b_data

abbrev pub tpms_derive : Ty
tpms_derive = struct (field "Label" plain tpm2b_label (field "Context" plain tpm2b_label no_fields))

abbrev pub tpm2b_derive : Ty
tpm2b_derive = sized_2b tpms_derive

abbrev pub tpm2b_sensitive_data : Ty
tpm2b_sensitive_data = tpm2b_data

abbrev pub tpms_scheme_hash : Ty
tpms_scheme_hash = struct (field "HashAlg" plain (num w16) no_fields)
