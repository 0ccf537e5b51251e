-- ===== src/Tpm2/Structures/Basic.antt =====
-- tpm2/structures.go: sized buffers, digests, tickets and property entries.
use go_tpm.Tpm2.Reflect.Types.{plain, Ty, num, bytes, struct, field, no_fields, w16, w32}
use go_tpm.Tpm2.Structures.Tags.{nullable_tag, sized8_tag, sized_tag}
use go_tpm.Tpm2.Structures.Attributes.{tpma_act, tpma_algorithm}

abbrev pub tpms_empty : Ty
tpms_empty = struct no_fields

abbrev pub tpmt_ha : Ty
tpmt_ha = struct (field "HashAlg" nullable_tag (num w16) (field "Digest" plain bytes no_fields))

abbrev pub tpm2b_data : Ty
tpm2b_data = struct (field "Buffer" sized_tag bytes no_fields)

abbrev pub tpm2b_digest : Ty
tpm2b_digest = tpm2b_data

abbrev pub tpm2b_nonce : Ty
tpm2b_nonce = tpm2b_digest

abbrev pub tpm2b_event : Ty
tpm2b_event = tpm2b_data

abbrev pub tpm2b_timeout : Ty
tpm2b_timeout = tpm2b_data

abbrev pub tpm2b_auth : Ty
tpm2b_auth = tpm2b_digest

abbrev pub tpm2b_operand : Ty
tpm2b_operand = tpm2b_digest

abbrev pub tpm2b_max_buffer : Ty
tpm2b_max_buffer = tpm2b_data

abbrev pub tpm2b_max_nv_buffer : Ty
tpm2b_max_nv_buffer = tpm2b_data

abbrev pub tpm2b_iv : Ty
tpm2b_iv = tpm2b_data

abbrev pub tpm2b_name : Ty
tpm2b_name = tpm2b_data

abbrev pub tpms_pcr_selection : Ty
tpms_pcr_selection =
    struct (field "Hash" plain (num w16) (field "PCRSelect" sized8_tag bytes no_fields))

abbrev pub tpmt_tk_creation : Ty
tpmt_tk_creation = struct (
    field "Tag" plain (num w16)
      (field "Hierarchy" plain (num w32) (field "Digest" plain tpm2b_digest no_fields)))

abbrev pub tpmt_tk_verified : Ty
tpmt_tk_verified = struct (
    field "Tag" plain (num w16)
      (field "Hierarchy" plain (num w32) (field "Digest" plain tpm2b_digest no_fields)))

abbrev pub tpmt_tk_auth : Ty
tpmt_tk_auth = struct (
    field "Tag" plain (num w16)
      (field "Hierarchy" nullable_tag (num w32) (field "Digest" plain tpm2b_digest no_fields)))

abbrev pub tpmt_tk_hash_check : Ty
tpmt_tk_hash_check = struct (
    field "Tag" plain (num w16)
      (field "Hierarchy" nullable_tag (num w32) (field "Digest" plain tpm2b_digest no_fields)))

abbrev pub tpms_alg_property : Ty
tpms_alg_property =
    struct (field "Alg" plain (num w16) (field "AlgProperties" plain tpma_algorithm no_fields))

abbrev pub tpms_tagged_property : Ty
tpms_tagged_property =
    struct (field "Property" plain (num w32) (field "Value" plain (num w32) no_fields))

abbrev pub tpms_tagged_pcr_select : Ty
tpms_tagged_pcr_select =
    struct (field "Tag" plain (num w32) (field "PCRSelect" sized8_tag bytes no_fields))

abbrev pub tpms_tagged_policy : Ty
tpms_tagged_policy =
    struct (field "Handle" plain (num w32) (field "PolicyHash" plain tpmt_ha no_fields))

abbrev pub tpms_act_data : Ty
tpms_act_data = struct (
    field "Handle" plain (num w32)
      (field "Timeout" plain (num w32) (field "Attributes" plain tpma_act no_fields)))
